-- ===== src/Cql/Executor.antt =====
-- server/src/cql/executor.rs: what a query finds in the secondary indexes. The clock's value is an
-- argument, one for the whole query. A product of a relative date and the difference to the clock
-- wrap at 64 bits, as they do without overflow checks.
pub mod Dates
pub mod Reference
pub mod Fields
pub mod Agrees
pub mod Rebuilt
pub mod Kinds
pub mod Sets
pub mod Once
use cxdb.Prelude.{
  ℕ, Bool, true, false, Option, none, some, List, [], ◌∷◌, ◌==◌, ◌%◌, ◌^◌, bytes_eq, if◌then◌else◌,
  String,
}
use cxdb.Prelude.HashSet
use cxdb.Prelude.HashSet.{HashSet, contains, insert, remove, union, intersection, difference}
use cxdb.Cql.Order.{Text}
use cxdb.Cql.Ast.{
  codes, Operator, Value, Values, Expression, FieldName, from_str, CqlError, CqlErrorType,
  QueryCrates, as_string, as_u64, as_list, Answer, ok, err, ◌>>=◌, ok_or, refusal,
}
use cxdb.Cql.Indexes.{SecondaryIndexes}
use cxdb.Cql.Indexes.Lookups.{
  lookup_tag_exact, lookup_tag_prefix, lookup_title_exact, lookup_title_prefix, lookup_user_exact,
  lookup_user_prefix, lookup_service_exact, lookup_service_prefix, lookup_label_exact,
  lookup_host_exact, lookup_host_prefix, lookup_trace_id_exact, lookup_parent_exact,
  lookup_root_exact, lookup_created_gt, lookup_created_gte, lookup_created_lt, lookup_created_lte,
  lookup_created_eq, lookup_depth_gt, lookup_depth_gte, lookup_depth_lt, lookup_depth_lte,
  lookup_depth_eq, lookup_tag_exact_ci, lookup_tag_prefix_ci, lookup_title_exact_ci,
  lookup_title_prefix_ci, lookup_user_exact_ci, lookup_user_prefix_ci, lookup_service_exact_ci,
  lookup_service_prefix_ci,
}
use cxdb.Cql.Executor.Dates.{parse_date_value}

abbrev pub no_string : CqlError
no_string = refusal CqlErrorType.invalid_value "Expected string value"

abbrev pub no_list : CqlError
no_list = refusal CqlErrorType.invalid_value "Expected list value for IN operator"

-- `format!("Expected numeric value for {field}")`
abbrev pub no_number : CqlError
no_number = refusal CqlErrorType.invalid_value "Expected numeric value"

-- `format!("Operator {:?} not supported for {field} field")`
abbrev pub bad_operator : CqlError
bad_operator = refusal CqlErrorType.invalid_operator "Operator not supported"

abbrev pub no_boolean : CqlError
no_boolean = refusal CqlErrorType.invalid_value "Expected boolean value for is_live"

abbrev pub unknown : Text → CqlError
unknown field = record {
  error_type = CqlErrorType.unknown_field;
  message = "Unknown field";
  position = none;
  field = some field;
}

pub data StringField : Type 0 where
  tag : StringField
  title : StringField
  user : StringField
  service : StringField
  host : StringField

module _ (s : SecondaryIndexes) where
  abbrev pub exact_matches : StringField → Text → HashSet
  exact_matches StringField.tag v = lookup_tag_exact s v
  exact_matches StringField.title v = lookup_title_exact s v
  exact_matches StringField.user v = lookup_user_exact s v
  exact_matches StringField.service v = lookup_service_exact s v
  exact_matches StringField.host v = lookup_host_exact s v

  abbrev pub prefix_matches : StringField → Text → HashSet
  prefix_matches StringField.tag v = lookup_tag_prefix s v
  prefix_matches StringField.title v = lookup_title_prefix s v
  prefix_matches StringField.user v = lookup_user_prefix s v
  prefix_matches StringField.service v = lookup_service_prefix s v
  prefix_matches StringField.host v = lookup_host_prefix s v

  module _ ⦃x : QueryCrates⦄ where
    abbrev pub exact_ci_matches : StringField → Text → HashSet
    exact_ci_matches StringField.tag v = lookup_tag_exact_ci s v
    exact_ci_matches StringField.title v = lookup_title_exact_ci s v
    exact_ci_matches StringField.user v = lookup_user_exact_ci s v
    exact_ci_matches StringField.service v = lookup_service_exact_ci s v
    exact_ci_matches StringField.host v = lookup_host_exact s v

    abbrev pub prefix_ci_matches : StringField → Text → HashSet
    prefix_ci_matches StringField.tag v = lookup_tag_prefix_ci s v
    prefix_ci_matches StringField.title v = lookup_title_prefix_ci s v
    prefix_ci_matches StringField.user v = lookup_user_prefix_ci s v
    prefix_ci_matches StringField.service v = lookup_service_prefix_ci s v
    prefix_ci_matches StringField.host v = lookup_host_prefix s v

abbrev pub found_for {ℓ} : {A : Type ℓ} → (A → HashSet) → Option A → HashSet
found_for found none = []
found_for found (some a) = found a

-- The loop of `IN`: what is found for each value that has the right type.
unfoldable pub collect_in {ℓ} : {A : Type ℓ} → (Value → Option A) → (A → HashSet) → Values → HashSet
collect_in read found Values.nil = []
collect_in read found (Values.cons v vs) =
    union (found_for found (read v)) (collect_in read found vs)

abbrev pub is_live_value : Value → Answer Bool
is_live_value (Value.string v) = ok (v == codes "true")
is_live_value _ = err no_boolean

module _ (s : SecondaryIndexes) where
  abbrev pub others : HashSet → HashSet
  others found = difference s.all_context_ids found

  -- An id that is not known is not found.
  abbrev pub known_id : ℕ → HashSet
  known_id id = if contains id s.all_context_ids then id ∷ [] else []

  unfoldable pub execute_label : Operator → Value → Answer HashSet
  unfolding collect_in
  execute_label Operator.eq value = do
    v ← ok_or (as_string value) no_string
    ok (lookup_label_exact s v)
  execute_label Operator.neq value = do
    v ← ok_or (as_string value) no_string
    ok (others (lookup_label_exact s v))
  execute_label Operator.in_list value = do
    vs ← ok_or (as_list value) no_list
    ok (collect_in as_string (lookup_label_exact s) vs)
  execute_label _ value = err bad_operator

  unfoldable pub execute_trace_id : Operator → Value → Answer HashSet
  execute_trace_id Operator.eq value = do
    v ← ok_or (as_string value) no_string
    ok (lookup_trace_id_exact s v)
  execute_trace_id Operator.neq value = do
    v ← ok_or (as_string value) no_string
    ok (others (lookup_trace_id_exact s v))
  execute_trace_id _ value = err bad_operator

  unfoldable pub execute_is_live : Operator → Value → HashSet → Answer HashSet
  execute_is_live Operator.eq value live = do
    is_live ← is_live_value value
    ok (if is_live then live else others live)
  execute_is_live _ value live = is_live_value value >>= λ _. err bad_operator

  module _ ⦃x : QueryCrates⦄ where
    unfoldable pub execute_string_field : Operator → Value → StringField → Answer HashSet
    unfolding collect_in
    execute_string_field Operator.eq value field = do
      v ← ok_or (as_string value) no_string
      ok (exact_matches s field v)
    execute_string_field Operator.eq_ci value field = do
      v ← ok_or (as_string value) no_string
      ok (exact_ci_matches s field v)
    execute_string_field Operator.starts value field = do
      v ← ok_or (as_string value) no_string
      ok (prefix_matches s field v)
    execute_string_field Operator.starts_ci value field = do
      v ← ok_or (as_string value) no_string
      ok (prefix_ci_matches s field v)
    execute_string_field Operator.neq value field = do
      v ← ok_or (as_string value) no_string
      ok (others (exact_matches s field v))
    execute_string_field Operator.in_list value field = do
      vs ← ok_or (as_list value) no_list
      ok (collect_in as_string (exact_matches s field) vs)
    execute_string_field _ value field = err bad_operator

    unfoldable pub execute_id : Operator → Value → Answer HashSet
    unfolding collect_in
    execute_id Operator.eq value = do id ← ok_or (as_u64 value) no_number; ok (known_id id)
    execute_id Operator.neq value = do
      id ← ok_or (as_u64 value) no_number
      ok (remove id s.all_context_ids)
    execute_id Operator.in_list value = do
      vs ← ok_or (as_list value) no_list
      ok (collect_in as_u64 known_id vs)
    execute_id _ value = err bad_operator

    -- What `execute_parent` and `execute_root` do alike, over their lookups.
    unfoldable pub execute_lineage : (ℕ → HashSet) → Operator → Value → Answer HashSet
    unfolding collect_in
    execute_lineage found Operator.eq value = do id ← ok_or (as_u64 value) no_number; ok (found id)
    execute_lineage found Operator.neq value = do
      id ← ok_or (as_u64 value) no_number
      ok (others (found id))
    execute_lineage found Operator.in_list value = do
      vs ← ok_or (as_list value) no_list
      ok (collect_in as_u64 found vs)
    execute_lineage found _ value = err bad_operator

    abbrev pub execute_parent : Operator → Value → Answer HashSet
    execute_parent o v = execute_lineage (lookup_parent_exact s) o v

    abbrev pub execute_root : Operator → Value → Answer HashSet
    execute_root o v = execute_lineage (lookup_root_exact s) o v

    abbrev pub created_matches : ℕ → Operator → Answer HashSet
    created_matches timestamp Operator.eq = ok (lookup_created_eq s timestamp)
    created_matches timestamp Operator.neq = ok (others (lookup_created_eq s timestamp))
    created_matches timestamp Operator.gt = ok (lookup_created_gt s timestamp)
    created_matches timestamp Operator.gte = ok (lookup_created_gte s timestamp)
    created_matches timestamp Operator.lt = ok (lookup_created_lt s timestamp)
    created_matches timestamp Operator.lte = ok (lookup_created_lte s timestamp)
    created_matches timestamp _ = err bad_operator

    abbrev pub depth_matches : ℕ → Operator → Answer HashSet
    depth_matches depth Operator.eq = ok (lookup_depth_eq s depth)
    depth_matches depth Operator.neq = ok (others (lookup_depth_eq s depth))
    depth_matches depth Operator.gt = ok (lookup_depth_gt s depth)
    depth_matches depth Operator.gte = ok (lookup_depth_gte s depth)
    depth_matches depth Operator.lt = ok (lookup_depth_lt s depth)
    depth_matches depth Operator.lte = ok (lookup_depth_lte s depth)
    depth_matches depth _ = err bad_operator

    unfoldable pub execute_created : ℕ → Operator → Value → Answer HashSet
    execute_created now operator value = do
      timestamp ← parse_date_value now value
      created_matches timestamp operator

    unfoldable pub execute_depth : Operator → Value → Answer HashSet
    execute_depth operator value = do
      depth ← ok_or (as_u64 value) no_number
      depth_matches (depth % 2 ^ 32) operator

    abbrev pub execute_field : ℕ → HashSet → FieldName → Operator → Value → Answer HashSet
    execute_field now live FieldName.id o v = execute_id o v
    execute_field now live FieldName.tag o v = execute_string_field o v StringField.tag
    execute_field now live FieldName.title o v = execute_string_field o v StringField.title
    execute_field now live FieldName.label o v = execute_label o v
    execute_field now live FieldName.user o v = execute_string_field o v StringField.user
    execute_field now live FieldName.service o v = execute_string_field o v StringField.service
    execute_field now live FieldName.host o v = execute_string_field o v StringField.host
    execute_field now live FieldName.trace_id o v = execute_trace_id o v
    execute_field now live FieldName.parent o v = execute_parent o v
    execute_field now live FieldName.root o v = execute_root o v
    execute_field now live FieldName.created o v = execute_created now o v
    execute_field now live FieldName.depth o v = execute_depth o v
    execute_field now live FieldName.is_live o v = execute_is_live o v live

    unfoldable pub execute_comparison : ℕ → HashSet → Text → Operator → Value → Answer HashSet
    execute_comparison now live field operator value = do
      name ← ok_or (from_str field) (unknown field)
      execute_field now live name operator value

    unfoldable pub execute : ℕ → HashSet → Expression → Answer HashSet
    unfolding execute_comparison
    execute now live (Expression.and_also left right) = do
      left_result ← execute now live left
      right_result ← execute now live right
      ok (intersection left_result right_result)
    execute now live (Expression.or_else left right) = do
      left_result ← execute now live left
      right_result ← execute now live right
      ok (union left_result right_result)
    execute now live (Expression.negated inner) = do
      inner_result ← execute now live inner
      ok (others inner_result)
    execute now live (Expression.comparison field operator value) =
        execute_comparison now live field operator value
