-- ===== src/Cql/Executor/Reference.antt =====
-- What a query means, read off the metadata, the heads and the live contexts with no index: whether one
-- context satisfies an expression, or the error that the expression has.
use cxdb.Prelude.{
  ℕ, Bool, false, not, ◌&&◌, ◌||◌, Option, none, some, List, ◌==◌, ◌%◌, ◌^◌, nat_eq, bytes_eq, ltb,
  leb, if◌then◌else◌,
}
use cxdb.Prelude.HashSet.{HashSet, contains}
use cxdb.Cql.Order.{Text}
use cxdb.Turns.{ContextHead}
use cxdb.Cql.Ast.{
  CqlError, Operator, Value, Values, Expression, FieldName, from_str, QueryCrates, as_string,
  as_u64, as_list, Answer, ok, err, ◌>>=◌, ok_or,
}
use cxdb.Cql.Order.{starts_with}
use cxdb.Cql.Metadata.{ContextMetadata, MetadataCache, some_meta, is_some_and}
use cxdb.Cql.Indexes.Holds.{some_head, has_value, has_label}
use cxdb.Cql.Indexes.Sound.{
  is_known, tag_of, title_of, user_of, service_of, host_of, trace_id_of, parent_of, root_of,
}
use cxdb.Cql.Executor.{no_string, no_list, no_number, bad_operator, unknown, is_live_value}
use cxdb.Cql.Executor.Dates.{parse_date_value}

-- Some value of the list has the right type and passes.
unfoldable pub any_in {ℓ} : {A : Type ℓ} → (Value → Option A) → (A → Bool) → Values → Bool
any_in read test Values.nil = false
any_in read test (Values.cons v vs) = is_some_and test (read v) || any_in read test vs

-- A comparison of numbers, where the operator is one of numbers.
abbrev pub numbers : Operator → Option (ℕ → ℕ → Bool)
numbers Operator.gt = some (λ n k. ltb n k)
numbers Operator.gte = some (λ n k. leb n k)
numbers Operator.lt = some (λ n k. ltb k n)
numbers Operator.lte = some (λ n k. leb k n)
numbers _ = none

module _ (cache : MetadataCache) (heads : List ContextHead) (live : HashSet) (c : ℕ) where
  abbrev pub known : Bool
  known = is_known c cache heads

  -- The context's metadata passes the test, for a text to be found and its opposite.
  abbrev pub meets : (ContextMetadata → Bool) → Bool
  meets test = some_meta test c cache

  -- An equality, an inequality or a list of values, by whether a value is the context's own.
  abbrev pub selects :
      {A : Type 0} → (Value → Option A) → CqlError → (A → Bool) → Operator → Value → Answer Bool
  selects read wrong test Operator.eq value = do v ← ok_or (read value) wrong; ok (test v)
  selects read wrong test Operator.neq value = do
    v ← ok_or (read value) wrong
    ok (known && not (test v))
  selects read wrong test Operator.in_list value = do
    vs ← ok_or (as_list value) no_list
    ok (any_in read test vs)
  selects read wrong test _ value = err bad_operator

  abbrev pub trace_id_selects : Operator → Value → Answer Bool
  trace_id_selects Operator.in_list value = err bad_operator
  trace_id_selects o value =
      selects as_string no_string (λ v. meets (has_value trace_id_of v)) o value

  module _ ⦃x : QueryCrates⦄ where
    -- The tests on a text of the context, with its case or without.
    abbrev pub text_selects :
        (Text → Text) → (ContextMetadata → Option Text) → Operator → Value → Answer Bool
    text_selects fold field Operator.eq_ci value = do
      v ← ok_or (as_string value) no_string
      ok (meets (λ m. is_some_and (λ t. fold t == fold v) (field m)))
    text_selects fold field Operator.starts value = do
      v ← ok_or (as_string value) no_string
      ok (meets (λ m. is_some_and (λ t. starts_with t v) (field m)))
    text_selects fold field Operator.starts_ci value = do
      v ← ok_or (as_string value) no_string
      ok (meets (λ m. is_some_and (λ t. starts_with (fold t) (fold v)) (field m)))
    text_selects fold field o value =
        selects as_string no_string (λ v. meets (has_value field v)) o value

    abbrev pub created_selects : ℕ → Operator → Answer Bool
    created_selects n Operator.eq = ok (some_head (λ h. h.created_at_unix_ms == n) c heads)
    created_selects n Operator.neq =
        ok (known && not (some_head (λ h. h.created_at_unix_ms == n) c heads))
    created_selects n o = do
      passes ← ok_or (numbers o) bad_operator
      ok (some_head (λ h. passes n h.created_at_unix_ms) c heads)

    abbrev pub depth_selects : ℕ → Operator → Answer Bool
    depth_selects n Operator.eq = ok (some_head (λ h. h.head_depth == n) c heads)
    depth_selects n Operator.neq = ok (known && not (some_head (λ h. h.head_depth == n) c heads))
    depth_selects n o = do
      passes ← ok_or (numbers o) bad_operator
      ok (some_head (λ h. passes n h.head_depth) c heads)

    abbrev pub live_selects : Operator → Bool → Answer Bool
    live_selects Operator.eq wanted =
        ok (if wanted then contains c live else known && not (contains c live))
    live_selects _ wanted = err bad_operator

    abbrev pub field_selects : ℕ → FieldName → Operator → Value → Answer Bool
    field_selects now FieldName.id o v = selects as_u64 no_number (λ id. known && id == c) o v
    field_selects now FieldName.tag o v = text_selects x.to_lowercase tag_of o v
    field_selects now FieldName.title o v = text_selects x.to_lowercase title_of o v
    field_selects now FieldName.label o v =
        selects as_string no_string (λ label. meets (has_label label)) o v
    field_selects now FieldName.user o v = text_selects x.to_lowercase user_of o v
    field_selects now FieldName.service o v = text_selects x.to_lowercase service_of o v
    field_selects now FieldName.host o v = text_selects (λ t. t) host_of o v
    field_selects now FieldName.trace_id o v = trace_id_selects o v
    field_selects now FieldName.parent o v =
        selects as_u64 no_number (λ id. meets (has_value parent_of id)) o v
    field_selects now FieldName.root o v =
        selects as_u64 no_number (λ id. meets (has_value root_of id)) o v
    field_selects now FieldName.created o v = parse_date_value now v >>= λ n. created_selects n o
    field_selects now FieldName.depth o v =
        ok_or (as_u64 v) no_number >>= λ n. depth_selects (n % 2 ^ 32) o
    field_selects now FieldName.is_live o v = is_live_value v >>= λ wanted. live_selects o wanted

    -- Whether the context satisfies the expression, or the first error, left to right.
    unfoldable pub satisfies : ℕ → Expression → Answer Bool
    satisfies now (Expression.and_also left right) = do
      l ← satisfies now left
      r ← satisfies now right
      ok (l && r)
    satisfies now (Expression.or_else left right) = do
      l ← satisfies now left
      r ← satisfies now right
      ok (l || r)
    satisfies now (Expression.negated inner) = do
      found ← satisfies now inner
      ok (known && not found)
    satisfies now (Expression.comparison field operator value) = do
      name ← ok_or (from_str field) (unknown field)
      field_selects now name operator value
