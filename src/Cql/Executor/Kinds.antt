-- ===== src/Cql/Executor/Kinds.antt =====
-- The errors that executing a query can have: its fields are known, so the operator or the value is wrong.
use cxdb.Prelude.{
  ℕ, ◌≡◌, ◌≢◌, refl, Bool, true, false, Option, none, some, Option-cases, inl, inr, ◌==◌, bytes_eq,
  ◌%◌, ◌^◌, if◌then◌else◌,
}
use cxdb.Prelude.HashSet.{HashSet}
use cxdb.Cql.Order.{Text}
use cxdb.Cql.Ast.{
  codes, Operator, Value, Expression, FieldName, CqlError, CqlErrorType, QueryCrates, as_u64,
  Answer, ok, err, ◌>>=◌, ok_or,
}
use cxdb.Cql.Indexes.{SecondaryIndexes}
use cxdb.Cql.Indexes.Lookups.{lookup_parent_exact, lookup_root_exact}
use cxdb.Cql.Executor
use cxdb.Cql.Executor.{StringField, is_live_value}
use cxdb.Cql.Executor.Dates.{
  parse_date_value, parse_relative_date, parse_absolute_date, millis_of, or_absolute,
}
use cxdb.Cql.Parser.Printer.{IsQuery}

-- An error says something else than that a field is unknown.
data Known {ℓ} {A : Type ℓ} : Answer A → Type ℓ where
  found : (a : A) → Known (ok a)
  wrong_operator : {e : CqlError} → e.error_type ≡ CqlErrorType.invalid_operator → Known (err e)
  wrong_value : {e : CqlError} → e.error_type ≡ CqlErrorType.invalid_value → Known (err e)

bind-Known {ℓ κ} :
    {A : Type ℓ} {B : Type κ} {r : Answer A} (next : A → Answer B)
    → Known r
    → ((a : A) → Known (next a))
    → Known (r >>= next)
bind-Known next (found a) k = k a
bind-Known next (wrong_operator e) k = wrong_operator e
bind-Known next (wrong_value e) k = wrong_value e

ok_or-Known {ℓ} :
    {A : Type ℓ} (o : Option A) (e : CqlError)
    → e.error_type ≡ CqlErrorType.invalid_value
    → Known (ok_or o e)
ok_or-Known none e h = wrong_value h
ok_or-Known (some a) e h = found a

if-Known {ℓ} :
    {A : Type ℓ} (b : Bool) {p q : Answer A} → Known p → Known q → Known (if b then p else q)
if-Known true h k = h
if-Known false h k = k

not_unknown {ℓ} :
    {A : Type ℓ} {r : Answer A}
    → Known r
    → (why : CqlError) → r ≡ err why
    → why.error_type ≢ CqlErrorType.unknown_field
not_unknown (found a) why h bad = cc
not_unknown (wrong_operator e) why h bad = cc
not_unknown (wrong_value e) why h bad = cc

-- A value of the right type, and what is found with it.
taken {ℓ} :
    {A : Type ℓ} (o : Option A) (e : CqlError) (f : A → HashSet)
    → e.error_type ≡ CqlErrorType.invalid_value
    → Known (ok_or o e >>= λ a. ok (f a))
taken o e f h = bind-Known (λ a. ok (f a)) (ok_or-Known o e h) λ a. found (f a)

module _ ⦃x : QueryCrates⦄ (s : SecondaryIndexes) (now : ℕ) (live : HashSet) where
  execute_string_field-Known :
      (field : StringField) (o : Operator) (v : Value)
      → Known (Executor.execute_string_field s o v field)
  unfolding Executor.execute_string_field
  execute_string_field-Known field Operator.eq v = taken _ _ _ refl
  execute_string_field-Known field Operator.neq v = taken _ _ _ refl
  execute_string_field-Known field Operator.starts v = taken _ _ _ refl
  execute_string_field-Known field Operator.eq_ci v = taken _ _ _ refl
  execute_string_field-Known field Operator.starts_ci v = taken _ _ _ refl
  execute_string_field-Known field Operator.gt v = wrong_operator refl
  execute_string_field-Known field Operator.gte v = wrong_operator refl
  execute_string_field-Known field Operator.lt v = wrong_operator refl
  execute_string_field-Known field Operator.lte v = wrong_operator refl
  execute_string_field-Known field Operator.in_list v = taken _ _ _ refl

  execute_id-Known : (o : Operator) (v : Value) → Known (Executor.execute_id s o v)
  unfolding Executor.execute_id
  execute_id-Known Operator.eq v = taken _ _ _ refl
  execute_id-Known Operator.neq v = taken _ _ _ refl
  execute_id-Known Operator.starts v = wrong_operator refl
  execute_id-Known Operator.eq_ci v = wrong_operator refl
  execute_id-Known Operator.starts_ci v = wrong_operator refl
  execute_id-Known Operator.gt v = wrong_operator refl
  execute_id-Known Operator.gte v = wrong_operator refl
  execute_id-Known Operator.lt v = wrong_operator refl
  execute_id-Known Operator.lte v = wrong_operator refl
  execute_id-Known Operator.in_list v = taken _ _ _ refl

  execute_label-Known : (o : Operator) (v : Value) → Known (Executor.execute_label s o v)
  unfolding Executor.execute_label
  execute_label-Known Operator.eq v = taken _ _ _ refl
  execute_label-Known Operator.neq v = taken _ _ _ refl
  execute_label-Known Operator.starts v = wrong_operator refl
  execute_label-Known Operator.eq_ci v = wrong_operator refl
  execute_label-Known Operator.starts_ci v = wrong_operator refl
  execute_label-Known Operator.gt v = wrong_operator refl
  execute_label-Known Operator.gte v = wrong_operator refl
  execute_label-Known Operator.lt v = wrong_operator refl
  execute_label-Known Operator.lte v = wrong_operator refl
  execute_label-Known Operator.in_list v = taken _ _ _ refl

  execute_trace_id-Known : (o : Operator) (v : Value) → Known (Executor.execute_trace_id s o v)
  unfolding Executor.execute_trace_id
  execute_trace_id-Known Operator.eq v = taken _ _ _ refl
  execute_trace_id-Known Operator.neq v = taken _ _ _ refl
  execute_trace_id-Known Operator.starts v = wrong_operator refl
  execute_trace_id-Known Operator.eq_ci v = wrong_operator refl
  execute_trace_id-Known Operator.starts_ci v = wrong_operator refl
  execute_trace_id-Known Operator.gt v = wrong_operator refl
  execute_trace_id-Known Operator.gte v = wrong_operator refl
  execute_trace_id-Known Operator.lt v = wrong_operator refl
  execute_trace_id-Known Operator.lte v = wrong_operator refl
  execute_trace_id-Known Operator.in_list v = wrong_operator refl

  execute_lineage-Known :
      (ids : ℕ → HashSet) (o : Operator) (v : Value) → Known (Executor.execute_lineage s ids o v)
  unfolding Executor.execute_lineage
  execute_lineage-Known ids Operator.eq v = taken _ _ _ refl
  execute_lineage-Known ids Operator.neq v = taken _ _ _ refl
  execute_lineage-Known ids Operator.starts v = wrong_operator refl
  execute_lineage-Known ids Operator.eq_ci v = wrong_operator refl
  execute_lineage-Known ids Operator.starts_ci v = wrong_operator refl
  execute_lineage-Known ids Operator.gt v = wrong_operator refl
  execute_lineage-Known ids Operator.gte v = wrong_operator refl
  execute_lineage-Known ids Operator.lt v = wrong_operator refl
  execute_lineage-Known ids Operator.lte v = wrong_operator refl
  execute_lineage-Known ids Operator.in_list v = taken _ _ _ refl

  created_matches-Known : (n : ℕ) (o : Operator) → Known (Executor.created_matches s n o)
  created_matches-Known n Operator.eq = found _
  created_matches-Known n Operator.neq = found _
  created_matches-Known n Operator.starts = wrong_operator refl
  created_matches-Known n Operator.eq_ci = wrong_operator refl
  created_matches-Known n Operator.starts_ci = wrong_operator refl
  created_matches-Known n Operator.gt = found _
  created_matches-Known n Operator.gte = found _
  created_matches-Known n Operator.lt = found _
  created_matches-Known n Operator.lte = found _
  created_matches-Known n Operator.in_list = wrong_operator refl

  depth_matches-Known : (n : ℕ) (o : Operator) → Known (Executor.depth_matches s n o)
  depth_matches-Known n Operator.eq = found _
  depth_matches-Known n Operator.neq = found _
  depth_matches-Known n Operator.starts = wrong_operator refl
  depth_matches-Known n Operator.eq_ci = wrong_operator refl
  depth_matches-Known n Operator.starts_ci = wrong_operator refl
  depth_matches-Known n Operator.gt = found _
  depth_matches-Known n Operator.gte = found _
  depth_matches-Known n Operator.lt = found _
  depth_matches-Known n Operator.lte = found _
  depth_matches-Known n Operator.in_list = wrong_operator refl

  millis_of-Known : (amount : ℕ) (unit : Text) → Known (millis_of amount unit)
  millis_of-Known amount unit = if-Known (unit == codes "h") (found _) (
      if-Known (unit == codes "d") (found _)
        (if-Known (unit == codes "m") (found _) (wrong_value refl)))

  parse_relative_date-Known : (text : Text) → Known (parse_relative_date now text)
  unfolding parse_relative_date
  parse_relative_date-Known text =
      bind-Known _ (ok_or-Known (x.relative_captures text) _ refl) λ groups.
        bind-Known _ (ok_or-Known (x.parse_u64 groups.0) _ refl)
          λ amount. bind-Known _ (millis_of-Known amount groups.1) λ millis. found _

  parse_absolute_date-Known : (text : Text) → Known (parse_absolute_date text)
  unfolding parse_absolute_date
  parse_absolute_date-Known text = elim (Option-cases (x.parse_from_rfc3339 text)) [
    | inl absent ↦ rw absent (ok_or-Known (x.parse_plain_date text) _ refl)
    | inr (t, there) ↦ rw there (found t)
  ]

  relative_first :
      {r : Answer ℕ} (text : Text)
      → Known r
      → Known (parse_absolute_date text)
      → Known (or_absolute text r)
  relative_first text (found t) k = found t
  relative_first text (wrong_operator e) k = k
  relative_first text (wrong_value e) k = k

  parse_date_value-Known : (v : Value) → Known (parse_date_value now v)
  unfolding parse_date_value
  parse_date_value-Known (Value.date text relative) =
      if-Known relative (parse_relative_date-Known text) (parse_absolute_date-Known text)
  parse_date_value-Known (Value.string text) =
      relative_first text (parse_relative_date-Known text) (parse_absolute_date-Known text)
  parse_date_value-Known (Value.number n) = found _
  parse_date_value-Known (Value.list vs) = wrong_value refl

  is_live_value-Known : (v : Value) → Known (is_live_value v)
  is_live_value-Known (Value.string text) = found _
  is_live_value-Known _ = wrong_value refl

  execute_is_live-Known : (o : Operator) (v : Value) → Known (Executor.execute_is_live s o v live)
  unfolding Executor.execute_is_live
  execute_is_live-Known Operator.eq v = bind-Known _ (is_live_value-Known v) λ wanted. found _
  execute_is_live-Known _ v = bind-Known _ (is_live_value-Known v) λ wanted. wrong_operator refl

  execute_field-Known :
      (name : FieldName) (o : Operator) (v : Value)
      → Known (Executor.execute_field s now live name o v)
  unfolding Executor.execute_created Executor.execute_depth
  execute_field-Known FieldName.id o v = execute_id-Known o v
  execute_field-Known FieldName.tag o v = execute_string_field-Known StringField.tag o v
  execute_field-Known FieldName.title o v = execute_string_field-Known StringField.title o v
  execute_field-Known FieldName.user o v = execute_string_field-Known StringField.user o v
  execute_field-Known FieldName.service o v = execute_string_field-Known StringField.service o v
  execute_field-Known FieldName.host o v = execute_string_field-Known StringField.host o v
  execute_field-Known FieldName.label o v = execute_label-Known o v
  execute_field-Known FieldName.trace_id o v = execute_trace_id-Known o v
  execute_field-Known FieldName.parent o v = execute_lineage-Known (lookup_parent_exact s) o v
  execute_field-Known FieldName.root o v = execute_lineage-Known (lookup_root_exact s) o v
  execute_field-Known FieldName.created o v =
      bind-Known _ (parse_date_value-Known v) λ n. created_matches-Known n o
  execute_field-Known FieldName.depth o v =
      bind-Known _ (ok_or-Known (as_u64 v) _ refl) λ n. depth_matches-Known (n % 2 ^ 32) o
  execute_field-Known FieldName.is_live o v = execute_is_live-Known o v

  execute-Known : {e : Expression} → IsQuery e → Known (Executor.execute s now live e)
  unfolding Executor.execute Executor.execute_comparison
  execute-Known (IsQuery.and_also l r) =
      bind-Known _ (execute-Known l) λ a. bind-Known _ (execute-Known r) λ b. found _
  execute-Known (IsQuery.or_else l r) =
      bind-Known _ (execute-Known l) λ a. bind-Known _ (execute-Known r) λ b. found _
  execute-Known (IsQuery.negated e) = bind-Known _ (execute-Known e) λ a. found _
  execute-Known (IsQuery.comparison {o} {v} name known takes) =
      rw known (execute_field-Known name o v)

  -- A query that the parser accepts is never refused for an unknown field.
  pub execute-ne-unknown_field :
      (e : Expression) (why : CqlError)
      → IsQuery e
      → Executor.execute s now live e ≡ err why
      → why.error_type ≢ CqlErrorType.unknown_field
  execute-ne-unknown_field e why query h = not_unknown (execute-Known query) why h
