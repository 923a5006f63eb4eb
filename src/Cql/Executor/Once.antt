-- ===== src/Cql/Executor/Once.antt =====
-- That what a query finds has each context once, where the sets of the indexes do.
use cxdb.Prelude.{ℕ, Bool, true, false, ◌%◌, ◌^◌, nat_eq, bytes_eq, if◌then◌else◌}
use cxdb.Prelude.HashSet.{
  HashSet, Distinct, union-Distinct, retain-Distinct, remove-Distinct, intersection,
}
use cxdb.Cql.Ast.{
  Operator, Value, Expression, FieldName, from_str, QueryCrates, as_string, as_u64, as_list, Answer,
  ok, err, ◌>>=◌, ok_or,
}
use cxdb.Cql.Indexes.{SecondaryIndexes}
use cxdb.Cql.Indexes.Once.{IsOnce}
use cxdb.Cql.Executor.Dates.{parse_date_value}
use cxdb.Cql.Executor.Sets.{
  range-Distinct, collect_in-Distinct, others-Distinct, known_id-Distinct, exact_matches-Distinct,
  prefix_matches-Distinct, exact_ci_matches-Distinct, prefix_ci_matches-Distinct,
}
use cxdb.Cql.Executor.{
  StringField, is_live_value, others, execute_label, execute_trace_id, execute_is_live,
  execute_string_field, execute_id, execute_lineage, created_matches, depth_matches,
  execute_created, execute_depth, execute_field, execute_comparison, execute, unknown, no_string,
  no_list, no_number,
}

-- An answer that is no error has each context once.
abbrev pub FindsOnce : Answer HashSet → Type 0
FindsOnce (ok found) = Distinct found
FindsOnce (err e) = Unit

bind-FindsOnce {ℓ} :
    {A : Type ℓ} (a : Answer A) (next : A → Answer HashSet)
    → ((v : A) → FindsOnce (next v))
    → FindsOnce (a >>= next)
bind-FindsOnce (ok v) next h = h v
bind-FindsOnce (err e) next h = tt

module _ (s : SecondaryIndexes) (h : IsOnce s) where
  execute_label-FindsOnce : (o : Operator) (v : Value) → FindsOnce (execute_label s o v)
  unfolding execute_label
  execute_label-FindsOnce Operator.eq v =
      bind-FindsOnce (ok_or (as_string v) no_string) _ λ t. h.label_exact t
  execute_label-FindsOnce Operator.neq v =
      bind-FindsOnce (ok_or (as_string v) no_string) _ λ t. others-Distinct s h _
  execute_label-FindsOnce Operator.starts v = tt
  execute_label-FindsOnce Operator.eq_ci v = tt
  execute_label-FindsOnce Operator.starts_ci v = tt
  execute_label-FindsOnce Operator.gt v = tt
  execute_label-FindsOnce Operator.gte v = tt
  execute_label-FindsOnce Operator.lt v = tt
  execute_label-FindsOnce Operator.lte v = tt
  execute_label-FindsOnce Operator.in_list v =
      bind-FindsOnce (ok_or (as_list v) no_list) _ λ vs. collect_in-Distinct as_string _ vs

  execute_trace_id-FindsOnce : (o : Operator) (v : Value) → FindsOnce (execute_trace_id s o v)
  unfolding execute_trace_id
  execute_trace_id-FindsOnce Operator.eq v =
      bind-FindsOnce (ok_or (as_string v) no_string) _ λ t. h.trace_id_exact t
  execute_trace_id-FindsOnce Operator.neq v =
      bind-FindsOnce (ok_or (as_string v) no_string) _ λ t. others-Distinct s h _
  execute_trace_id-FindsOnce Operator.starts v = tt
  execute_trace_id-FindsOnce Operator.eq_ci v = tt
  execute_trace_id-FindsOnce Operator.starts_ci v = tt
  execute_trace_id-FindsOnce Operator.gt v = tt
  execute_trace_id-FindsOnce Operator.gte v = tt
  execute_trace_id-FindsOnce Operator.lt v = tt
  execute_trace_id-FindsOnce Operator.lte v = tt
  execute_trace_id-FindsOnce Operator.in_list v = tt

  live_or_others :
      (is_live : Bool) (live : HashSet)
      → Distinct live
      → Distinct (if is_live then live else others s live)
  live_or_others true live once = once
  live_or_others false live once = others-Distinct s h live

  execute_is_live-FindsOnce :
      (o : Operator) (v : Value) (live : HashSet)
      → Distinct live
      → FindsOnce (execute_is_live s o v live)
  unfolding execute_is_live
  execute_is_live-FindsOnce Operator.eq v live once =
      bind-FindsOnce (is_live_value v) _ λ b. live_or_others b live once
  execute_is_live-FindsOnce Operator.neq v live once = bind-FindsOnce (is_live_value v) _ λ b. tt
  execute_is_live-FindsOnce Operator.starts v live once = bind-FindsOnce (is_live_value v) _ λ b. tt
  execute_is_live-FindsOnce Operator.eq_ci v live once = bind-FindsOnce (is_live_value v) _ λ b. tt
  execute_is_live-FindsOnce Operator.starts_ci v live once =
      bind-FindsOnce (is_live_value v) _ λ b. tt
  execute_is_live-FindsOnce Operator.gt v live once = bind-FindsOnce (is_live_value v) _ λ b. tt
  execute_is_live-FindsOnce Operator.gte v live once = bind-FindsOnce (is_live_value v) _ λ b. tt
  execute_is_live-FindsOnce Operator.lt v live once = bind-FindsOnce (is_live_value v) _ λ b. tt
  execute_is_live-FindsOnce Operator.lte v live once = bind-FindsOnce (is_live_value v) _ λ b. tt
  execute_is_live-FindsOnce Operator.in_list v live once =
      bind-FindsOnce (is_live_value v) _ λ b. tt

  module _ ⦃x : QueryCrates⦄ where
    execute_string_field-FindsOnce :
        (o : Operator) (v : Value) (f : StringField) → FindsOnce (execute_string_field s o v f)
    unfolding execute_string_field
    execute_string_field-FindsOnce Operator.eq v f =
        bind-FindsOnce (ok_or (as_string v) no_string) _ λ t. exact_matches-Distinct s h f t
    execute_string_field-FindsOnce Operator.neq v f =
        bind-FindsOnce (ok_or (as_string v) no_string) _ λ t. others-Distinct s h _
    execute_string_field-FindsOnce Operator.starts v f =
        bind-FindsOnce (ok_or (as_string v) no_string) _ λ t. prefix_matches-Distinct s h f t
    execute_string_field-FindsOnce Operator.eq_ci v f =
        bind-FindsOnce (ok_or (as_string v) no_string) _ λ t. exact_ci_matches-Distinct s h f t
    execute_string_field-FindsOnce Operator.starts_ci v f =
        bind-FindsOnce (ok_or (as_string v) no_string) _ λ t. prefix_ci_matches-Distinct s h f t
    execute_string_field-FindsOnce Operator.gt v f = tt
    execute_string_field-FindsOnce Operator.gte v f = tt
    execute_string_field-FindsOnce Operator.lt v f = tt
    execute_string_field-FindsOnce Operator.lte v f = tt
    execute_string_field-FindsOnce Operator.in_list v f =
        bind-FindsOnce (ok_or (as_list v) no_list) _ λ vs. collect_in-Distinct as_string _ vs

    execute_id-FindsOnce : (o : Operator) (v : Value) → FindsOnce (execute_id s o v)
    unfolding execute_id
    execute_id-FindsOnce Operator.eq v =
        bind-FindsOnce (ok_or (as_u64 v) no_number) _ λ n. known_id-Distinct s h n
    execute_id-FindsOnce Operator.neq v =
        bind-FindsOnce (ok_or (as_u64 v) no_number) _
          λ n. remove-Distinct n s.all_context_ids h.known
    execute_id-FindsOnce Operator.starts v = tt
    execute_id-FindsOnce Operator.eq_ci v = tt
    execute_id-FindsOnce Operator.starts_ci v = tt
    execute_id-FindsOnce Operator.gt v = tt
    execute_id-FindsOnce Operator.gte v = tt
    execute_id-FindsOnce Operator.lt v = tt
    execute_id-FindsOnce Operator.lte v = tt
    execute_id-FindsOnce Operator.in_list v =
        bind-FindsOnce (ok_or (as_list v) no_list) _ λ vs. collect_in-Distinct as_u64 _ vs

    execute_lineage-FindsOnce :
        (found : ℕ → HashSet) (o : Operator) (v : Value)
        → ((n : ℕ) → Distinct (found n))
        → FindsOnce (execute_lineage s found o v)
    unfolding execute_lineage
    execute_lineage-FindsOnce found Operator.eq v once =
        bind-FindsOnce (ok_or (as_u64 v) no_number) _ λ n. once n
    execute_lineage-FindsOnce found Operator.neq v once =
        bind-FindsOnce (ok_or (as_u64 v) no_number) _ λ n. others-Distinct s h _
    execute_lineage-FindsOnce found Operator.starts v once = tt
    execute_lineage-FindsOnce found Operator.eq_ci v once = tt
    execute_lineage-FindsOnce found Operator.starts_ci v once = tt
    execute_lineage-FindsOnce found Operator.gt v once = tt
    execute_lineage-FindsOnce found Operator.gte v once = tt
    execute_lineage-FindsOnce found Operator.lt v once = tt
    execute_lineage-FindsOnce found Operator.lte v once = tt
    execute_lineage-FindsOnce found Operator.in_list v once =
        bind-FindsOnce (ok_or (as_list v) no_list) _ λ vs. collect_in-Distinct as_u64 found vs

    created_matches-FindsOnce : (t : ℕ) (o : Operator) → FindsOnce (created_matches s t o)
    created_matches-FindsOnce t Operator.eq = h.created_btree t
    created_matches-FindsOnce t Operator.neq = others-Distinct s h _
    created_matches-FindsOnce t Operator.starts = tt
    created_matches-FindsOnce t Operator.eq_ci = tt
    created_matches-FindsOnce t Operator.starts_ci = tt
    created_matches-FindsOnce t Operator.gt = range-Distinct _ s.created_btree
    created_matches-FindsOnce t Operator.gte = range-Distinct _ s.created_btree
    created_matches-FindsOnce t Operator.lt = range-Distinct _ s.created_btree
    created_matches-FindsOnce t Operator.lte = range-Distinct _ s.created_btree
    created_matches-FindsOnce t Operator.in_list = tt

    depth_matches-FindsOnce : (t : ℕ) (o : Operator) → FindsOnce (depth_matches s t o)
    depth_matches-FindsOnce t Operator.eq = h.depth_btree t
    depth_matches-FindsOnce t Operator.neq = others-Distinct s h _
    depth_matches-FindsOnce t Operator.starts = tt
    depth_matches-FindsOnce t Operator.eq_ci = tt
    depth_matches-FindsOnce t Operator.starts_ci = tt
    depth_matches-FindsOnce t Operator.gt = range-Distinct _ s.depth_btree
    depth_matches-FindsOnce t Operator.gte = range-Distinct _ s.depth_btree
    depth_matches-FindsOnce t Operator.lt = range-Distinct _ s.depth_btree
    depth_matches-FindsOnce t Operator.lte = range-Distinct _ s.depth_btree
    depth_matches-FindsOnce t Operator.in_list = tt

    execute_field-FindsOnce :
        (now : ℕ) (live : HashSet) (name : FieldName) (o : Operator) (v : Value)
        → Distinct live
        → FindsOnce (execute_field s now live name o v)
    unfolding execute_created execute_depth
    execute_field-FindsOnce now live FieldName.id o v once = execute_id-FindsOnce o v
    execute_field-FindsOnce now live FieldName.tag o v once =
        execute_string_field-FindsOnce o v StringField.tag
    execute_field-FindsOnce now live FieldName.title o v once =
        execute_string_field-FindsOnce o v StringField.title
    execute_field-FindsOnce now live FieldName.label o v once = execute_label-FindsOnce o v
    execute_field-FindsOnce now live FieldName.user o v once =
        execute_string_field-FindsOnce o v StringField.user
    execute_field-FindsOnce now live FieldName.service o v once =
        execute_string_field-FindsOnce o v StringField.service
    execute_field-FindsOnce now live FieldName.host o v once =
        execute_string_field-FindsOnce o v StringField.host
    execute_field-FindsOnce now live FieldName.trace_id o v once = execute_trace_id-FindsOnce o v
    execute_field-FindsOnce now live FieldName.parent o v once =
        execute_lineage-FindsOnce _ o v h.parent_exact
    execute_field-FindsOnce now live FieldName.root o v once =
        execute_lineage-FindsOnce _ o v h.root_exact
    execute_field-FindsOnce now live FieldName.created o v once =
        bind-FindsOnce (parse_date_value now v) _ λ t. created_matches-FindsOnce t o
    execute_field-FindsOnce now live FieldName.depth o v once =
        bind-FindsOnce (ok_or (as_u64 v) no_number) _ λ n. depth_matches-FindsOnce (n % 2 ^ 32) o
    execute_field-FindsOnce now live FieldName.is_live o v once =
        execute_is_live-FindsOnce o v live once

    both-FindsOnce :
        (a b : Answer HashSet) (meet : HashSet → HashSet → HashSet)
        → FindsOnce a
        → FindsOnce b
        → ((l r : HashSet) → Distinct l → Distinct r → Distinct (meet l r))
        → FindsOnce (a >>= λ l. b >>= λ r. ok (meet l r))
    both-FindsOnce (ok l) (ok r) meet hl hr keeps = keeps l r hl hr
    both-FindsOnce (ok l) (err e) meet hl hr keeps = tt
    both-FindsOnce (err e) b meet hl hr keeps = tt

    pub execute-FindsOnce :
        (now : ℕ) (live : HashSet) (q : Expression)
        → Distinct live
        → FindsOnce (execute s now live q)
    unfolding execute execute_comparison intersection
    execute-FindsOnce now live (Expression.and_also l r) once =
        both-FindsOnce (execute s now live l) (execute s now live r) _
          (execute-FindsOnce now live l once) (execute-FindsOnce now live r once)
          λ a b first second. retain-Distinct _ a first
    execute-FindsOnce now live (Expression.or_else l r) once =
        both-FindsOnce (execute s now live l) (execute s now live r) _
          (execute-FindsOnce now live l once) (execute-FindsOnce now live r once)
          λ a b first second. union-Distinct a b second
    execute-FindsOnce now live (Expression.negated inner) once =
        bind-FindsOnce (execute s now live inner) _ (others-Distinct s h)
    execute-FindsOnce now live (Expression.comparison field o v) once =
        bind-FindsOnce (ok_or (from_str field) (unknown field)) _
          λ name. execute_field-FindsOnce now live name o v once
