-- ===== src/Cql/Executor/Agrees.antt =====
-- That executing a query on the indexes, and asking whether a context is in the result, is evaluating
-- the query on the context itself.
use cxdb.Prelude.{
  ℕ, ◌≡◌, ◌∙◌, refl, ap, Bool, true, false, not, ◌&&◌, ◌||◌, List, ◌==◌, nat_eq, bytes_eq,
  Option-cases, inl, inr, ltb, leb, arith, ◌%◌, ◌^◌, ◌⊎◌,
}
use cxdb.Prelude.HashSet.{
  HashSet, contains, remove, union, intersection, contains-union, contains-intersection,
  contains-remove,
}
use cxdb.Cql.Order.{Text}
use cxdb.Turns.{ContextHead}
use cxdb.Cql.Ast.{
  Operator, Value, Expression, FieldName, from_str, QueryCrates, as_string, as_u64, as_list, Answer,
  CqlError, ok, err, ◌>>=◌, map_ok,
}
use cxdb.Cql.Metadata.{MetadataCache, some_meta}
use cxdb.Cql.Indexes.{SecondaryIndexes, lookup}
use cxdb.Cql.Indexes.Lookups.{
  contains-range, lookup_label_exact, lookup_trace_id_exact, lookup_parent_exact, lookup_root_exact,
}
use cxdb.Cql.Indexes.Holds.{has_value, has_label}
use cxdb.Cql.Indexes.Sound.{Sound, Ordered, trace_id_of}
use cxdb.Cql.Executor
use cxdb.Cql.Executor.{
  StringField, unknown, no_string, no_number, no_list, bad_operator, collect_in, known_id, others,
  is_live_value,
}
use cxdb.Cql.Executor.Dates.{parse_date_value}
use cxdb.Cql.Executor.Reference
use cxdb.Cql.Executor.Reference.{any_in, known, selects, satisfies}
use cxdb.Cql.Executor.Fields.{
  answers_at, contains-collect_in, contains-others, execute_string_field-text_selects,
}

pub Answer-cases {ℓ} :
    {A : Type ℓ} (r : Answer A) → ((a : A) × (r ≡ ok a)) ⊎ ((e : CqlError) × (r ≡ err e))
Answer-cases (ok a) = inl (a, refl)
Answer-cases (err e) = inr (e, refl)

-- Two parts whose results agree, and what is made of both.
both_agree :
    (c : ℕ) (p q : Answer HashSet) (a b : Answer Bool) (join : HashSet → HashSet → HashSet)
    (op : Bool → Bool → Bool)
    → map_ok (contains c) p ≡ a
    → map_ok (contains c) q ≡ b
    → ((s t : HashSet) → contains c (join s t) ≡ op (contains c s) (contains c t))
    → map_ok (contains c) (p >>= λ s. q >>= λ t. ok (join s t))
      ≡ (a >>= λ l. b >>= λ r. ok (op l r))
both_agree c (ok s) (ok t) a b join op h k law = rw (← h) (rw (← k) (ap ok (law s t)))
both_agree c (ok s) (err e) a b join op h k law = rw (← h) (rw (← k) refl)
both_agree c (err e) q a b join op h k law = rw (← h) refl

one_agrees :
    (c : ℕ) (p : Answer HashSet) (a : Answer Bool) (change : HashSet → HashSet) (op : Bool → Bool)
    → map_ok (contains c) p ≡ a
    → ((s : HashSet) → contains c (change s) ≡ op (contains c s))
    → map_ok (contains c) (p >>= λ s. ok (change s)) ≡ (a >>= λ l. ok (op l))
one_agrees c (ok s) a change op h law = rw (← h) (ap ok (law s))
one_agrees c (err e) a change op h law = rw (← h) refl

refused_agree {ℓ} :
    {A : Type ℓ} (c : ℕ) (r : Answer A) (e : CqlError)
    → map_ok (contains c) (r >>= λ _. err e) ≡ (r >>= λ _. err e)
refused_agree c (ok a) e = refl
refused_agree c (err f) e = refl

module _ ⦃x : QueryCrates⦄ (s : SecondaryIndexes) (cache : MetadataCache) (heads : List ContextHead)
    (live : HashSet) (c : ℕ) (holds : Sound s cache heads) where
  execute_label-selects :
      (o : Operator) (value : Value)
      → map_ok (contains c) (Executor.execute_label s o value)
        ≡ selects cache heads live c as_string no_string
            (λ v. some_meta (has_label v) c cache)
            o
            value
  unfolding Executor.execute_label
  execute_label-selects Operator.eq value =
      answers_at c (as_string value) no_string (lookup_label_exact s) _ (λ v. holds.label_exact v c)
  execute_label-selects Operator.neq value =
      answers_at c (as_string value) no_string (λ v. others s (lookup_label_exact s v))
        (λ v. known cache heads live c && not (some_meta (has_label v) c cache))
        (λ v.
          contains-others s cache heads c holds (lookup_label_exact s v) _ (holds.label_exact v c))
  execute_label-selects Operator.in_list value =
      answers_at c (as_list value) no_list (collect_in as_string (lookup_label_exact s)) _
        (contains-collect_in c as_string (lookup_label_exact s) _ (λ v. holds.label_exact v c))
  execute_label-selects Operator.eq_ci value = refl
  execute_label-selects Operator.starts value = refl
  execute_label-selects Operator.starts_ci value = refl
  execute_label-selects Operator.gt value = refl
  execute_label-selects Operator.gte value = refl
  execute_label-selects Operator.lt value = refl
  execute_label-selects Operator.lte value = refl

  execute_trace_id-selects :
      (o : Operator) (value : Value)
      → map_ok (contains c) (Executor.execute_trace_id s o value)
        ≡ Reference.trace_id_selects cache heads live c o value
  unfolding Executor.execute_trace_id
  execute_trace_id-selects Operator.eq value =
      answers_at c (as_string value) no_string (lookup_trace_id_exact s) _
        (λ v. holds.trace_id_exact v c)
  execute_trace_id-selects Operator.neq value =
      answers_at c (as_string value) no_string (λ v. others s (lookup_trace_id_exact s v))
        (λ v. known cache heads live c && not (some_meta (has_value trace_id_of v) c cache))
        (λ v.
          contains-others s cache heads c holds (lookup_trace_id_exact s v) _
            (holds.trace_id_exact v c))
  execute_trace_id-selects Operator.in_list value = refl
  execute_trace_id-selects Operator.eq_ci value = refl
  execute_trace_id-selects Operator.starts value = refl
  execute_trace_id-selects Operator.starts_ci value = refl
  execute_trace_id-selects Operator.gt value = refl
  execute_trace_id-selects Operator.gte value = refl
  execute_trace_id-selects Operator.lt value = refl
  execute_trace_id-selects Operator.lte value = refl

  execute_lineage-selects :
      (found : ℕ → HashSet) (test : ℕ → Bool) (o : Operator) (value : Value)
      → ((id : ℕ) → contains c (found id) ≡ test id)
      → map_ok (contains c) (Executor.execute_lineage s found o value)
        ≡ selects cache heads live c as_u64 no_number test o value
  unfolding Executor.execute_lineage
  execute_lineage-selects found test Operator.eq value h =
      answers_at c (as_u64 value) no_number found test h
  execute_lineage-selects found test Operator.neq value h =
      answers_at c (as_u64 value) no_number (λ v. others s (found v))
        (λ v. known cache heads live c && not (test v))
        (λ v. contains-others s cache heads c holds (found v) (test v) (h v))
  execute_lineage-selects found test Operator.in_list value h =
      answers_at c (as_list value) no_list (collect_in as_u64 found) _
        (contains-collect_in c as_u64 found test h)
  execute_lineage-selects found test Operator.eq_ci value h = refl
  execute_lineage-selects found test Operator.starts value h = refl
  execute_lineage-selects found test Operator.starts_ci value h = refl
  execute_lineage-selects found test Operator.gt value h = refl
  execute_lineage-selects found test Operator.gte value h = refl
  execute_lineage-selects found test Operator.lt value h = refl
  execute_lineage-selects found test Operator.lte value h = refl

  contains-known_id : (id : ℕ) → contains c (known_id s id) ≡ (known cache heads live c && id == c)
  unfolding contains
  contains-known_id id = ground (arith, holds.all_context_ids c, holds.all_context_ids id)

  execute_id-selects :
      (o : Operator) (value : Value)
      → map_ok (contains c) (Executor.execute_id s o value)
        ≡ selects cache heads live c as_u64 no_number
            (λ id. known cache heads live c && id == c)
            o
            value
  unfolding Executor.execute_id
  execute_id-selects Operator.eq value =
      answers_at c (as_u64 value) no_number (known_id s) _ contains-known_id
  execute_id-selects Operator.neq value =
      answers_at c (as_u64 value) no_number (λ id. remove id s.all_context_ids)
        (λ id. known cache heads live c && not (known cache heads live c && id == c))
        (λ id. ground (arith, contains-remove c id s.all_context_ids, holds.all_context_ids c))
  execute_id-selects Operator.in_list value =
      answers_at c (as_list value) no_list (collect_in as_u64 (known_id s)) _
        (contains-collect_in c as_u64 (known_id s) _ contains-known_id)
  execute_id-selects Operator.eq_ci value = refl
  execute_id-selects Operator.starts value = refl
  execute_id-selects Operator.starts_ci value = refl
  execute_id-selects Operator.gt value = refl
  execute_id-selects Operator.gte value = refl
  execute_id-selects Operator.lt value = refl
  execute_id-selects Operator.lte value = refl

  created_matches-selects :
      (n : ℕ) (o : Operator)
      → map_ok (contains c) (Executor.created_matches s n o)
        ≡ Reference.created_selects cache heads live c n o
  created_matches-selects n Operator.eq = ap ok (holds.created_btree.exact n c)
  created_matches-selects n Operator.neq = ap ok (
      contains-others s cache heads c holds (lookup n s.created_btree) _
        (holds.created_btree.exact n c))
  created_matches-selects n Operator.gt = ap ok (
      contains-range (λ k. ltb n k) c s.created_btree ∙ holds.created_btree.ranges (λ k. ltb n k) c)
  created_matches-selects n Operator.gte = ap ok (
      contains-range (λ k. leb n k) c s.created_btree ∙ holds.created_btree.ranges (λ k. leb n k) c)
  created_matches-selects n Operator.lt = ap ok (
      contains-range (λ k. ltb k n) c s.created_btree ∙ holds.created_btree.ranges (λ k. ltb k n) c)
  created_matches-selects n Operator.lte = ap ok (
      contains-range (λ k. leb k n) c s.created_btree ∙ holds.created_btree.ranges (λ k. leb k n) c)
  created_matches-selects n Operator.starts = refl
  created_matches-selects n Operator.eq_ci = refl
  created_matches-selects n Operator.starts_ci = refl
  created_matches-selects n Operator.in_list = refl

  depth_matches-selects :
      (n : ℕ) (o : Operator)
      → map_ok (contains c) (Executor.depth_matches s n o)
        ≡ Reference.depth_selects cache heads live c n o
  depth_matches-selects n Operator.eq = ap ok (holds.depth_btree.exact n c)
  depth_matches-selects n Operator.neq = ap ok (
      contains-others s cache heads c holds (lookup n s.depth_btree) _
        (holds.depth_btree.exact n c))
  depth_matches-selects n Operator.gt =
      ap ok
        (contains-range (λ k. ltb n k) c s.depth_btree ∙ holds.depth_btree.ranges (λ k. ltb n k) c)
  depth_matches-selects n Operator.gte =
      ap ok
        (contains-range (λ k. leb n k) c s.depth_btree ∙ holds.depth_btree.ranges (λ k. leb n k) c)
  depth_matches-selects n Operator.lt =
      ap ok
        (contains-range (λ k. ltb k n) c s.depth_btree ∙ holds.depth_btree.ranges (λ k. ltb k n) c)
  depth_matches-selects n Operator.lte =
      ap ok
        (contains-range (λ k. leb k n) c s.depth_btree ∙ holds.depth_btree.ranges (λ k. leb k n) c)
  depth_matches-selects n Operator.starts = refl
  depth_matches-selects n Operator.eq_ci = refl
  depth_matches-selects n Operator.starts_ci = refl
  depth_matches-selects n Operator.in_list = refl

  execute_is_live-selects :
      (o : Operator) (value : Value)
      → map_ok (contains c) (Executor.execute_is_live s o value live)
        ≡ (is_live_value value >>= λ wanted. Reference.live_selects cache heads live c o wanted)
  unfolding Executor.execute_is_live
  execute_is_live-selects Operator.eq value = elim (Answer-cases (is_live_value value)) [
    | inl (true, e) ↦ rw e refl
    | inl (false, e) ↦ rw e (ap ok (contains-others s cache heads c holds live _ refl))
    | inr (f, e) ↦ rw e refl
  ]
  execute_is_live-selects Operator.neq value = refused_agree c (is_live_value value) bad_operator
  execute_is_live-selects Operator.in_list value =
      refused_agree c (is_live_value value) bad_operator
  execute_is_live-selects Operator.eq_ci value = refused_agree c (is_live_value value) bad_operator
  execute_is_live-selects Operator.starts value = refused_agree c (is_live_value value) bad_operator
  execute_is_live-selects Operator.starts_ci value =
      refused_agree c (is_live_value value) bad_operator
  execute_is_live-selects Operator.gt value = refused_agree c (is_live_value value) bad_operator
  execute_is_live-selects Operator.gte value = refused_agree c (is_live_value value) bad_operator
  execute_is_live-selects Operator.lt value = refused_agree c (is_live_value value) bad_operator
  execute_is_live-selects Operator.lte value = refused_agree c (is_live_value value) bad_operator

  module _ (ordered : Ordered s) (now : ℕ) where
    execute_field-selects :
        (name : FieldName) (o : Operator) (value : Value)
        → map_ok (contains c) (Executor.execute_field s now live name o value)
          ≡ Reference.field_selects cache heads live c now name o value
    unfolding Executor.execute_created Executor.execute_depth
    execute_field-selects FieldName.id o value = execute_id-selects o value
    execute_field-selects FieldName.tag o value =
        execute_string_field-text_selects s cache heads c holds ordered o value StringField.tag live
    execute_field-selects FieldName.title o value =
        execute_string_field-text_selects s cache heads c holds ordered o value StringField.title
          live
    execute_field-selects FieldName.user o value =
        execute_string_field-text_selects s cache heads c holds ordered o value StringField.user
          live
    execute_field-selects FieldName.service o value =
        execute_string_field-text_selects s cache heads c holds ordered o value StringField.service
          live
    execute_field-selects FieldName.host o value =
        execute_string_field-text_selects s cache heads c holds ordered o value StringField.host
          live
    execute_field-selects FieldName.label o value = execute_label-selects o value
    execute_field-selects FieldName.trace_id o value = execute_trace_id-selects o value
    execute_field-selects FieldName.parent o value =
        execute_lineage-selects (lookup_parent_exact s) _ o value (λ v. holds.parent_exact v c)
    execute_field-selects FieldName.root o value =
        execute_lineage-selects (lookup_root_exact s) _ o value (λ v. holds.root_exact v c)
    execute_field-selects FieldName.created o value =
        elim (Answer-cases (parse_date_value now value)) [
          | inl (n, e) ↦ rw e (created_matches-selects n o)
          | inr (f, e) ↦ rw e refl
        ]
    execute_field-selects FieldName.depth o value = elim (Option-cases (as_u64 value)) [
      | inl e ↦ rw e refl
      | inr (n, e) ↦ rw e (depth_matches-selects (n % 2 ^ 32) o)
    ]
    execute_field-selects FieldName.is_live o value = execute_is_live-selects o value

    execute_comparison-selects :
        (field : Text) (o : Operator) (value : Value)
        → map_ok (contains c) (Executor.execute_comparison s now live field o value)
          ≡ satisfies cache heads live c now (Expression.comparison field o value)
    unfolding Executor.execute_comparison satisfies
    execute_comparison-selects field o value = elim (Option-cases (from_str field)) [
      | inl e ↦ rw e refl
      | inr (name, e) ↦ rw e (execute_field-selects name o value)
    ]

    pub execute-satisfies :
        (expr : Expression)
        → map_ok (contains c) (Executor.execute s now live expr)
          ≡ satisfies cache heads live c now expr
    unfolding Executor.execute satisfies
    execute-satisfies (Expression.and_also left right) =
        both_agree c _ _ _ _ intersection ◌&&◌ (execute-satisfies left) (execute-satisfies right)
          (contains-intersection c)
    execute-satisfies (Expression.or_else left right) =
        both_agree c _ _ _ _ union ◌||◌ (execute-satisfies left) (execute-satisfies right)
          (contains-union c)
    execute-satisfies (Expression.negated inner) =
        one_agrees c _ _ (others s) (λ found. known cache heads live c && not found)
          (execute-satisfies inner) (λ found. contains-others s cache heads c holds found _ refl)
    execute-satisfies (Expression.comparison field o value) =
        execute_comparison-selects field o value
