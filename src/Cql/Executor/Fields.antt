-- ===== src/Cql/Executor/Fields.antt =====
-- That the executor's match of each field finds the contexts whose metadata passes the field's test.
use cxdb.Prelude.{
  ℕ, ◌≡◌, ◌∙◌, refl, ap, Bool, not, ◌&&◌, Option, none, some, List, [], ◌∷◌, ◌==◌, nat_eq, bytes_eq,
  Option-cases, inl, inr,
}
use cxdb.Prelude.HashSet.{HashSet, contains, contains-difference, contains-union}
use cxdb.Cql.Order.{Text}
use cxdb.Turns.{ContextHead}
use cxdb.Cql.Ast.{
  CqlError, Operator, Value, Values, QueryCrates, as_string, as_list, ok, ◌>>=◌, ok_or, map_ok,
}
use cxdb.Cql.Order.{starts_with}
use cxdb.Cql.Metadata.{ContextMetadata, MetadataCache, some_meta, is_some_and}
use cxdb.Cql.Indexes.{SecondaryIndexes}
use cxdb.Cql.Indexes.Lookups.{prefix_search_lem}
use cxdb.Cql.Indexes.Holds.{has_value}
use cxdb.Cql.Indexes.Sound.{Sound, Ordered, lowered, tag_of, title_of, user_of, service_of, host_of}
use cxdb.Cql.Executor
use cxdb.Cql.Executor.{
  StringField, no_string, no_list, no_number, bad_operator, collect_in, found_for, others,
  exact_matches, exact_ci_matches, prefix_matches, prefix_ci_matches,
}
use cxdb.Cql.Executor.Reference.{any_in, known, text_selects}

-- The value that the operator needs, and then what is found with it.
pub answers_at {ℓ} :
    {A : Type ℓ} (c : ℕ) (o : Option A) (wrong : CqlError) (found : A → HashSet) (test : A → Bool)
    → ((a : A) → contains c (found a) ≡ test a)
    → map_ok (contains c) (ok_or o wrong >>= λ a. ok (found a))
      ≡ (ok_or o wrong >>= λ a. ok (test a))
answers_at c none wrong found test h = refl
answers_at c (some a) wrong found test h = ap ok (h a)

pub contains-collect_in {ℓ} :
    {A : Type ℓ} (c : ℕ) (read : Value → Option A) (found : A → HashSet) (test : A → Bool)
    → ((a : A) → contains c (found a) ≡ test a)
    → (vs : Values) → contains c (collect_in read found vs) ≡ any_in read test vs
unfolding collect_in any_in contains
contains-collect_in c read found test h Values.nil = refl
contains-collect_in c read found test h (Values.cons v vs) =
    contains-union c (found_for found (read v)) (collect_in read found vs)
    ∙ elim (Option-cases (read v)) [
      | inl absent ↦ rw absent (contains-collect_in c read found test h vs)
      | inr (a, there) ↦ rw there (rw (h a) (rw (contains-collect_in c read found test h vs) refl))
    ]

-- The fields as the reference names them.
abbrev pub text_of : StringField → ContextMetadata → Option Text
text_of StringField.tag = tag_of
text_of StringField.title = title_of
text_of StringField.user = user_of
text_of StringField.service = service_of
text_of StringField.host = host_of

module _ ⦃x : QueryCrates⦄ where
  abbrev pub fold_of : StringField → Text → Text
  fold_of StringField.host t = t
  fold_of _ t = x.to_lowercase t

  some_meta-lowered :
      (test : Text → Bool) (field : ContextMetadata → Option Text) (c : ℕ) (cache : MetadataCache)
      → some_meta (λ m. is_some_and test (lowered field m)) c cache
        ≡ some_meta (λ m. is_some_and (λ t. test (x.to_lowercase t)) (field m)) c cache
  unfolding some_meta
  some_meta-lowered test field c [] = refl
  some_meta-lowered test field c ((k, none) ∷ cache) =
      rw (some_meta-lowered test field c cache) refl
  some_meta-lowered test field c ((k, some m) ∷ cache) = elim (Option-cases (field m)) [
    | inl absent ↦ rw absent (rw (some_meta-lowered test field c cache) refl)
    | inr (t, there) ↦ rw there (rw (some_meta-lowered test field c cache) refl)
  ]

  module _ (s : SecondaryIndexes) (cache : MetadataCache) (heads : List ContextHead) (c : ℕ)
      (holds : Sound s cache heads) where
    pub contains-others :
        (found : HashSet) (test : Bool)
        → contains c found ≡ test
        → contains c (others s found) ≡ (known cache heads [] c && not test)
    contains-others found test h =
        contains-difference c s.all_context_ids found ∙ rw (holds.all_context_ids c) (rw h refl)

    pub contains-exact_matches :
        (field : StringField) (v : Text)
        → contains c (exact_matches s field v) ≡ some_meta (has_value (text_of field) v) c cache
    contains-exact_matches StringField.tag v = holds.tag.exact v c
    contains-exact_matches StringField.title v = holds.title.exact v c
    contains-exact_matches StringField.user v = holds.user.exact v c
    contains-exact_matches StringField.service v = holds.service.exact v c
    contains-exact_matches StringField.host v = holds.host.exact v c

    pub contains-exact_ci_matches :
        (field : StringField) (v : Text)
        → contains c (exact_ci_matches s field v)
          ≡ some_meta
              (λ m. is_some_and (λ t. fold_of field t == fold_of field v) (text_of field m))
              c
              cache
    contains-exact_ci_matches StringField.tag v =
        holds.tag_lower.exact (x.to_lowercase v) c
        ∙ some_meta-lowered (λ t. t == x.to_lowercase v) tag_of c cache
    contains-exact_ci_matches StringField.title v =
        holds.title_lower.exact (x.to_lowercase v) c
        ∙ some_meta-lowered (λ t. t == x.to_lowercase v) title_of c cache
    contains-exact_ci_matches StringField.user v =
        holds.user_lower.exact (x.to_lowercase v) c
        ∙ some_meta-lowered (λ t. t == x.to_lowercase v) user_of c cache
    contains-exact_ci_matches StringField.service v =
        holds.service_lower.exact (x.to_lowercase v) c
        ∙ some_meta-lowered (λ t. t == x.to_lowercase v) service_of c cache
    contains-exact_ci_matches StringField.host v = holds.host.exact v c

    module _ (ordered : Ordered s) where
      pub contains-prefix_matches :
          (field : StringField) (v : Text)
          → contains c (prefix_matches s field v)
            ≡ some_meta (λ m. is_some_and (λ t. starts_with t v) (text_of field m)) c cache
      contains-prefix_matches StringField.tag v =
          prefix_search_lem v c s.tag.sorted ordered.tag ∙ holds.tag.sorted (λ t. starts_with t v) c
      contains-prefix_matches StringField.title v =
          prefix_search_lem v c s.title.sorted ordered.title
          ∙ holds.title.sorted (λ t. starts_with t v) c
      contains-prefix_matches StringField.user v =
          prefix_search_lem v c s.user.sorted ordered.user
          ∙ holds.user.sorted (λ t. starts_with t v) c
      contains-prefix_matches StringField.service v =
          prefix_search_lem v c s.service.sorted ordered.service
          ∙ holds.service.sorted (λ t. starts_with t v) c
      contains-prefix_matches StringField.host v =
          prefix_search_lem v c s.host.sorted ordered.host
          ∙ holds.host.sorted (λ t. starts_with t v) c

      pub contains-prefix_ci_matches :
          (field : StringField) (v : Text)
          → contains c (prefix_ci_matches s field v)
            ≡ some_meta
                (λ m.
                  is_some_and
                    (λ t. starts_with (fold_of field t) (fold_of field v))
                    (text_of field m))
                c
                cache
      contains-prefix_ci_matches StringField.tag v =
          prefix_search_lem (x.to_lowercase v) c s.tag_lower.sorted ordered.tag_lower
          ∙ (holds.tag_lower.sorted (λ t. starts_with t (x.to_lowercase v)) c
              ∙ some_meta-lowered (λ t. starts_with t (x.to_lowercase v)) tag_of c cache)
      contains-prefix_ci_matches StringField.title v =
          prefix_search_lem (x.to_lowercase v) c s.title_lower.sorted ordered.title_lower
          ∙ (holds.title_lower.sorted (λ t. starts_with t (x.to_lowercase v)) c
              ∙ some_meta-lowered (λ t. starts_with t (x.to_lowercase v)) title_of c cache)
      contains-prefix_ci_matches StringField.user v =
          prefix_search_lem (x.to_lowercase v) c s.user_lower.sorted ordered.user_lower
          ∙ (holds.user_lower.sorted (λ t. starts_with t (x.to_lowercase v)) c
              ∙ some_meta-lowered (λ t. starts_with t (x.to_lowercase v)) user_of c cache)
      contains-prefix_ci_matches StringField.service v =
          prefix_search_lem (x.to_lowercase v) c s.service_lower.sorted ordered.service_lower
          ∙ (holds.service_lower.sorted (λ t. starts_with t (x.to_lowercase v)) c
              ∙ some_meta-lowered (λ t. starts_with t (x.to_lowercase v)) service_of c cache)
      contains-prefix_ci_matches StringField.host v =
          prefix_search_lem v c s.host.sorted ordered.host
          ∙ holds.host.sorted (λ t. starts_with t v) c

      -- A match of a text field, all operators and errors.
      pub execute_string_field-text_selects :
          (o : Operator) (value : Value) (field : StringField) (live : HashSet)
          → map_ok (contains c) (Executor.execute_string_field s o value field)
            ≡ text_selects cache heads live c (fold_of field) (text_of field) o value
      unfolding Executor.execute_string_field
      execute_string_field-text_selects Operator.eq value field live =
          answers_at c (as_string value) no_string (exact_matches s field)
            (λ v. some_meta (has_value (text_of field) v) c cache) (contains-exact_matches field)
      execute_string_field-text_selects Operator.neq value field live =
          answers_at c (as_string value) no_string (λ v. others s (exact_matches s field v))
            (λ v. known cache heads live c && not (some_meta (has_value (text_of field) v) c cache))
            (λ v. contains-others (exact_matches s field v) _ (contains-exact_matches field v))
      execute_string_field-text_selects Operator.in_list value field live =
          answers_at c (as_list value) no_list (collect_in as_string (exact_matches s field))
            (any_in as_string (λ v. some_meta (has_value (text_of field) v) c cache))
            (contains-collect_in c as_string (exact_matches s field) _
              (contains-exact_matches field))
      execute_string_field-text_selects Operator.eq_ci value field live =
          answers_at c (as_string value) no_string (exact_ci_matches s field) _
            (contains-exact_ci_matches field)
      execute_string_field-text_selects Operator.starts value field live =
          answers_at c (as_string value) no_string (prefix_matches s field) _
            (contains-prefix_matches field)
      execute_string_field-text_selects Operator.starts_ci value field live =
          answers_at c (as_string value) no_string (prefix_ci_matches s field) _
            (contains-prefix_ci_matches field)
      execute_string_field-text_selects Operator.gt value field live = refl
      execute_string_field-text_selects Operator.gte value field live = refl
      execute_string_field-text_selects Operator.lt value field live = refl
      execute_string_field-text_selects Operator.lte value field live = refl
