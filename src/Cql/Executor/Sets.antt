-- ===== src/Cql/Executor/Sets.antt =====
-- That the sets which the executor takes from the indexes and puts together have each context once.
use cxdb.Prelude.{ℕ, Bool, Option, [], ◌∷◌, nat_eq, bytes_eq, Bool-cases, inl, inr, refl}
use cxdb.Prelude.Dict.{Dict}
use cxdb.Prelude.HashSet.{
  HashSet, contains, Distinct, insert-Distinct, union-Distinct, retain-Distinct, difference,
}
use cxdb.Cql.Order.{Text, Entries, starts_with}
use cxdb.Cql.Ast.{Value, Values, QueryCrates}
use cxdb.Cql.Indexes.{SecondaryIndexes}
use cxdb.Cql.Indexes.Once.{IsOnce}
use cxdb.Cql.Indexes.Lookups.{collect_prefix, prefix_search, range}
use cxdb.Cql.Executor.{
  StringField, exact_matches, prefix_matches, exact_ci_matches, prefix_ci_matches, collect_in,
  found_for, others, known_id,
}

pub collect_prefix-Distinct : (prefix : Text) (es : Entries) → Distinct (collect_prefix prefix es)
unfolding collect_prefix
collect_prefix-Distinct prefix [] = tt
collect_prefix-Distinct prefix (e ∷ es) = elim (Bool-cases (starts_with e.0 prefix)) [
  | inl there ↦
      rw there (insert-Distinct e.1 (collect_prefix prefix es) (collect_prefix-Distinct prefix es))
  | inr past ↦ rw past (tt)
]

pub prefix_search-Distinct : (es : Entries) (prefix : Text) → Distinct (prefix_search es prefix)
unfolding prefix_search
prefix_search-Distinct [] prefix = tt
prefix_search-Distinct (e ∷ es) prefix = collect_prefix-Distinct prefix _

pub range-Distinct : (test : ℕ → Bool) (d : Dict ℕ HashSet) → Distinct (range test d)
unfolding range
range-Distinct test [] = tt
range-Distinct test ((k, ids) ∷ d) = elim (Bool-cases (test k)) [
  | inl inside ↦ rw inside (union-Distinct ids (range test d) (range-Distinct test d))
  | inr outside ↦ rw outside (range-Distinct test d)
]

pub collect_in-Distinct {ℓ} :
    {A : Type ℓ} (read : Value → Option A) (found : A → HashSet) (vs : Values)
    → Distinct (collect_in read found vs)
unfolding collect_in
collect_in-Distinct read found Values.nil = tt
collect_in-Distinct read found (Values.cons v vs) =
    union-Distinct (found_for found (read v)) (collect_in read found vs)
      (collect_in-Distinct read found vs)

module _ (s : SecondaryIndexes) (h : IsOnce s) where
  pub others-Distinct : (found : HashSet) → Distinct (others s found)
  unfolding difference
  others-Distinct found = retain-Distinct _ s.all_context_ids h.known

  pub known_id-Distinct : (id : ℕ) → Distinct (known_id s id)
  unfolding contains
  known_id-Distinct id = elim (Bool-cases (contains id s.all_context_ids)) [
    | inl there ↦ rw there (refl, tt)
    | inr missing ↦ rw missing (tt)
  ]

  pub exact_matches-Distinct : (field : StringField) (v : Text) → Distinct (exact_matches s field v)
  exact_matches-Distinct StringField.tag v = h.tag v
  exact_matches-Distinct StringField.title v = h.title v
  exact_matches-Distinct StringField.user v = h.user v
  exact_matches-Distinct StringField.service v = h.service v
  exact_matches-Distinct StringField.host v = h.host v

  pub prefix_matches-Distinct :
      (field : StringField) (v : Text) → Distinct (prefix_matches s field v)
  prefix_matches-Distinct StringField.tag v = prefix_search-Distinct s.tag.sorted v
  prefix_matches-Distinct StringField.title v = prefix_search-Distinct s.title.sorted v
  prefix_matches-Distinct StringField.user v = prefix_search-Distinct s.user.sorted v
  prefix_matches-Distinct StringField.service v = prefix_search-Distinct s.service.sorted v
  prefix_matches-Distinct StringField.host v = prefix_search-Distinct s.host.sorted v

  module _ ⦃x : QueryCrates⦄ where
    pub exact_ci_matches-Distinct :
        (field : StringField) (v : Text) → Distinct (exact_ci_matches s field v)
    exact_ci_matches-Distinct StringField.tag v = h.tag_lower (x.to_lowercase v)
    exact_ci_matches-Distinct StringField.title v = h.title_lower (x.to_lowercase v)
    exact_ci_matches-Distinct StringField.user v = h.user_lower (x.to_lowercase v)
    exact_ci_matches-Distinct StringField.service v = h.service_lower (x.to_lowercase v)
    exact_ci_matches-Distinct StringField.host v = h.host v

    pub prefix_ci_matches-Distinct :
        (field : StringField) (v : Text) → Distinct (prefix_ci_matches s field v)
    prefix_ci_matches-Distinct StringField.tag v =
        prefix_search-Distinct s.tag_lower.sorted (x.to_lowercase v)
    prefix_ci_matches-Distinct StringField.title v =
        prefix_search-Distinct s.title_lower.sorted (x.to_lowercase v)
    prefix_ci_matches-Distinct StringField.user v =
        prefix_search-Distinct s.user_lower.sorted (x.to_lowercase v)
    prefix_ci_matches-Distinct StringField.service v =
        prefix_search-Distinct s.service_lower.sorted (x.to_lowercase v)
    prefix_ci_matches-Distinct StringField.host v = prefix_search-Distinct s.host.sorted v
