-- ===== src/Cql/Indexes/Holds.antt =====
-- What an index holds: for each of its parts, the metadata and heads that it stands for, and that
-- adding a context and sorting keep this.
use cxdb.Prelude.{
  ℕ, ◌≡◌, refl, sym, ap, ◌∙◌, Bool, true, false, ◌&&◌, ◌||◌, Option, none, some, List, [], ◌∷◌,
  PartialEq, nat_eq, bytes_eq, ◌==◌, Bool-cases, Option-cases, inl, inr, arith,
}
use cxdb.Prelude.Dict.{Dict, get, insert, get-insert}
use cxdb.Prelude.HashSet
use cxdb.Prelude.HashSet.{HashSet, contains, contains-insert}
use cxdb.Cql.Order.{Text}
use cxdb.Turns.{ContextHead}
use cxdb.Cql.Order.{any_entry, any_entry-append, any_entry-sort}
use cxdb.Cql.Metadata.{ContextMetadata, MetadataCache, is_some_and, any, some_meta}
use cxdb.Cql.Indexes.{
  FieldIndex, or_default, lookup, add_id, add_option, add_list, add_labels, add_text, sort_field,
}

-- Whether the list has a head of the context that the test accepts.
unfoldable pub some_head : (ContextHead → Bool) → ℕ → List ContextHead → Bool
some_head test c [] = false
some_head test c (h ∷ heads) = (h.context_id == c && test h) || some_head test c heads

-- Whether the context stands under a key that the test accepts.
unfoldable pub any_key : (ℕ → Bool) → ℕ → Dict ℕ HashSet → Bool
any_key test c [] = false
any_key test c ((k, ids) ∷ d) = (test k && contains c ids) || any_key test c d

-- The exact index `d` finds the contexts whose metadata `has` the key.
abbrev pub Exact :
    {K : Type 0} ⦃e : PartialEq K⦄
    → Dict K HashSet
    → (K → ContextMetadata → Bool)
    → MetadataCache
    → Type 0
Exact {K} d has cache = (v : K) (c : ℕ) → contains c (lookup v d) ≡ some_meta (has v) c cache

-- The tests for an optional field and for the labels.
abbrev pub has_value :
    {K : Type 0} ⦃e : PartialEq K⦄ → (ContextMetadata → Option K) → K → ContextMetadata → Bool
has_value field v m = is_some_and (λ k. k == v) (field m)

abbrev pub has_label : Text → ContextMetadata → Bool
has_label v m = is_some_and (any (λ k. k == v)) m.labels

pub record FieldHolds (f : FieldIndex) (field : ContextMetadata → Option Text)
    (cache : MetadataCache) : Type 0 where
  pub exact : Exact f.exact (has_value field) cache
  pub sorted :
      (test : Text → Bool) (c : ℕ)
      → any_entry test c f.sorted ≡ some_meta (λ m. is_some_and test (field m)) c cache

pub record HeadHolds (d : Dict ℕ HashSet) (field : ContextHead → ℕ) (heads : List ContextHead)
    : Type 0 where
  pub exact : (v c : ℕ) → contains c (lookup v d) ≡ some_head (λ h. field h == v) c heads
  pub ranges :
      (test : ℕ → Bool) (c : ℕ) → any_key test c d ≡ some_head (λ h. test (field h)) c heads

pub lookup-add_id :
    {K : Type 0} ⦃e : PartialEq K⦄ (c id : ℕ) (k v : K) (d : Dict K HashSet)
    → contains c (lookup v (add_id id k d)) ≡ ((k == v && id == c) || contains c (lookup v d))
unfolding lookup add_id
lookup-add_id ⦃e⦄ c id k v d = elim (Bool-cases (k == v)) [
  | inl same ↦
      let e : k ≡ v = (e.eq_iff k v).0 same in
      ap (λ o. contains c (or_default o)) (get-insert k v _ d)
      ∙ rw same (rw e (contains-insert c id (lookup v d)))
  | inr other ↦ ap (λ o. contains c (or_default o)) (get-insert k v _ d) ∙ rw (other, lookup) refl
]

-- A context with no metadata, and one more context.
pub some_meta-none :
    (test : ContextMetadata → Bool) (c id : ℕ) (cache : MetadataCache)
    → some_meta test c ((id, none) ∷ cache) ≡ some_meta test c cache
unfolding some_meta
some_meta-none test c id cache = ground arith

pub some_meta-some :
    (test : ContextMetadata → Bool) (c id : ℕ) (m : ContextMetadata) (cache : MetadataCache)
    → some_meta test c ((id, some m) ∷ cache) ≡ ((id == c && test m) || some_meta test c cache)
unfolding some_meta
some_meta-some test c id m cache = refl

and_comm : (a b : Bool) → (a && b) ≡ (b && a)
and_comm true b = ground arith
and_comm false b = ground arith

module _ {K : Type 0} ⦃e : PartialEq K⦄ (id : ℕ) (m : ContextMetadata) (cache : MetadataCache) where
  pub add_option-Exact :
      (d : Dict K HashSet) (field : ContextMetadata → Option K)
      → Exact d (has_value field) cache
      → Exact (add_option id (field m) d) (has_value field) ((id, some m) ∷ cache)
  add_option-Exact d field holds v c = elim (Option-cases (field m)) [
    | inl absent ↦
        rw (some_meta-some (has_value field v) c id m cache)
          (rw absent (rw (and_comm (id == c) false) (holds v c)))
    | inr (k, there) ↦ rw (some_meta-some (has_value field v) c id m cache) (
        rw there
          (lookup-add_id c id k v d ∙ rw (holds v c) (rw (and_comm (k == v) (id == c)) refl)))
  ]

lookup-add_list :
    (c id : ℕ) (v : Text) (ks : List Text) (d : Dict Text HashSet)
    → contains c (lookup v (add_list id ks d))
      ≡ ((id == c && any (λ k. k == v) ks) || contains c (lookup v d))
lookup-add_list c id v [] d = rw (and_comm (id == c) false) refl
lookup-add_list c id v (k ∷ ks) d =
    ground (arith, lookup-add_list c id v ks (add_id id k d), lookup-add_id c id k v d)

module _ (id : ℕ) (m : ContextMetadata) (cache : MetadataCache) where
  pub add_labels-Exact :
      (d : Dict Text HashSet)
      → Exact d has_label cache
      → Exact (add_labels id m.labels d) has_label ((id, some m) ∷ cache)
  add_labels-Exact d holds v c = elim (Option-cases m.labels) [
    | inl absent ↦
        rw (some_meta-some (has_label v) c id m cache)
          (rw absent (rw (and_comm (id == c) false) (holds v c)))
    | inr (ks, there) ↦
        rw (some_meta-some (has_label v) c id m cache)
          (rw there (lookup-add_list c id v ks d ∙ rw (holds v c) refl))
  ]

  add_text-exact :
      (f : FieldIndex) (field : ContextMetadata → Option Text)
      → Exact f.exact (has_value field) cache
      → Exact (add_text id (field m) f).exact (has_value field) ((id, some m) ∷ cache)
  add_text-exact f field holds v c = elim (Option-cases (field m)) [
    | inl absent ↦
        let kept = add_option-Exact id m cache f.exact field holds v c in
        rw absent (rw absent at kept)
    | inr (k, there) ↦
        let kept = add_option-Exact id m cache f.exact field holds v c in
        rw there (rw there at kept)
  ]

  pub add_text-FieldHolds :
      (f : FieldIndex) (field : ContextMetadata → Option Text)
      → FieldHolds f field cache
      → FieldHolds (add_text id (field m) f) field ((id, some m) ∷ cache)
  unfolding any_entry
  add_text-FieldHolds f field holds = record {
    exact = add_text-exact f field holds.exact;
    sorted = λ test c. elim (Option-cases (field m)) [
      | inl absent ↦
          rw (some_meta-some (λ n. is_some_and test (field n)) c id m cache)
            (rw absent (rw (and_comm (id == c) false) (holds.sorted test c)))
      | inr (k, there) ↦ rw (some_meta-some (λ n. is_some_and test (field n)) c id m cache) (
          rw there (
            any_entry-append test c f.sorted ((k, id) ∷ [])
            ∙ rw (holds.sorted test c) (ground arith)))
    ];
  }

pub none-FieldHolds :
    (id : ℕ) (cache : MetadataCache) (f : FieldIndex) (field : ContextMetadata → Option Text)
    → FieldHolds f field cache
    → FieldHolds f field ((id, none) ∷ cache)
none-FieldHolds id cache f field holds = record {
  exact = λ v c. holds.exact v c ∙ sym (some_meta-none (has_value field v) c id cache);
  sorted = λ test c.
      holds.sorted test c ∙ sym (some_meta-none (λ m. is_some_and test (field m)) c id cache);
}

pub none-Exact :
    {K : Type 0} ⦃e : PartialEq K⦄ (id : ℕ) (cache : MetadataCache) (d : Dict K HashSet)
    (has : K → ContextMetadata → Bool)
    → Exact d has cache
    → Exact d has ((id, none) ∷ cache)
none-Exact id cache d has holds v c = holds v c ∙ sym (some_meta-none (has v) c id cache)

pub sort-FieldHolds :
    (cache : MetadataCache) (f : FieldIndex) (field : ContextMetadata → Option Text)
    → FieldHolds f field cache
    → FieldHolds (sort_field f) field cache
sort-FieldHolds cache f field holds = record {
  exact = holds.exact;
  sorted = λ test c. any_entry-sort test c f.sorted ∙ holds.sorted test c;
}

any_key-add_id :
    (test : ℕ → Bool) (c id k : ℕ) (d : Dict ℕ HashSet)
    → any_key test c (add_id id k d) ≡ ((test k && id == c) || any_key test c d)
unfolding any_key add_id lookup get insert contains HashSet.insert
any_key-add_id test c id k [] = ground arith
any_key-add_id test c id k ((j, ids) ∷ d) = elim (Bool-cases (j == k)) [
  | inl same ↦
      let e : j ≡ k = ground arith in rw same (rw e (rw (contains-insert c id ids) (ground arith)))
  | inr other ↦ ground (arith, any_key-add_id test c id k d)
]

pub add_id-HeadHolds :
    (h : ContextHead) (heads : List ContextHead) (d : Dict ℕ HashSet) (field : ContextHead → ℕ)
    → HeadHolds d field heads
    → HeadHolds (add_id h.context_id (field h) d) field (h ∷ heads)
unfolding some_head
add_id-HeadHolds h heads d field holds = record {
  exact = λ v c.
      lookup-add_id c h.context_id (field h) v d
      ∙ rw (holds.exact v c) (rw (and_comm (field h == v) (h.context_id == c)) refl);
  ranges = λ test c.
      any_key-add_id test c h.context_id (field h) d
      ∙ rw (holds.ranges test c) (rw (and_comm (test (field h)) (h.context_id == c)) refl);
}
