-- ===== src/Prelude/HashSet.antt =====
-- `std::collections::HashSet<u64>`: a list in which a value stands once. The iteration order of the
-- real table is not specified; no theorem is about it.
use Prim.Native.Nat.{ℕ}
use mathlib.Core.Path.{◌≡◌, ◌∙◌, refl}
use mathlib.Core.Bool.{Bool, false, not, ◌&&◌, ◌||◌}
use mathlib.Core.List.{List, [], ◌∷◌}
use mathlib.Core.Logic.{inl, inr}
use native.Mathlib.Omega.{arith}
use package.cxdb.Prelude.Tests.{Bool-cases, nat_eq, ◌==◌, if◌then◌else◌}

abbrev pub HashSet : Type 0
HashSet = List ℕ

unfoldable pub contains : ℕ → HashSet → Bool
contains c [] = false
contains c (k ∷ s) = k == c || contains c s

unfoldable pub insert : ℕ → HashSet → HashSet
unfolding contains
insert k s = if contains k s then s else k ∷ s

unfoldable pub remove : ℕ → HashSet → HashSet
remove k [] = []
remove k (j ∷ s) = if j == k then remove k s else j ∷ remove k s

-- The values of `s` that the test keeps.
unfoldable pub retain : (ℕ → Bool) → HashSet → HashSet
retain test [] = []
retain test (k ∷ s) = let rest = retain test s in if test k then k ∷ rest else rest

-- `union`, `extend` and `collect`: every value of the first set goes into the second.
unfoldable pub union : HashSet → HashSet → HashSet
unfolding insert
union [] t = t
union (k ∷ s) t = insert k (union s t)

unfoldable pub intersection : HashSet → HashSet → HashSet
unfolding retain contains
intersection s t = retain (λ k. contains k t) s

unfoldable pub difference : HashSet → HashSet → HashSet
unfolding retain contains
difference s t = retain (λ k. not (contains k t)) s

pub contains-insert : (c k : ℕ) (s : HashSet) → contains c (insert k s) ≡ (k == c || contains c s)
unfolding contains insert
contains-insert c k s = elim (Bool-cases (k == c)) [
  | inl same ↦
      let e : k ≡ c = ground arith in
      elim (Bool-cases (contains k s)) [
        | inl there ↦ rw (same, there) (rw (← e) there)
        | inr fresh ↦ rw (fresh, same) refl
      ]
  | inr other ↦ ground (arith, contains)
]

pub contains-remove :
    (c k : ℕ) (s : HashSet) → contains c (remove k s) ≡ (not (k == c) && contains c s)
unfolding contains remove
contains-remove c k [] = ground arith
contains-remove c k (j ∷ s) = ground (arith, contains-remove c k s)

pub contains-retain :
    (c : ℕ) (test : ℕ → Bool) (s : HashSet) → contains c (retain test s) ≡ (contains c s && test c)
unfolding contains retain
contains-retain c test [] = refl
contains-retain c test (j ∷ s) = ground (arith, contains-retain c test s)

pub contains-union :
    (c : ℕ) (s t : HashSet) → contains c (union s t) ≡ (contains c s || contains c t)
unfolding contains union
contains-union c [] t = refl
contains-union c (k ∷ s) t = ground (arith, contains-insert c k (union s t), contains-union c s t)

pub contains-intersection :
    (c : ℕ) (s t : HashSet) → contains c (intersection s t) ≡ (contains c s && contains c t)
unfolding intersection
contains-intersection c s t = contains-retain c (λ k. contains k t) s

pub contains-difference :
    (c : ℕ) (s t : HashSet) → contains c (difference s t) ≡ (contains c s && not (contains c t))
unfolding difference
contains-difference c s t = contains-retain c (λ k. not (contains k t)) s

-- Every value stands once.
abbrev pub Distinct : List ℕ → Type 0
Distinct [] = Unit
Distinct (c ∷ cs) = (contains c cs ≡ false) × Distinct cs

pub insert-Distinct : (k : ℕ) (s : HashSet) → Distinct s → Distinct (insert k s)
unfolding insert
insert-Distinct k s h = elim (Bool-cases (contains k s)) [
  | inl there ↦ rw there (h)
  | inr fresh ↦ rw fresh (fresh, h)
]

pub union-Distinct : (s t : HashSet) → Distinct t → Distinct (union s t)
unfolding union
union-Distinct [] t h = h
union-Distinct (k ∷ s) t h = insert-Distinct k (union s t) (union-Distinct s t h)

pub retain-Distinct : (test : ℕ → Bool) (s : HashSet) → Distinct s → Distinct (retain test s)
unfolding retain
retain-Distinct test [] h = tt
retain-Distinct test (k ∷ s) (fresh, h) = elim (Bool-cases (test k)) [
  | inl kept ↦ rw kept (contains-retain k test s ∙ rw fresh refl, retain-Distinct test s h)
  | inr dropped ↦ rw dropped (retain-Distinct test s h)
]

pub remove-Distinct : (k : ℕ) (s : HashSet) → Distinct s → Distinct (remove k s)
unfolding remove
remove-Distinct k [] h = tt
remove-Distinct k (j ∷ s) (fresh, h) = elim (Bool-cases (j == k)) [
  | inl same ↦ rw same (remove-Distinct k s h)
  | inr other ↦ rw other (ground (arith, contains-remove j k s), remove-Distinct k s h)
]
