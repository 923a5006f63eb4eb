-- ===== src/Prelude/Dict.antt =====
-- `std::collections::HashMap`: an association list in the order in which the keys first came in.
-- The iteration order of the real table is not specified, and no theorem is about it.
use mathlib.Core.Path.{◌≡◌, refl}
use mathlib.Core.Option.{Option, none, some}
use mathlib.Core.List.{List, [], ◌∷◌}
use native.Mathlib.Omega.{arith}
use mathlib.Core.Logic.{◌≢◌, ◌⊎◌, inl, inr}
use package.cxdb.Prelude.Tests.{Bool-cases, PartialEq, ◌==◌, if◌then◌else◌}

abbrev pub Dict {ℓ κ} : Type ℓ → Type κ → Type (ℓ ⊔ κ)
Dict K V = List (K × V)

module _ {ℓ κ} {K : Type ℓ} {V : Type κ} ⦃e : PartialEq K⦄ where
  unfoldable pub get : K → Dict K V → Option V
  get k [] = none
  get k ((j, v) ∷ m) = if j == k then some v else get k m

  -- A key that is there keeps its place.
  unfoldable pub insert : K → V → Dict K V → Dict K V
  insert k v [] = (k, v) ∷ []
  insert k v ((j, w) ∷ m) = if j == k then (j, v) ∷ m else (j, w) ∷ insert k v m

  pub get-insert :
      (k j : K) (v : V) (m : Dict K V) → get j (insert k v m) ≡ (if k == j then some v else get j m)
  unfolding get insert
  get-insert k j v [] = refl
  get-insert k j v ((i, w) ∷ m) =
      ground (arith, e.eq_iff k j, e.eq_iff i k, e.eq_iff i j, get-insert k j v m)

  pub get-insert_self : (k : K) (v : V) (m : Dict K V) → get k (insert k v m) ≡ some v
  get-insert_self k v m = rw (get-insert, (e.eq_iff k k).1 refl)

  pub get-insert_ne : (k j : K) (v : V) (m : Dict K V) → k ≢ j → get j (insert k v m) ≡ get j m
  get-insert_ne k j v m h = ground (arith, get-insert k j v m, e.eq_iff k j)

  -- What stands under a key after an insertion: the new value, or what stood there.
  pub get-insert_cases :
      (k j : K) (v u : V) (m : Dict K V)
      → get j (insert k v m) ≡ some u
      → ((k ≡ j) × (v ≡ u)) ⊎ ((k ≢ j) × (get j m ≡ some u))
  get-insert_cases k j v u m h = elim (Bool-cases (k == j)) [
    | inl same ↦ inl (ground (arith, get-insert k j v m, e.eq_iff k j))
    | inr other ↦ inr (ground (arith, e.eq_iff k j), ground (arith, get-insert k j v m))
  ]
