-- ===== src/Cql/Order.antt =====
-- Texts, each the list of its code points, and `slice::sort_by` on entries keyed by a text. `str`
-- compares by UTF-8 bytes, which is the order of the code points.
use cxdb.Prelude.{
  ℕ, ◌≡◌, refl, Bool, true, false, ◌&&◌, ◌||◌, List, [], ◌∷◌, ◌++◌, All, ltb, ◌==◌, nat_eq,
  if◌then◌else◌, Bool-cases, inl, inr, arith,
}

abbrev pub Text : Type 0
Text = List ℕ

-- `a < b` on `str`.
unfoldable pub less : Text → Text → Bool
less s [] = false
less [] (y ∷ t) = true
less (x ∷ s) (y ∷ t) = ltb x y || (x == y && less s t)

unfoldable pub starts_with : Text → Text → Bool
starts_with s [] = true
starts_with [] (p ∷ prefix) = false
starts_with (x ∷ s) (p ∷ prefix) = x == p && starts_with s prefix

abbrev pub Entries : Type 0
Entries = List (Text × ℕ)

insert_sorted : Text × ℕ → Entries → Entries
insert_sorted e [] = e ∷ []
insert_sorted e (f ∷ es) = if less e.0 f.0 then e ∷ f ∷ es else f ∷ insert_sorted e es

-- `sort_by(|a, b| a.0.cmp(&b.0))`, which is stable: an entry goes behind those with its key.
sort_into : Entries → Entries → Entries
unfolding insert_sorted
sort_into done [] = done
sort_into done (e ∷ es) = sort_into (insert_sorted e done) es

unfoldable pub sort : Entries → Entries
unfolding sort_into
sort es = sort_into [] es

abbrev pub IsSorted : Entries → Type 0
IsSorted [] = Unit
IsSorted (e ∷ es) = All (λ f. less f.0 e.0 ≡ false) es × IsSorted es

-- Whether some entry of the context has a text that the test accepts.
unfoldable pub any_entry : (Text → Bool) → ℕ → Entries → Bool
any_entry test c [] = false
any_entry test c ((s, k) ∷ es) = (k == c && test s) || any_entry test c es

pub less_antisym : (s t : Text) → less s t ≡ true → less t s ≡ false
unfolding less
less_antisym s [] h = cc
less_antisym [] (y ∷ t) h = refl
less_antisym (x ∷ s) (y ∷ t) h = ground (arith, less_antisym s t)

pub less_trans : (r s t : Text) → less s r ≡ false → less t s ≡ false → less t r ≡ false
unfolding less
less_trans [] s t h k = refl
less_trans (x ∷ r) [] t h k = cc
less_trans (x ∷ r) (y ∷ s) [] h k = cc
less_trans (x ∷ r) (y ∷ s) (z ∷ t) h k = ground (arith, less_trans r s t)

-- A text is not below its own prefixes.
pub less-starts_with : (s p : Text) → starts_with s p ≡ true → less s p ≡ false
unfolding less starts_with
less-starts_with s [] h = refl
less-starts_with [] (y ∷ p) h = cc
less-starts_with (x ∷ s) (y ∷ p) h = ground (arith, less-starts_with s p)

-- Behind a text that is past the prefix, no text starts with it.
pub starts_with-past :
    (p s t : Text)
    → less s p ≡ false
    → starts_with s p ≡ false
    → less t s ≡ false
    → starts_with t p ≡ false
unfolding less starts_with
starts_with-past [] s t h k l = cc
starts_with-past (y ∷ p) [] t h k l = cc
starts_with-past (y ∷ p) (x ∷ s) [] h k l = refl
starts_with-past (y ∷ p) (x ∷ s) (z ∷ t) h k l = ground (arith, starts_with-past p s t)

insert_sorted-All :
    (Holds : Text × ℕ → Type 0) (e : Text × ℕ) (es : Entries)
    → Holds e
    → All Holds es
    → All Holds (insert_sorted e es)
unfolding insert_sorted
insert_sorted-All Holds e [] h hs = (h, tt)
insert_sorted-All Holds e (f ∷ es) h (first, rest) = elim (Bool-cases (less e.0 f.0)) [
  | inl before ↦ rw before (h, (first, rest))
  | inr after ↦ rw after (first, insert_sorted-All Holds e es h rest)
]

All-less :
    (r s : Text) (es : Entries)
    → less s r ≡ false
    → All (λ f. less f.0 s ≡ false) es
    → All (λ f. less f.0 r ≡ false) es
All-less r s [] h hs = tt
All-less r s (f ∷ es) h (first, rest) = (less_trans r s f.0 h first, All-less r s es h rest)

insert_sorted-IsSorted : (e : Text × ℕ) (es : Entries) → IsSorted es → IsSorted (insert_sorted e es)
unfolding insert_sorted
insert_sorted-IsSorted e [] sorted = (tt, tt)
insert_sorted-IsSorted e (f ∷ es) (below, sorted) = elim (Bool-cases (less e.0 f.0)) [
  | inl before ↦
      let le = less_antisym e.0 f.0 before in
      rw before ((le, All-less e.0 f.0 es le below), (below, sorted))
  | inr after ↦ rw after (
    insert_sorted-All (λ g. less g.0 f.0 ≡ false) e es after below,
    insert_sorted-IsSorted e es sorted,
  )
]

sort_into-IsSorted : (done es : Entries) → IsSorted done → IsSorted (sort_into done es)
unfolding sort_into
sort_into-IsSorted done [] sorted = sorted
sort_into-IsSorted done (e ∷ es) sorted =
    sort_into-IsSorted (insert_sorted e done) es (insert_sorted-IsSorted e done sorted)

pub sort-IsSorted : (es : Entries) → IsSorted (sort es)
unfolding sort
sort-IsSorted es = sort_into-IsSorted [] es tt

any_entry-insert_sorted :
    (test : Text → Bool) (c : ℕ) (e : Text × ℕ) (es : Entries)
    → any_entry test c (insert_sorted e es) ≡ any_entry test c (e ∷ es)
unfolding any_entry insert_sorted
any_entry-insert_sorted test c (s, k) [] = refl
any_entry-insert_sorted test c (s, k) ((t, j) ∷ es) =
    ground (arith, any_entry-insert_sorted test c (s, k) es)

any_entry-sort_into :
    (test : Text → Bool) (c : ℕ) (done es : Entries)
    → any_entry test c (sort_into done es) ≡ (any_entry test c es || any_entry test c done)
unfolding any_entry sort_into
any_entry-sort_into test c done [] = refl
any_entry-sort_into test c done ((s, k) ∷ es) = ground (
  arith,
  any_entry-sort_into test c (insert_sorted (s, k) done) es,
  any_entry-insert_sorted test c (s, k) done,
)

-- Sorting keeps the entries.
pub any_entry-sort :
    (test : Text → Bool) (c : ℕ) (es : Entries) → any_entry test c (sort es) ≡ any_entry test c es
unfolding any_entry sort
any_entry-sort test c es = ground (arith, any_entry-sort_into test c [] es)

pub any_entry-append :
    (test : Text → Bool) (c : ℕ) (es fs : Entries)
    → any_entry test c (es ++ fs) ≡ (any_entry test c es || any_entry test c fs)
unfolding any_entry
any_entry-append test c [] fs = refl
any_entry-append test c ((s, k) ∷ es) fs = ground (arith, any_entry-append test c es fs)
