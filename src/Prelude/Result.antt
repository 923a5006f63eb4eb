-- ===== src/Prelude/Result.antt =====
-- server/src/error.rs: `StoreError` and the `Result` of fallible code.
use Prim.Native.String.{String}
use mathlib.Core.Path.{◌≡◌, refl}
use mathlib.Core.Logic.{◌⊎◌, inl, inr}
use mathlib.Core.Bool.{Bool, true, false}
use mathlib.Core.Option.{Option, none, some}

-- The kinds of `std::io::Error` that reads of a byte sequence give.
pub data ErrorKind : Type 0 where
  unexpected_eof : ErrorKind

-- A message stands by its literal, with the values that `format!` puts in left out.
pub data StoreError : Type 0 where
  io : ErrorKind → StoreError
  corrupt : String → StoreError
  not_found : String → StoreError
  invalid_input : String → StoreError

-- `stuck` is no Rust value: a loop of the model ran out of fuel.
pub data Result {ℓ} (A : Type ℓ) : Type ℓ where
  ok : A → Result A
  err : StoreError → Result A
  stuck : Result A

-- `r?`, and what the code goes on with.
infixl 5 ◌>>=◌
abbrev pub ◌>>=◌ {ℓ κ} : {V : Type ℓ} {W : Type κ} → Result V → (V → Result W) → Result W
stuck >>= next = stuck
err e >>= next = err e
ok v >>= next = next v

infixl 5 ◌>>◌
abbrev pub ◌>>◌ {κ} : {W : Type κ} → Result (Unit {0}) → Result W → Result W
test >> rest = test >>= λ _. rest

-- `if !test { return Err(e) }`
abbrev pub ensure : Bool → StoreError → Result (Unit {0})
ensure true e = ok tt
ensure false e = err e

abbrev pub ok_or {ℓ} : {A : Type ℓ} → Option A → StoreError → Result A
ok_or none e = err e
ok_or (some a) e = ok a

pub Result-cases {ℓ} :
    {A : Type ℓ} (r : Result A)
    → ((a : A) × (r ≡ ok a)) ⊎ ((e : StoreError) × (r ≡ err e)) ⊎ (r ≡ stuck)
Result-cases (ok a) = inl (a, refl)
Result-cases (err e) = inr (inl (e, refl))
Result-cases stuck = inr (inr refl)
