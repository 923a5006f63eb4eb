-- ===== src/Wire/Reads.antt =====
-- What the readers do on the bytes that the writers wrote, and on too few bytes.
use cxdb.Prelude.{
  Bool, true, false, String, ◌==◌, nat_eq, compare_self, ℕ, zero, suc, ◌+◌, ◌^◌, ◌≤◌, ◌<◌, ◌≡◌,
  refl, none, some, [], ◌∷◌, ◌++◌, length, length-append, append-nil, ap, sym, ◌∙◌, arith,
}
use native.Mathlib.Decide.{dec_lt}
use cxdb.Prelude.Result.{
  corrupt, not_found, invalid_input, StoreError, ensure, Result, ok, err, stuck, io, unexpected_eof,
}
use cxdb.Wire.{Bytes, Crates, Read, ◌>>=◌, ◌>>◌, lift, pure, split_at?, read_exact, read_uint}

split_at?-append : (xs rest : Bytes) → split_at? (length xs) (xs ++ rest) ≡ some (xs, rest)
unfolding split_at?
split_at?-append [] rest = refl
split_at?-append (x ∷ xs) rest = rw (split_at?-append xs rest)

pub read_exact-append :
    (n : ℕ) (xs rest : Bytes) → length xs ≡ n → read_exact n (xs ++ rest) ≡ ok (xs, rest)
unfolding read_exact
read_exact-append n xs rest h = rw (← h) (rw (split_at?-append xs rest, read_exact))

pub read_exact_all : (n : ℕ) (xs : Bytes) → length xs ≡ n → read_exact n xs ≡ ok (xs, [])
read_exact_all n xs h = ap (λ s. read_exact n s) (sym (append-nil xs)) ∙ read_exact-append n xs [] h

split_at?_short : (n : ℕ) (s : Bytes) → length s < n → split_at? n s ≡ none
unfolding split_at?
split_at?_short zero s h = absurd (omega arith)
split_at?_short (suc n) [] h = refl
split_at?_short (suc n) (b ∷ s) h = rw (split_at?_short n s (omega arith))

split_at?_long :
    (n : ℕ) (s : Bytes)
    → n ≤ length s
    → (p : Bytes × Bytes) × (split_at? n s ≡ some p) × (p.0 ++ p.1 ≡ s) × (length p.0 ≡ n)
unfolding split_at?
split_at?_long zero s h = (([], s), refl, refl, refl)
split_at?_long (suc n) [] h = absurd (omega arith)
split_at?_long (suc n) (b ∷ s) h =
    let ((front, rest), e, join, len) = split_at?_long n s (omega arith) in
    ((b ∷ front, rest), rw e, rw join, omega arith)

-- `rd` takes `n` bytes: with fewer it ends by an unexpected end of file.
pub record Takes {ℓ} {A : Type ℓ} (n : ℕ) (rd : Read A) : Type ℓ where
  pub short : (s : Bytes) → length s < n → rd s ≡ err (io unexpected_eof)
  pub long :
      (s : Bytes)
      → n ≤ length s
      → (a : A) × (rest : Bytes) × (rd s ≡ ok (a, rest)) × (length rest + n ≡ length s)

pub Takes-read_exact : (n : ℕ) → Takes n (read_exact n)
unfolding read_exact
Takes-read_exact n = record {
  short = λ s h. rw (split_at?_short n s h, read_exact);
  long = λ s h.
      let ((front, rest), e, join, len) = split_at?_long n s h in
      (front, rest, rw (e, read_exact), rw (← join) (omega (arith, length-append front rest)));
}

-- How a read of a record of `n` bytes may end: with the record, cut short by the end of the
-- input, or with all bytes there and a checksum that disagrees.
abbrev pub Outcome {ℓ} : {A : Type ℓ} → ℕ → Bytes → Result (A × Bytes) → Type 0
Outcome n s (ok (a, rest)) = length rest + n ≡ length s
Outcome n s (err (io k)) = length s < n
Outcome n s (err (corrupt m)) = n ≤ length s
Outcome n s (err (not_found m)) = ⊥
Outcome n s (err (invalid_input m)) = ⊥
Outcome n s stuck = ⊥

pub record Sized {ℓ} {A : Type ℓ} (n : ℕ) (rd : Read A) : Type ℓ where
  pub at : (s : Bytes) → Outcome n s (rd s)

Outcome-shift {ℓ} :
    {A : Type ℓ} (n m : ℕ) (s rest : Bytes) (r : Result (A × Bytes))
    → length rest + n ≡ length s
    → Outcome m rest r
    → Outcome (n + m) s r
Outcome-shift n m s rest (ok (a, rest')) e h = omega arith
Outcome-shift n m s rest (err (io k)) e h = omega arith
Outcome-shift n m s rest (err (corrupt t)) e h = omega arith
Outcome-shift n m s rest (err (not_found t)) e h = absurd h
Outcome-shift n m s rest (err (invalid_input t)) e h = absurd h
Outcome-shift n m s rest stuck e h = absurd h

Outcome-short {ℓ} :
    {A : Type ℓ} (n : ℕ) (s : Bytes) (r : Result (A × Bytes))
    → length s < n
    → Outcome n s r
    → r ≡ err (io unexpected_eof)
Outcome-short n s (ok (a, rest')) e h = absurd (omega arith)
Outcome-short n s (err (io unexpected_eof)) e h = refl
Outcome-short n s (err (corrupt t)) e h = absurd (omega arith)
Outcome-short n s (err (not_found t)) e h = absurd h
Outcome-short n s (err (invalid_input t)) e h = absurd h
Outcome-short n s stuck e h = absurd h

pub Sized-eof {ℓ} :
    {A : Type ℓ} {n : ℕ} {rd : Read A}
    → Sized n rd
    → (s : Bytes) → length s < n
    → rd s ≡ err (io unexpected_eof)
Sized-eof {n} {rd} h s short = Outcome-short n s (rd s) short (h.at s)

pub Sized-checked {ℓ} :
    {A : Type ℓ} (b : Bool) (m : String) (a : A) → Sized 0 (lift (ensure b (corrupt m)) >> pure a)
Sized-checked true m a = record { at = λ s. omega arith }
Sized-checked false m a = record { at = λ s. omega arith }

pub Sized-bind {ℓ κ} :
    {A : Type ℓ} {B : Type κ} (n m : ℕ) (rd : Read A) (f : A → Read B)
    → Takes n rd
    → ((a : A) → Sized m (f a))
    → Sized (n + m) (rd >>= f)
Sized-bind n m rd f hr hf = record {
  at = λ s. elim (dec_lt (length s) n) [
    | yes p ↦ rw (hr.short s p) (omega arith)
    | no p ↦
        let (a, rest, e, len) = hr.long s (omega arith) in
        rw e (Outcome-shift n m s rest (f a rest) len ((hf a).at rest))
  ];
}

-- A checksum that agrees lets the read end.
pub checked_self {ℓ} :
    {A : Type ℓ} (v : ℕ) (e : StoreError) (a : A) (rest : Bytes)
    → (lift (ensure (v == v) e) >> pure a) rest ≡ ok (a, rest)
checked_self v e a rest = rw (compare_self v, lift)

module _ ⦃x : Crates⦄ where
  pub read_uint-put_le :
      (w v : ℕ) (rest : Bytes) → v < 256 ^ w → read_uint w (x.put_le w v ++ rest) ≡ ok (v, rest)
  unfolding read_uint
  read_uint-put_le w v rest h =
      rw (read_exact-append w (x.put_le w v) rest (x.length-put_le w v), x.get_le-put_le w v h)

  pub read_uint_all : (w v : ℕ) → v < 256 ^ w → read_uint w (x.put_le w v) ≡ ok (v, [])
  read_uint_all w v h =
      ap (λ s. read_uint w s) (sym (append-nil (x.put_le w v))) ∙ read_uint-put_le w v [] h

  pub Takes-read_uint : (w : ℕ) → Takes w (read_uint w)
  unfolding read_uint
  Takes-read_uint w = record {
    short = λ s h. rw ((Takes-read_exact w).short s h);
    long = λ s h.
        let (front, rest, e, len) = (Takes-read_exact w).long s h in
        (x.get_le front, rest, rw e, len);
  }

  pub Sized-uint {ℓ} :
      {B : Type ℓ} (w m : ℕ) {f : ℕ → Read B}
      → ((v : ℕ) → Sized m (f v))
      → Sized (w + m) (read_uint w >>= f)
  Sized-uint w m {f} h = Sized-bind w m (read_uint w) f (Takes-read_uint w) h

  pub Sized-exact {ℓ} :
      {B : Type ℓ} (w m : ℕ) {f : Bytes → Read B}
      → ((v : Bytes) → Sized m (f v))
      → Sized (w + m) (read_exact w >>= f)
  Sized-exact w m {f} h = Sized-bind w m (read_exact w) f (Takes-read_exact w) h
