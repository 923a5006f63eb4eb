-- ===== src/Cql/Lexer/Ends.antt =====
-- That the lexer ends on every text: each token but the last uses a character.
use cxdb.Prelude.{
  ℕ, zero, suc, ◌<◌, ◌≤◌, ◌≡◌, ◌≢◌, refl, Bool, true, false, ◌&&◌, ◌||◌, List, [], ◌∷◌, ◌==◌,
  nat_eq, length, Bool-cases, inl, inr, arith, if◌then◌else◌,
}
use cxdb.Cql.Order.{Text}
use cxdb.Cql.Ast.{Position, CqlError, QueryCrates}
use cxdb.Cql.Lexer.{
  TokenType, Token, Outcome, ok, err, stuck, ◌>>=◌, past, read_while, read_chars, push, unescape,
  token, is_digit, head_is, read_if, decimals, read_number, read_identifier, then_eq, then_caret,
  read_mark, read_string, read_token, next_token, is_eof, tokenize, Lexed,
}

-- The reader gave a value with fewer than `n` characters left, or an error.
data Uses {ℓ} {A : Type ℓ} (n : ℕ) : Outcome (A × Text × Position) → Type ℓ where
  used : (a : A) (rest : Text) (at : Position) → length rest < n → Uses n (ok (a, rest, at))
  refused : (e : CqlError) → Uses n (err e)

widen {ℓ} : {A : Type ℓ} {n m : ℕ} {r : Outcome (A × Text × Position)} → Uses n r → n ≤ m → Uses m r
widen (used a rest at h) le = used a rest at (omega arith)
widen (refused e) le = refused e

as_token :
    {n : ℕ} {r : Outcome (Text × Text × Position)} (start : Position)
    → Uses n r
    → Uses n (r >>= λ v. ok (token (TokenType.string v.0) start, v.1, v.2))
as_token start (used s rest at h) = used (token (TokenType.string s) start) rest at h
as_token start (refused e) = refused e

push-Uses :
    {n m : ℕ} (c : ℕ) {r : Outcome (Text × Text × Position)} → Uses n r → n ≤ m → Uses m (push c r)
push-Uses c (used a rest at h) le = used (c ∷ a) rest at (omega arith)
push-Uses c (refused e) le = refused e

if-Uses {ℓ} :
    {A : Type ℓ} {n : ℕ} (b : Bool) {p q : Outcome (A × Text × Position)}
    → Uses n p
    → Uses n q
    → Uses n (if b then p else q)
if-Uses true h k = h
if-Uses false h k = k

more_tokens : (t : Token) (r : Outcome (List Token)) → r ≢ stuck → (r >>= λ ts. ok (t ∷ ts)) ≢ stuck
more_tokens t (ok ts) h stops = cc
more_tokens t (err e) h stops = cc
more_tokens t stuck h stops = h refl

length-read_while :
    (test : ℕ → Bool) (cs : Text) (at : Position) → length (read_while test cs at).1 ≤ length cs
unfolding read_while
length-read_while test [] at = omega arith
length-read_while test (c ∷ cs) at = elim (Bool-cases (test c)) [
  | inl yes_c ↦ rw yes_c (omega (arith, length-read_while test cs (past c at)))
  | inr no_c ↦ rw no_c (omega arith)
]

read_while_first :
    (test : ℕ → Bool) (c : ℕ) (cs : Text) (at : Position)
    → test c ≡ true
    → length (read_while test (c ∷ cs) at).1 ≤ length cs
unfolding read_while
read_while_first test c cs at h = rw h (length-read_while test cs (past c at))

read_chars-Uses :
    (quote : ℕ) (start : Position) (cs : Text) (at : Position)
    → Uses (suc (length cs)) (read_chars quote start cs at)
unfolding read_chars
read_chars-Uses quote start [] at = refused _
read_chars-Uses quote start (c ∷ []) at = elim (Bool-cases (c == quote)) [
  | inl shut ↦ rw shut (used [] [] _ (omega arith))
  | inr more ↦ rw more (elim (Bool-cases (c == 92)) [
    | inl escape ↦ rw escape (refused _)
    | inr plain ↦ rw plain (refused _)
  ])
]
read_chars-Uses quote start (c ∷ d ∷ cs) at = elim (Bool-cases (c == quote)) [
  | inl shut ↦ rw shut (used [] (d ∷ cs) _ (omega arith))
  | inr more ↦ rw more (elim (Bool-cases (c == 92)) [
    | inl escape ↦
        rw escape (
          push-Uses (unescape d) (read_chars-Uses quote start cs (past d (past c at)))
            (omega arith))
    | inr plain ↦
        rw plain (push-Uses c (read_chars-Uses quote start (d ∷ cs) (past c at)) (omega arith))
  ])
]

length-read_if : (c : ℕ) (cs : Text) (at : Position) → length (read_if c cs at).1 ≤ length cs
unfolding read_if
length-read_if c [] at = omega arith
length-read_if c (d ∷ cs) at = elim (Bool-cases (d == c)) [
  | inl same ↦ rw same (omega arith)
  | inr other ↦ rw other (omega arith)
]

length-decimals : (v : Text × Text × Position) → length (decimals v).1 ≤ length v.1
length-decimals ([], cs, at) = omega arith
length-decimals (dot ∷ more, cs, at) = length-read_while is_digit cs at

signed_digits :
    (c : ℕ) (cs : Text) (start : Position)
    → (is_digit c || (c == b'-' && head_is is_digit cs)) ≡ true
    → (let sign = read_if b'-' (c ∷ cs) start in length (read_while is_digit sign.1 sign.2).1)
      ≤ length cs
unfolding read_if
signed_digits c cs start h = elim (Bool-cases (c == b'-')) [
  | inl minus ↦ rw minus (length-read_while is_digit cs (past c start))
  | inr digit ↦ rw digit (read_while_first is_digit c cs start (ground arith))
]

module _ ⦃x : QueryCrates⦄ where
  read_number_first :
      (c : ℕ) (cs : Text) (start : Position)
      → (is_digit c || (c == b'-' && head_is is_digit cs)) ≡ true
      → length (read_number (c ∷ cs) start).1 ≤ length cs
  unfolding read_number
  read_number_first c cs start h =
      let sign = read_if b'-' (c ∷ cs) start in
      let digits = read_while is_digit sign.1 sign.2 in
      omega (
        arith,
        length-decimals (read_if b'.' digits.1 digits.2),
        length-read_if b'.' digits.1 digits.2,
        signed_digits c cs start h,
      )

  read_identifier_first :
      (c : ℕ) (cs : Text) (start : Position)
      → (x.is_alphabetic c || c == b'_') ≡ true
      → length (read_identifier (c ∷ cs) start).1 ≤ length cs
  unfolding read_identifier
  read_identifier_first c cs start h =
      read_while_first (λ d. x.is_alphanumeric d || d == b'_') c cs start
        (ground (arith, x.alphanumeric_of_alphabetic c))

  then_eq-Uses :
      (longer : TokenType) (shorter : Outcome Lexed) (start : Position) (cs : Text) (at : Position)
      → Uses (suc (length cs)) shorter
      → Uses (suc (length cs)) (then_eq longer shorter start cs at)
  then_eq-Uses longer shorter start [] at h = h
  then_eq-Uses longer shorter start (d ∷ cs) at h = elim (Bool-cases (d == b'=')) [
    | inl same ↦ rw same (used _ cs _ (omega arith))
    | inr other ↦ rw other h
  ]

  then_caret-Uses :
      (start : Position) (cs : Text) (at : Position)
      → Uses (suc (length cs)) (then_caret start cs at)
  then_caret-Uses start [] at = refused _
  then_caret-Uses start (d ∷ cs) at = elim (Bool-cases (d == b'~')) [
    | inl tilde ↦
        rw tilde (
          widen (then_eq-Uses TokenType.starts_ci _ start cs (past d at) (refused _)) (omega arith))
    | inr other ↦ rw other (elim (Bool-cases (d == b'=')) [
      | inl same ↦ rw same (used _ cs _ (omega arith))
      | inr bad ↦ rw bad (refused _)
    ])
  ]

  read_mark-Uses :
      (c : ℕ) (cs : Text) (start : Position) → Uses (suc (length cs)) (read_mark c cs start)
  unfolding read_mark
  read_mark-Uses c cs start = if-Uses (c == b'(') (used _ cs _ (omega arith)) (
      if-Uses (c == b')') (used _ cs _ (omega arith)) (
        if-Uses (c == b',') (used _ cs _ (omega arith)) (
          if-Uses (c == b'=') (used _ cs _ (omega arith)) (
            if-Uses (c == b'!') (then_eq-Uses _ _ start cs _ (refused _)) (
              if-Uses (c == b'^') (then_caret-Uses start cs _) (
                if-Uses (c == b'~') (then_eq-Uses _ _ start cs _ (refused _)) (
                  if-Uses (c == b'>') (then_eq-Uses _ _ start cs _ (used _ cs _ (omega arith))) (
                    if-Uses (c == b'<') (then_eq-Uses _ _ start cs _ (used _ cs _ (omega arith)))
                      (refused _)))))))))

  -- The end of the input, or a token for which a character was used.
  pub data Steps (n : ℕ) : Outcome Lexed → Type 0 where
    ended :
        (t : Token) (rest : Text) (at : Position)
        → is_eof t.token_type ≡ true
        → Steps n (ok (t, rest, at))
    stepped :
        (t : Token) (rest : Text) (at : Position) → length rest < n → Steps n (ok (t, rest, at))
    failed : (e : CqlError) → Steps n (err e)

  Uses-Steps : {n m : ℕ} {r : Outcome Lexed} → Uses n r → n ≤ m → Steps m r
  Uses-Steps (used t rest at h) le = stepped t rest at (omega arith)
  Uses-Steps (refused e) le = failed e

  Steps-widen : {n m : ℕ} {r : Outcome Lexed} → Steps n r → n ≤ m → Steps m r
  Steps-widen (ended t rest at e) le = ended t rest at e
  Steps-widen (stepped t rest at h) le = stepped t rest at (omega arith)
  Steps-widen (failed e) le = failed e

  -- What `tokenize` does with the next token.
  after_token :
      (fuel : ℕ) {n : ℕ} {r : Outcome Lexed}
      → Steps n r
      → n ≤ fuel
      → ((cs : Text) (at : Position) → length cs < fuel → tokenize fuel cs at ≢ stuck)
      → (do
        (t, rest, behind) ← r
        let more = tokenize fuel rest behind >>= λ ts. ok (t ∷ ts)
        if is_eof t.token_type then ok (t ∷ []) else more)
        ≢ stuck
  after_token fuel (ended t rest at e) le go stops = let bad = rw e at stops in cc
  after_token fuel (stepped t rest at h) le go stops = elim (Bool-cases (is_eof t.token_type)) [
    | inl done ↦ let bad = rw done at stops in cc
    | inr more ↦ more_tokens t (tokenize fuel rest at) (go rest at (omega arith)) (rw more at stops)
  ]
  after_token fuel (failed e) le go stops = cc

  read_string-Uses :
      (quote : ℕ) (cs : Text) (start : Position)
      → Uses (suc (length cs)) (read_string quote cs start)
  read_string-Uses quote cs start =
      as_token start (read_chars-Uses quote start cs (past quote start))

  read_token-Steps : (cs : Text) (start : Position) → Steps (length cs) (read_token cs start)
  read_token-Steps [] start = ended _ [] start refl
  read_token-Steps (c ∷ cs) start = elim (Bool-cases (c == 34 || c == 39)) [
    | inl quoted ↦ rw quoted (Uses-Steps (read_string-Uses c cs start) (omega arith))
    | inr bare ↦ rw bare (elim (Bool-cases (is_digit c || (c == b'-' && head_is is_digit cs))) [
      | inl numeric ↦
          rw numeric (stepped _ _ _ (omega (arith, read_number_first c cs start numeric)))
      | inr other ↦ rw other (elim (Bool-cases (x.is_alphabetic c || c == b'_')) [
        | inl name ↦ rw name (stepped _ _ _ (omega (arith, read_identifier_first c cs start name)))
        | inr mark ↦ rw mark (Uses-Steps (read_mark-Uses c cs start) (omega arith))
      ])
    ])
  ]

  next_token-Steps : (cs : Text) (at : Position) → Steps (length cs) (next_token cs at)
  unfolding next_token
  next_token-Steps cs at =
      let space = read_while x.is_whitespace cs at in
      Steps-widen (read_token-Steps space.1 space.2) (length-read_while x.is_whitespace cs at)

  pub tokenize_ends :
      (fuel : ℕ) (cs : Text) (at : Position) → length cs < fuel → tokenize fuel cs at ≢ stuck
  unfolding tokenize
  tokenize_ends zero cs at h stops = elim h [ ]
  tokenize_ends (suc fuel) cs at h stops =
      after_token fuel (next_token-Steps cs at) (omega arith) (tokenize_ends fuel) stops
