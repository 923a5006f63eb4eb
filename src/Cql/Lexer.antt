-- ===== src/Cql/Lexer.antt =====
-- The lexer of server/src/cql/parser.rs. Its state is the characters that are left and the position;
-- the loops over characters are recursions on what is left.
pub mod Ends
use cxdb.Prelude.{
  ℕ, zero, suc, ◌+◌, ◌-◌, Bool, true, false, not, ◌&&◌, ◌||◌, Option, none, some, List, [], ◌∷◌,
  ◌++◌, ◌==◌, nat_eq, bytes_eq, ltb, leb, if◌then◌else◌, String, length,
}
use cxdb.Cql.Order.{Text}
use cxdb.Cql.Ast.{codes, Position, CqlError, CqlErrorType, QueryCrates}

pub data TokenType : Type 0 where
  and_also : TokenType
  or_else : TokenType
  negated : TokenType
  in_list : TokenType
  l_paren : TokenType
  r_paren : TokenType
  comma : TokenType
  eq : TokenType
  neq : TokenType
  starts : TokenType
  eq_ci : TokenType
  starts_ci : TokenType
  gt : TokenType
  gte : TokenType
  lt : TokenType
  lte : TokenType
  string : Text → TokenType
  number : ℕ → TokenType
  ident : Text → TokenType
  eof : TokenType

pub record Token : Type 0 where
  pub token_type : TokenType
  pub position : Position

-- A `Result` with `CqlError`; `stuck` is no value of the code, a loop of the model ran out of fuel.
pub data Outcome {ℓ} (A : Type ℓ) : Type ℓ where
  ok : A → Outcome A
  err : CqlError → Outcome A
  stuck : Outcome A

infixl 5 ◌>>=◌
abbrev pub ◌>>=◌ {ℓ κ} : {V : Type ℓ} {W : Type κ} → Outcome V → (V → Outcome W) → Outcome W
stuck >>= next = stuck
err e >>= next = err e
ok v >>= next = next v

abbrev pub syntax_error : String → Position → CqlError
syntax_error text at = record {
  error_type = CqlErrorType.syntax_error;
  message = text;
  position = some at;
  field = none;
}

abbrev pub len_utf8 : ℕ → ℕ
len_utf8 c = if ltb c 0x80 then 1 else if ltb c 0x800 then 2 else if ltb c 0x10000 then 3 else 4

abbrev pub is_eof : TokenType → Bool
is_eof TokenType.eof = true
is_eof _ = false

-- `advance`: the position behind a character.
unfoldable pub past : ℕ → Position → Position
past c at =
    if c == 10
    then record { line = at.line + 1; column = 1; offset = at.offset + len_utf8 c }
    else record at { column = at.column + 1; offset = at.offset + len_utf8 c }

-- `while let Some(ch) = self.peek()` as long as the test holds: what was read, and the state.
unfoldable pub read_while : (ℕ → Bool) → Text → Position → Text × Text × Position
unfolding past
read_while test [] at = ([], [], at)
read_while test (c ∷ cs) at =
    let rest = read_while test cs (past c at) in
    if test c then (c ∷ rest.0, rest.1, rest.2) else ([], c ∷ cs, at)

abbrev pub unescape : ℕ → ℕ
unescape c = if c == b'n' then 10 else if c == b't' then 9 else if c == b'r' then 13 else c

abbrev pub push : ℕ → Outcome (Text × Text × Position) → Outcome (Text × Text × Position)
push c r = r >>= λ v. ok (c ∷ v.0, v.1, v.2)

-- The loop of `read_string` behind the opening quote.
unfoldable pub read_chars : ℕ → Position → Text → Position → Outcome (Text × Text × Position)
unfolding past
read_chars quote start [] at = err (syntax_error "Unterminated string" start)
read_chars quote start (c ∷ []) at =
    if c == quote
    then ok ([], [], past c at)
    else if c == 92
    then err (syntax_error "Unterminated escape sequence" (past c at))
    else err (syntax_error "Unterminated string" start)
read_chars quote start (c ∷ d ∷ cs) at =
    let escaped = push (unescape d) (read_chars quote start cs (past d (past c at))) in
    let plain = push c (read_chars quote start (d ∷ cs) (past c at)) in
    if c == quote then ok ([], d ∷ cs, past c at) else if c == 92 then escaped else plain

-- A token, and the state behind it.
abbrev pub Lexed : Type 0
Lexed = Token × Text × Position

abbrev pub token : TokenType → Position → Token
token t at = record { token_type = t; position = at }

abbrev pub read_string : ℕ → Text → Position → Outcome Lexed
read_string quote cs start = read_chars quote start cs (past quote start) >>= λ v.
    ok (token (TokenType.string v.0) start, v.1, v.2)

abbrev pub is_digit : ℕ → Bool
is_digit c = leb b'0' c && leb c b'9'

abbrev pub head_is : (ℕ → Bool) → Text → Bool
head_is test [] = false
head_is test (c ∷ cs) = test c

-- A character that is read where it stands next.
unfoldable pub read_if : ℕ → Text → Position → Text × Text × Position
unfolding past
read_if c [] at = ([], [], at)
read_if c (d ∷ cs) at = if d == c then (d ∷ [], cs, past d at) else ([], d ∷ cs, at)

abbrev pub decimals : Text × Text × Position → Text × Text × Position
decimals ([], cs, at) = ([], cs, at)
decimals (dot ∷ more, cs, at) =
    let digits = read_while is_digit cs at in (dot ∷ digits.0, digits.1, digits.2)

module _ ⦃x : QueryCrates⦄ where
  abbrev pub or_zero : Option ℕ → ℕ
  or_zero none = 0
  or_zero (some n) = n

  unfoldable pub read_number : Text → Position → Lexed
  unfolding read_if read_while
  read_number cs start =
      let sign = read_if b'-' cs start in
      let digits = read_while is_digit sign.1 sign.2 in
      let decimal = decimals (read_if b'.' digits.1 digits.2) in
      let value = or_zero (x.parse_f64 (sign.0 ++ (digits.0 ++ decimal.0))) in
      (token (TokenType.number value) start, decimal.1, decimal.2)

  abbrev pub keyword : Text → Text → TokenType
  keyword upper value =
      if upper == codes "AND"
      then TokenType.and_also
      else if upper == codes "OR"
      then TokenType.or_else
      else if upper == codes "NOT"
      then TokenType.negated
      else if upper == codes "IN"
      then TokenType.in_list
      else TokenType.ident value

  unfoldable pub read_identifier : Text → Position → Lexed
  unfolding read_while
  read_identifier cs start =
      let name = read_while (λ c. x.is_alphanumeric c || c == b'_') cs start in
      (token (keyword (x.to_uppercase name.0) name.0) start, name.1, name.2)

  -- An operator of one character, or of two where `=` is next.
  abbrev pub then_eq : TokenType → Outcome Lexed → Position → Text → Position → Outcome Lexed
  then_eq longer shorter start [] at = shorter
  then_eq longer shorter start (d ∷ cs) at =
      if d == b'=' then ok (token longer start, cs, past d at) else shorter

  abbrev pub then_caret : Position → Text → Position → Outcome Lexed
  then_caret start [] at = err (syntax_error "Expected '=' or '~=' after '^'" start)
  then_caret start (d ∷ cs) at =
      if d == b'~'
      then then_eq TokenType.starts_ci (err (syntax_error "Expected '=' after '^~'" start)) start cs
          (past d at)
      else if d == b'='
      then ok (token TokenType.starts start, cs, past d at)
      else err (syntax_error "Expected '=' or '~=' after '^'" start)

  -- The tokens that start with a mark.
  unfoldable pub read_mark : ℕ → Text → Position → Outcome Lexed
  unfolding past
  read_mark c cs start =
      let at = past c start in
      if c == b'('
      then ok (token TokenType.l_paren start, cs, at)
      else if c == b')'
      then ok (token TokenType.r_paren start, cs, at)
      else if c == b','
      then ok (token TokenType.comma start, cs, at)
      else if c == b'='
      then ok (token TokenType.eq start, cs, at)
      else if c == b'!'
      then then_eq TokenType.neq (err (syntax_error "Expected '=' after '!'" start)) start cs at
      else if c == b'^'
      then then_caret start cs at
      else if c == b'~'
      then then_eq TokenType.eq_ci (err (syntax_error "Expected '=' after '~'" start)) start cs at
      else if c == b'>'
      then then_eq TokenType.gte (ok (token TokenType.gt start, cs, at)) start cs at
      else if c == b'<'
      then then_eq TokenType.lte (ok (token TokenType.lt start, cs, at)) start cs at
      else err (syntax_error "Unexpected character" start)

  abbrev pub read_token : Text → Position → Outcome Lexed
  read_token [] start = ok (token TokenType.eof start, [], start)
  read_token (c ∷ cs) start =
      if c == 34 || c == 39
      then read_string c cs start
      else if is_digit c || (c == b'-' && head_is is_digit cs)
      then ok (read_number (c ∷ cs) start)
      else if x.is_alphabetic c || c == b'_'
      then ok (read_identifier (c ∷ cs) start)
      else read_mark c cs start

  unfoldable pub next_token : Text → Position → Outcome Lexed
  unfolding read_while read_number read_identifier read_mark read_chars past
  next_token cs at = let space = read_while x.is_whitespace cs at in read_token space.1 space.2

  unfoldable pub tokenize : ℕ → Text → Position → Outcome (List Token)
  unfolding next_token
  tokenize zero cs at = stuck
  tokenize (suc fuel) cs at = do
    (t, rest, behind) ← next_token cs at
    let more = tokenize fuel rest behind >>= λ ts. ok (t ∷ ts)
    if is_eof t.token_type then ok (t ∷ []) else more
