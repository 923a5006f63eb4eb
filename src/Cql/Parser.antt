-- ===== src/Cql/Parser.antt =====
-- The parser of server/src/cql/parser.rs. Its state is the list of the tokens from the current one on;
-- past the end the current token is an end of input. The recursion through parentheses takes fuel, and
-- so do the loops over `OR`, `AND` and commas: one round more than there are tokens.
pub mod Ends
pub mod Printer
pub mod RoundTrip
pub mod Typed
use cxdb.Prelude.{
  ℕ, zero, suc, Bool, true, false, ◌||◌, Option, none, some, List, [], ◌∷◌, ◌==◌, bytes_eq,
  if◌then◌else◌, String, length,
}
use cxdb.Cql.Order.{Text}
use cxdb.Cql.Ast.{
  codes, Operator, Value, Values, Expression, from_str, Position, CqlError, CqlErrorType,
  QueryCrates, CqlQuery,
}
use cxdb.Cql.Lexer.{
  TokenType, Token, Outcome, ok, err, stuck, ◌>>=◌, syntax_error, tokenize, is_eof,
}

abbrev pub origin : Position
origin = record { line = 1; column = 1; offset = 0 }

-- `current`
abbrev pub current : List Token → Token
current [] = record { token_type = TokenType.eof; position = origin }
current (t ∷ ts) = t

-- A parsed part, and the tokens behind it.
abbrev pub Parsed {ℓ} : Type ℓ → Type ℓ
Parsed A = Outcome (A × List Token)

abbrev pub fail {ℓ} : {A : Type ℓ} → String → List Token → Parsed A
fail text ts = err (syntax_error text (current ts).position)

abbrev pub operator_of : TokenType → Option Operator
operator_of TokenType.eq = some Operator.eq
operator_of TokenType.neq = some Operator.neq
operator_of TokenType.starts = some Operator.starts
operator_of TokenType.eq_ci = some Operator.eq_ci
operator_of TokenType.starts_ci = some Operator.starts_ci
operator_of TokenType.gt = some Operator.gt
operator_of TokenType.gte = some Operator.gte
operator_of TokenType.lt = some Operator.lt
operator_of TokenType.lte = some Operator.lte
operator_of TokenType.in_list = some Operator.in_list
operator_of _ = none

abbrev pub is_in : Operator → Bool
is_in Operator.in_list = true
is_in _ = false

-- `check`, for the tokens that the parser tests for.
abbrev pub is_comma : TokenType → Bool
is_comma TokenType.comma = true
is_comma _ = false

abbrev pub is_and : TokenType → Bool
is_and TokenType.and_also = true
is_and _ = false

abbrev pub is_or : TokenType → Bool
is_or TokenType.or_else = true
is_or _ = false

abbrev pub is_not : TokenType → Bool
is_not TokenType.negated = true
is_not _ = false

abbrev pub is_l_paren : TokenType → Bool
is_l_paren TokenType.l_paren = true
is_l_paren _ = false

abbrev pub is_r_paren : TokenType → Bool
is_r_paren TokenType.r_paren = true
is_r_paren _ = false

-- `if !match_token(RParen) { return Err(..) }`, and what is given.
abbrev pub closed {ℓ} : {A : Type ℓ} → String → A → List Token → Parsed A
closed text a [] = fail text []
closed text a (t ∷ ts) = if is_r_paren t.token_type then ok (a, ts) else fail text (t ∷ ts)

module _ ⦃x : QueryCrates⦄ where
  abbrev pub text_value : Text → Option (Text × Text) → Value
  text_value s none = Value.string s
  text_value s (some groups) = Value.date s true

  -- `true` and `false` in any case
  abbrev pub word_value : Text → Text → List Token → Token → Parsed Value
  word_value s low rest t =
      if low == codes "true" || low == codes "false"
      then ok (Value.string low, rest)
      else fail "Expected value" (t ∷ rest)

  abbrev pub value_at : TokenType → Token → List Token → Parsed Value
  value_at (TokenType.string s) t rest = ok (text_value s (x.relative_captures s), rest)
  value_at (TokenType.number n) t rest = ok (Value.number n, rest)
  value_at (TokenType.ident s) t rest = word_value s (x.to_lowercase s) rest t
  value_at _ t rest = fail "Expected value" (t ∷ rest)

  unfoldable pub parse_value : List Token → Parsed Value
  parse_value [] = fail "Expected value" []
  parse_value (t ∷ rest) = value_at t.token_type t rest

  -- The loop of `parse_list` behind a value.
  unfoldable pub parse_values : ℕ → List Token → Parsed Values
  unfolding parse_value
  parse_values zero ts = stuck
  parse_values (suc fuel) [] = ok (Values.nil, [])
  parse_values (suc fuel) (t ∷ ts) =
      let more = (do
        (v, rest) ← parse_value ts
        (vs, behind) ← parse_values fuel rest
        ok (Values.cons v vs, behind)) in
      if is_comma t.token_type then more else ok (Values.nil, t ∷ ts)

  abbrev pub list_behind : ℕ → List Token → Parsed Value
  list_behind fuel ts = do
    (v, rest) ← parse_value ts
    (vs, behind) ← parse_values fuel rest
    closed "Expected ')' after list values" (Value.list (Values.cons v vs)) behind

  unfoldable pub parse_list : ℕ → List Token → Parsed Value
  unfolding parse_value parse_values
  parse_list fuel [] = fail "Expected '(' after IN" []
  parse_list fuel (t ∷ ts) =
      if is_l_paren t.token_type then list_behind fuel ts else fail "Expected '(' after IN" (t ∷ ts)

  abbrev pub unknown_field : Text → Position → CqlError
  unknown_field name at = record {
    error_type = CqlErrorType.unknown_field;
    message = "Unknown field";
    position = some at;
    field = some name;
  }

  -- Behind a field's name: the operator, and the value that it takes.
  abbrev pub comparison_with :
      ℕ → Text → Option Operator → List Token → List Token → Parsed Expression
  comparison_with fuel name none ts rest = fail "Expected operator" ts
  comparison_with fuel name (some o) ts rest = do
    (value, behind) ← if is_in o then parse_list fuel rest else parse_value rest
    ok (Expression.comparison name o value, behind)

  abbrev pub operator_behind : ℕ → Text → List Token → Parsed Expression
  operator_behind fuel name [] = fail "Expected operator" []
  operator_behind fuel name (t ∷ rest) =
      comparison_with fuel name (operator_of t.token_type) (t ∷ rest) rest

  abbrev pub known_field {ℓ} :
      {A : Type ℓ} → Option A → Text → Position → Parsed Expression → Parsed Expression
  known_field none name at go = err (unknown_field name at)
  known_field (some f) name at go = go

  abbrev pub named_by : ℕ → TokenType → Token → List Token → Parsed Expression
  named_by fuel (TokenType.ident name) t rest =
      known_field (from_str name) name t.position (operator_behind fuel name rest)
  named_by fuel _ t rest = fail "Expected field name" (t ∷ rest)

  unfoldable pub parse_comparison : ℕ → List Token → Parsed Expression
  unfolding parse_list parse_value from_str
  parse_comparison fuel [] = fail "Expected field name" []
  parse_comparison fuel (t ∷ rest) = named_by fuel t.token_type t rest

  -- The levels of the grammar over the parser `inner` of what stands in parentheses.
  module _ (inner : List Token → Parsed Expression) (fuel : ℕ) where
    abbrev pub parenthesised : List Token → Parsed Expression
    parenthesised ts = do (e, behind) ← inner ts; closed "Expected ')' after expression" e behind

    unfoldable pub parse_primary : List Token → Parsed Expression
    unfolding parse_comparison
    parse_primary [] = parse_comparison fuel []
    parse_primary (t ∷ rest) =
        if is_l_paren t.token_type then parenthesised rest else parse_comparison fuel (t ∷ rest)

    abbrev pub negation : List Token → Parsed Expression
    negation ts = do (e, behind) ← parse_primary ts; ok (Expression.negated e, behind)

    unfoldable pub parse_unary_expr : List Token → Parsed Expression
    unfolding parse_primary
    parse_unary_expr [] = parse_primary []
    parse_unary_expr (t ∷ rest) =
        if is_not t.token_type then negation rest else parse_primary (t ∷ rest)

  -- The loops over operands behind a separator.
  unfoldable pub parse_more :
      (TokenType → Bool)
      → (Expression → Expression → Expression)
      → (List Token → Parsed Expression)
      → ℕ
      → Expression
      → List Token
      → Parsed Expression
  parse_more is_separator join operand zero left ts = stuck
  parse_more is_separator join operand (suc fuel) left [] = ok (left, [])
  parse_more is_separator join operand (suc fuel) left (t ∷ ts) =
      let more = (do
        (right, behind) ← operand ts
        parse_more is_separator join operand fuel (join left right) behind) in
      if is_separator t.token_type then more else ok (left, t ∷ ts)

  module _ (inner : List Token → Parsed Expression) (fuel : ℕ) where
    unfoldable pub parse_and_expr : List Token → Parsed Expression
    unfolding parse_unary_expr parse_more
    parse_and_expr ts = do
      (left, rest) ← parse_unary_expr inner fuel ts
      parse_more is_and Expression.and_also (parse_unary_expr inner fuel) fuel left rest

    unfoldable pub or_level : List Token → Parsed Expression
    unfolding parse_and_expr parse_more
    or_level ts = do
      (left, rest) ← parse_and_expr ts
      parse_more is_or Expression.or_else parse_and_expr fuel left rest

  unfoldable pub parse_or_expr : ℕ → List Token → Parsed Expression
  unfolding or_level
  parse_or_expr zero ts = stuck
  parse_or_expr (suc fuel) ts = or_level (parse_or_expr fuel) (suc fuel) ts

  -- An expression, and nothing behind it.
  abbrev pub whole : Text → Expression × List Token → Outcome CqlQuery
  whole input (e, rest) =
      if is_eof (current rest).token_type
      then ok (record { raw = input; ast = e })
      else err (syntax_error "Unexpected token after expression" (current rest).position)

  unfoldable pub parse_tokens : Text → List Token → Outcome CqlQuery
  unfolding parse_or_expr
  parse_tokens input ts =
      if is_eof (current ts).token_type
      then err (syntax_error "Empty query" (current ts).position)
      else parse_or_expr (suc (length ts)) ts >>= whole input

  unfoldable pub parse : Text → Outcome CqlQuery
  unfolding tokenize parse_tokens
  parse input = tokenize (suc (length input)) input origin >>= parse_tokens input
