-- ===== src/Cql/Parser/Ends.antt =====
-- That the parser ends on every list of tokens: the fuel that `parse_tokens` gives is enough, since a
-- part that was parsed leaves fewer tokens.
use cxdb.Prelude.{
  ℕ, zero, suc, ◌<◌, ◌≤◌, ◌≢◌, refl, Bool, Option, none, some, List, [], ◌∷◌, length, ◌||◌, ◌==◌,
  bytes_eq, Bool-cases, inl, inr, arith, String,
}
use cxdb.Cql.Order.{Text}
use cxdb.Cql.Ast.{codes, Operator, Expression, from_str, Position, CqlError, QueryCrates}
use cxdb.Cql.Lexer.{TokenType, Token, Outcome, ok, err, stuck, ◌>>=◌, is_eof, tokenize}
use cxdb.Cql.Lexer.Ends.{tokenize_ends}
use cxdb.Cql.Parser.{
  Parsed, closed, current, is_r_paren, is_l_paren, is_comma, is_not, is_and, is_or, operator_of,
  is_in, parse_value, value_at, parse_values, parse_list, comparison_with, operator_behind,
  known_field, named_by, parse_comparison, parse_primary, parse_unary_expr, parse_more,
  parse_and_expr, or_level, parse_or_expr, parse_tokens, whole, parse, origin,
}

-- The part was parsed with fewer than `n` tokens left, or an error was found.
pub data Fits {ℓ} {A : Type ℓ} (n : ℕ) : Parsed A → Type ℓ where
  parsed : (a : A) (rest : List Token) → length rest < n → Fits n (ok (a, rest))
  refused : (e : CqlError) → Fits n (err e)

pub bind-Fits {ℓ κ} :
    {A : Type ℓ} {B : Type κ} {m n : ℕ} {p : Parsed A} (next : A × List Token → Parsed B)
    → Fits m p
    → ((a : A) (rest : List Token) → length rest < m → Fits n (next (a, rest)))
    → Fits n (p >>= next)
bind-Fits next (parsed a rest h) k = k a rest h
bind-Fits next (refused e) k = refused e

Fits-widen {ℓ} : {A : Type ℓ} {m n : ℕ} {p : Parsed A} → Fits m p → m ≤ n → Fits n p
Fits-widen (parsed a rest h) le = parsed a rest (omega arith)
Fits-widen (refused e) le = refused e

closed-Fits {ℓ} :
    {A : Type ℓ} (text : String) (a : A) (ts : List Token) (n : ℕ)
    → length ts ≤ n
    → Fits n (closed text a ts)
closed-Fits text a [] n h = refused _
closed-Fits text a (t ∷ ts) n h = elim (Bool-cases (is_r_paren t.token_type)) [
  | inl shut ↦ rw shut (parsed a ts (omega arith))
  | inr other ↦ rw other (refused _)
]

module _ ⦃x : QueryCrates⦄ where
  value_at-Fits :
      (k : TokenType) (t : Token) (rest : List Token) → Fits (suc (length rest)) (value_at k t rest)
  value_at-Fits (TokenType.string s) t rest = parsed _ rest (omega arith)
  value_at-Fits (TokenType.number n) t rest = parsed _ rest (omega arith)
  value_at-Fits (TokenType.ident s) t rest =
      elim (Bool-cases (x.to_lowercase s == codes "true" || x.to_lowercase s == codes "false")) [
        | inl word ↦ rw word (parsed _ rest (omega arith))
        | inr other ↦ rw other (refused _)
      ]
  value_at-Fits _ t rest = refused _

  parse_value-Fits : (ts : List Token) → Fits (length ts) (parse_value ts)
  unfolding parse_value
  parse_value-Fits [] = refused _
  parse_value-Fits (t ∷ rest) = value_at-Fits t.token_type t rest

  parse_values-Fits :
      (fuel : ℕ) (ts : List Token)
      → length ts < fuel
      → Fits (suc (length ts)) (parse_values fuel ts)
  unfolding parse_values
  parse_values-Fits zero ts h = elim h [ ]
  parse_values-Fits (suc fuel) [] h = parsed _ [] (omega arith)
  parse_values-Fits (suc fuel) (t ∷ ts) h = elim (Bool-cases (is_comma t.token_type)) [
    | inl more ↦ rw more (
        bind-Fits _ (parse_value-Fits ts) λ v rest less.
          bind-Fits _ (parse_values-Fits fuel rest (omega arith))
            λ vs behind fewer. parsed _ behind (omega arith))
    | inr last ↦ rw last (parsed _ (t ∷ ts) (omega arith))
  ]

  parse_list-Fits :
      (fuel : ℕ) (ts : List Token) → length ts < suc fuel → Fits (length ts) (parse_list fuel ts)
  unfolding parse_list
  parse_list-Fits fuel [] h = refused _
  parse_list-Fits fuel (t ∷ ts) h = elim (Bool-cases (is_l_paren t.token_type)) [
    | inl open_paren ↦ rw open_paren (
        bind-Fits _ (parse_value-Fits ts) λ v rest less.
          bind-Fits _ (parse_values-Fits fuel rest (omega arith))
            λ vs behind fewer. closed-Fits _ _ behind _ (omega arith))
    | inr other ↦ rw other (refused _)
  ]

  comparison_with-Fits :
      (fuel : ℕ) (name : Text) (o : Option Operator) (ts rest : List Token)
      → length rest < suc fuel
      → Fits (suc (length rest)) (comparison_with fuel name o ts rest)
  comparison_with-Fits fuel name none ts rest h = refused _
  comparison_with-Fits fuel name (some o) ts rest h = elim (Bool-cases (is_in o)) [
    | inl yes_in ↦
        rw yes_in
          (bind-Fits _ (parse_list-Fits fuel rest h) λ v behind less. parsed _ behind (omega arith))
    | inr other ↦
        rw other
          (bind-Fits _ (parse_value-Fits rest) λ v behind less. parsed _ behind (omega arith))
  ]

  operator_behind-Fits :
      (fuel : ℕ) (name : Text) (ts : List Token)
      → length ts < suc fuel
      → Fits (suc (length ts)) (operator_behind fuel name ts)
  operator_behind-Fits fuel name [] h = refused _
  operator_behind-Fits fuel name (t ∷ rest) h =
      Fits-widen
        (comparison_with-Fits fuel name (operator_of t.token_type) (t ∷ rest) rest (omega arith))
        (omega arith)

  known_field-Fits {ℓ} :
      {A : Type ℓ} {n : ℕ} {go : Parsed Expression} (o : Option A) (name : Text) (at : Position)
      → Fits n go
      → Fits n (known_field o name at go)
  known_field-Fits none name at fits = refused _
  known_field-Fits (some a) name at fits = fits

  named_by-Fits :
      (fuel : ℕ) (k : TokenType) (t : Token) (rest : List Token)
      → length rest < suc fuel
      → Fits (suc (length rest)) (named_by fuel k t rest)
  named_by-Fits fuel (TokenType.ident name) t rest h =
      known_field-Fits (from_str name) name t.position (operator_behind-Fits fuel name rest h)
  named_by-Fits fuel _ t rest h = refused _

  parse_comparison-Fits :
      (fuel : ℕ) (ts : List Token)
      → length ts < suc fuel
      → Fits (length ts) (parse_comparison fuel ts)
  unfolding parse_comparison
  parse_comparison-Fits fuel [] h = refused _
  parse_comparison-Fits fuel (t ∷ rest) h = named_by-Fits fuel t.token_type t rest (omega arith)

  module _ (inner : List Token → Parsed Expression) (f : ℕ)
      (fits : (ts : List Token) → length ts < f → Fits (length ts) (inner ts)) where
    parse_primary-Fits :
        (ts : List Token) → length ts < suc f → Fits (length ts) (parse_primary inner (suc f) ts)
    unfolding parse_primary
    parse_primary-Fits [] h = parse_comparison-Fits (suc f) [] (omega arith)
    parse_primary-Fits (t ∷ ts) h = elim (Bool-cases (is_l_paren t.token_type)) [
      | inl open_paren ↦ rw open_paren (
          bind-Fits _ (fits ts (omega arith))
            λ e behind less. closed-Fits _ _ behind _ (omega arith))
      | inr other ↦ rw other (parse_comparison-Fits (suc f) (t ∷ ts) (omega arith))
    ]

    parse_unary_expr-Fits :
        (ts : List Token) → length ts < suc f → Fits (length ts) (parse_unary_expr inner (suc f) ts)
    unfolding parse_unary_expr
    parse_unary_expr-Fits [] h = parse_primary-Fits [] h
    parse_unary_expr-Fits (t ∷ ts) h = elim (Bool-cases (is_not t.token_type)) [
      | inl negated ↦ rw negated (
          bind-Fits _ (parse_primary-Fits ts (omega arith))
            λ e behind less. parsed _ behind (omega arith))
      | inr other ↦ rw other (parse_primary-Fits (t ∷ ts) h)
    ]

  parse_more-Fits :
      (is_separator : TokenType → Bool) (join : Expression → Expression → Expression)
      (operand : List Token → Parsed Expression) (bound : ℕ)
      → ((ts : List Token) → length ts < bound → Fits (length ts) (operand ts))
      → (fuel : ℕ) (left : Expression) (ts : List Token) → length ts < fuel
      → length ts < bound
      → Fits (suc (length ts)) (parse_more is_separator join operand fuel left ts)
  unfolding parse_more
  parse_more-Fits is_separator join operand bound fits zero left ts h k = elim h [ ]
  parse_more-Fits is_separator join operand bound fits (suc fuel) left [] h k =
      parsed left [] (omega arith)
  parse_more-Fits is_separator join operand bound fits (suc fuel) left (t ∷ ts) h k =
      elim (Bool-cases (is_separator t.token_type)) [
        | inl more ↦ rw more (
            bind-Fits _ (fits ts (omega arith)) λ right behind less.
              Fits-widen
                (parse_more-Fits is_separator join operand bound fits fuel (join left right) behind
                  (omega arith) (omega arith))
                (omega arith))
        | inr last ↦ rw last (parsed left (t ∷ ts) (omega arith))
      ]

  module _ (inner : List Token → Parsed Expression) (f : ℕ)
      (fits : (ts : List Token) → length ts < f → Fits (length ts) (inner ts)) where
    parse_and_expr-Fits :
        (ts : List Token) → length ts < suc f → Fits (length ts) (parse_and_expr inner (suc f) ts)
    unfolding parse_and_expr
    parse_and_expr-Fits ts h =
        bind-Fits _ (parse_unary_expr-Fits inner f fits ts h) λ left rest less.
          Fits-widen
            (parse_more-Fits is_and Expression.and_also (parse_unary_expr inner (suc f)) (suc f)
              (parse_unary_expr-Fits inner f fits) (suc f) left rest (omega arith) (omega arith))
            (omega arith)

    or_level-Fits :
        (ts : List Token) → length ts < suc f → Fits (length ts) (or_level inner (suc f) ts)
    unfolding or_level
    or_level-Fits ts h = bind-Fits _ (parse_and_expr-Fits ts h) λ left rest less.
        Fits-widen
          (parse_more-Fits is_or Expression.or_else (parse_and_expr inner (suc f)) (suc f)
            parse_and_expr-Fits (suc f) left rest (omega arith) (omega arith))
          (omega arith)

  -- With more fuel than tokens, an expression is parsed and something of the list is used, or an
  -- error is found.
  pub parse_or_expr-Fits :
      (fuel : ℕ) (ts : List Token) → length ts < fuel → Fits (length ts) (parse_or_expr fuel ts)
  unfolding parse_or_expr
  parse_or_expr-Fits zero ts h = elim h [ ]
  parse_or_expr-Fits (suc fuel) ts h =
      or_level-Fits (parse_or_expr fuel) fuel (parse_or_expr-Fits fuel) ts h

  whole_ends :
      (input : Text) {n : ℕ} {p : Parsed Expression} → Fits n p → (p >>= whole input) ≢ stuck
  whole_ends input (parsed e rest h) stops = elim (Bool-cases (is_eof (current rest).token_type)) [
    | inl done ↦ let bad = rw done at stops in cc
    | inr more ↦ let bad = rw more at stops in cc
  ]
  whole_ends input (refused e) stops = cc

  pub parse_tokens_ends : (input : Text) (ts : List Token) → parse_tokens input ts ≢ stuck
  unfolding parse_tokens
  parse_tokens_ends input ts stops = elim (Bool-cases (is_eof (current ts).token_type)) [
    | inl nothing ↦ let bad = rw nothing at stops in cc
    | inr some_token ↦
        whole_ends input (parse_or_expr-Fits (suc (length ts)) ts (omega arith))
          (rw some_token at stops)
  ]

  tokens_end :
      (input : Text) (r : Outcome (List Token)) → r ≢ stuck → (r >>= parse_tokens input) ≢ stuck
  tokens_end input (ok ts) h stops = parse_tokens_ends input ts stops
  tokens_end input (err e) h stops = cc
  tokens_end input stuck h stops = h refl

  -- Lexing and parsing end on every text, with a query or an error: the fuel of the model is never used
  -- up.
  pub parse_ends : (input : Text) → parse input ≢ stuck
  unfolding parse
  parse_ends input =
      tokens_end input (tokenize (suc (length input)) input origin)
        (tokenize_ends (suc (length input)) input origin (omega arith))
