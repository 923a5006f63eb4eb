-- ===== src/Cql/Parser/Typed.antt =====
-- That what the parser gives is a query: its fields are known and its values fit their operators. And
-- that executing a query never fails for an unknown field.
use cxdb.Prelude.{
  ℕ, zero, suc, ◌≡◌, refl, ap, ◌∙◌, Bool, true, false, ◌||◌, ◌==◌, nat_eq, bytes_eq, bytes_beq_iff,
  Option, none, some, List, [], ◌∷◌, length, Bool-cases, Option-cases, inl, inr, arith, String,
  if◌then◌else◌,
}
use cxdb.Cql.Order.{Text}
use cxdb.Cql.Ast.{
  codes, Operator, Value, Expression, FieldName, from_str, CqlError, QueryCrates, CqlQuery,
}
use cxdb.Cql.Lexer.{TokenType, Token, Outcome, ok, err, stuck, ◌>>=◌, is_eof, tokenize}
use cxdb.Cql.Parser.{
  Parsed, closed, current, is_in, is_and, is_or, is_not, is_comma, is_l_paren, is_r_paren,
  operator_of, text_value, value_at, parse_value, parse_values, parse_list, comparison_with,
  operator_behind, named_by, parse_comparison, parse_primary, parse_unary_expr, parse_more,
  parse_and_expr, or_level, parse_or_expr, parse_tokens, whole, parse, origin,
}
use cxdb.Cql.Parser.Printer.{IsScalar, AreScalars, Takes, IsQuery}

-- What is parsed, if anything is, satisfies the predicate.
data Gives {A : Type 0} (P : A → Type 0) : Parsed A → Type 0 where
  given : (a : A) (rest : List Token) → P a → Gives P (ok (a, rest))
  refused : (e : CqlError) → Gives P (err e)
  unfinished : Gives P stuck

bind-Gives :
    {A B : Type 0} {P : A → Type 0} {Q : B → Type 0} {p : Parsed A}
    (next : A × List Token → Parsed B)
    → Gives P p
    → ((a : A) (rest : List Token) → P a → Gives Q (next (a, rest)))
    → Gives Q (p >>= next)
bind-Gives next (given a rest h) k = k a rest h
bind-Gives next (refused e) k = refused e
bind-Gives next unfinished k = unfinished

if-Gives :
    {A : Type 0} {P : A → Type 0} (b : Bool) {p q : Parsed A}
    → Gives P p
    → Gives P q
    → Gives P (if b then p else q)
if-Gives true h k = h
if-Gives false h k = k

closed-Gives :
    {A : Type 0} {P : A → Type 0} (text : String) (a : A) (ts : List Token)
    → P a
    → Gives P (closed text a ts)
closed-Gives text a [] h = refused _
closed-Gives text a (t ∷ ts) h = if-Gives (is_r_paren t.token_type) (given a ts h) (refused _)

is_in_lem : (o : Operator) → is_in o ≡ true → o ≡ Operator.in_list
is_in_lem Operator.in_list h = refl
is_in_lem _ h = cc

module _ ⦃x : QueryCrates⦄ where
  -- A text that does not start with a dash is no relative date.
  undated : (c : ℕ) (s : Text) → (c == b'-') ≡ false → x.relative_captures (c ∷ s) ≡ none
  undated c s h = elim (Option-cases (x.relative_captures (c ∷ s))) [
    | inl e ↦ e
    | inr (groups, e) ↦
        let dash = (x.relative_captures_head (c ∷ s) groups e).1 in ground (arith, dash)
  ]

  text_value-IsScalar : (s : Text) → IsScalar (text_value s (x.relative_captures s))
  text_value-IsScalar s = elim (Option-cases (x.relative_captures s)) [
    | inl e ↦ rw e (IsScalar.text e)
    | inr (groups, e) ↦ rw e (IsScalar.date groups e)
  ]

  word-IsScalar :
      (low : Text)
      → (low == codes "true" || low == codes "false") ≡ true
      → IsScalar (Value.string low)
  word-IsScalar low h = elim (Bool-cases (low == codes "true")) [
    | inl yes_true ↦
        let e = (bytes_beq_iff low (codes "true")).0 yes_true in
        IsScalar.text (ap x.relative_captures e ∙ undated b't' (codes "rue") refl)
    | inr other ↦
        let e = (bytes_beq_iff low (codes "false")).0 (rw other at h) in
        IsScalar.text (ap x.relative_captures e ∙ undated b'f' (codes "alse") refl)
  ]

  value_at-Gives :
      (k : TokenType) (t : Token) (rest : List Token) → Gives IsScalar (value_at k t rest)
  value_at-Gives (TokenType.string s) t rest = given _ rest (text_value-IsScalar s)
  value_at-Gives (TokenType.number n) t rest = given _ rest IsScalar.number
  value_at-Gives (TokenType.ident s) t rest =
      elim (Bool-cases (x.to_lowercase s == codes "true" || x.to_lowercase s == codes "false")) [
        | inl word ↦ rw word (given _ rest (word-IsScalar (x.to_lowercase s) word))
        | inr other ↦ rw other (refused _)
      ]
  value_at-Gives _ t rest = refused _

  parse_value-Gives : (ts : List Token) → Gives IsScalar (parse_value ts)
  unfolding parse_value
  parse_value-Gives [] = refused _
  parse_value-Gives (t ∷ rest) = value_at-Gives t.token_type t rest

  parse_values-Gives : (fuel : ℕ) (ts : List Token) → Gives AreScalars (parse_values fuel ts)
  unfolding parse_values
  parse_values-Gives zero ts = unfinished
  parse_values-Gives (suc fuel) [] = given _ [] AreScalars.nil
  parse_values-Gives (suc fuel) (t ∷ ts) =
      if-Gives (is_comma t.token_type)
        (bind-Gives _ (parse_value-Gives ts) λ v rest first.
          bind-Gives _ (parse_values-Gives fuel rest)
            λ vs behind more. given _ behind (AreScalars.cons first more))
        (given _ (t ∷ ts) AreScalars.nil)

  parse_list-Gives :
      (fuel : ℕ) (ts : List Token) → Gives (Takes Operator.in_list) (parse_list fuel ts)
  unfolding parse_list
  parse_list-Gives fuel [] = refused _
  parse_list-Gives fuel (t ∷ ts) =
      if-Gives (is_l_paren t.token_type)
        (bind-Gives _ (parse_value-Gives ts) λ v rest first.
          bind-Gives _ (parse_values-Gives fuel rest)
            λ vs behind more. closed-Gives _ _ behind (Takes.several first more))
        (refused _)

  comparison_with-Gives :
      (fuel : ℕ) (name : Text) (f : FieldName) (o : Option Operator) (ts rest : List Token)
      → from_str name ≡ some f
      → Gives IsQuery (comparison_with fuel name o ts rest)
  comparison_with-Gives fuel name f none ts rest known = refused _
  comparison_with-Gives fuel name f (some o) ts rest known = elim (Bool-cases (is_in o)) [
    | inl listed ↦ rw listed (
        bind-Gives _ (parse_list-Gives fuel rest) λ v behind takes.
          given _ behind (rw (is_in_lem o listed) (IsQuery.comparison f known takes)))
    | inr other ↦ rw other (
        bind-Gives _ (parse_value-Gives rest) λ v behind scalar.
          given _ behind (IsQuery.comparison f known (Takes.single other scalar)))
  ]

  operator_behind-Gives :
      (fuel : ℕ) (name : Text) (f : FieldName) (ts : List Token)
      → from_str name ≡ some f
      → Gives IsQuery (operator_behind fuel name ts)
  operator_behind-Gives fuel name f [] known = refused _
  operator_behind-Gives fuel name f (t ∷ rest) known =
      comparison_with-Gives fuel name f (operator_of t.token_type) (t ∷ rest) rest known

  named_by-Gives :
      (fuel : ℕ) (k : TokenType) (t : Token) (rest : List Token)
      → Gives IsQuery (named_by fuel k t rest)
  named_by-Gives fuel (TokenType.ident name) t rest = elim (Option-cases (from_str name)) [
    | inl unknown ↦ rw unknown (refused _)
    | inr (f, known) ↦ rw known (operator_behind-Gives fuel name f rest known)
  ]
  named_by-Gives fuel _ t rest = refused _

  parse_comparison-Gives : (fuel : ℕ) (ts : List Token) → Gives IsQuery (parse_comparison fuel ts)
  unfolding parse_comparison
  parse_comparison-Gives fuel [] = refused _
  parse_comparison-Gives fuel (t ∷ rest) = named_by-Gives fuel t.token_type t rest

  parse_more-Gives :
      (is_separator : TokenType → Bool) (join : Expression → Expression → Expression)
      (operand : List Token → Parsed Expression)
      → ((a b : Expression) → IsQuery a → IsQuery b → IsQuery (join a b))
      → ((ts : List Token) → Gives IsQuery (operand ts))
      → (fuel : ℕ) (left : Expression) (ts : List Token) → IsQuery left
      → Gives IsQuery (parse_more is_separator join operand fuel left ts)
  unfolding parse_more
  parse_more-Gives is_separator join operand both one zero left ts query = unfinished
  parse_more-Gives is_separator join operand both one (suc fuel) left [] query = given left [] query
  parse_more-Gives is_separator join operand both one (suc fuel) left (t ∷ ts) query =
      if-Gives (is_separator t.token_type)
        (bind-Gives _ (one ts) λ right behind right_query.
          parse_more-Gives is_separator join operand both one fuel (join left right) behind
            (both left right query right_query))
        (given left (t ∷ ts) query)

  module _ (inner : List Token → Parsed Expression) (fuel : ℕ)
      (gives : (ts : List Token) → Gives IsQuery (inner ts)) where
    parse_primary-Gives : (ts : List Token) → Gives IsQuery (parse_primary inner fuel ts)
    unfolding parse_primary
    parse_primary-Gives [] = parse_comparison-Gives fuel []
    parse_primary-Gives (t ∷ ts) =
        if-Gives (is_l_paren t.token_type)
          (bind-Gives _ (gives ts) λ e behind query. closed-Gives _ e behind query)
          (parse_comparison-Gives fuel (t ∷ ts))

    parse_unary_expr-Gives : (ts : List Token) → Gives IsQuery (parse_unary_expr inner fuel ts)
    unfolding parse_unary_expr
    parse_unary_expr-Gives [] = parse_primary-Gives []
    parse_unary_expr-Gives (t ∷ ts) =
        if-Gives (is_not t.token_type)
          (bind-Gives _ (parse_primary-Gives ts)
            λ e behind query. given _ behind (IsQuery.negated query))
          (parse_primary-Gives (t ∷ ts))

    parse_and_expr-Gives : (ts : List Token) → Gives IsQuery (parse_and_expr inner fuel ts)
    unfolding parse_and_expr
    parse_and_expr-Gives ts = bind-Gives _ (parse_unary_expr-Gives ts) (
        parse_more-Gives is_and Expression.and_also (parse_unary_expr inner fuel)
          (λ a b. IsQuery.and_also {l = a} {r = b}) parse_unary_expr-Gives fuel)

    or_level-Gives : (ts : List Token) → Gives IsQuery (or_level inner fuel ts)
    unfolding or_level
    or_level-Gives ts = bind-Gives _ (parse_and_expr-Gives ts) (
        parse_more-Gives is_or Expression.or_else (parse_and_expr inner fuel)
          (λ a b. IsQuery.or_else {l = a} {r = b}) parse_and_expr-Gives fuel)

  parse_or_expr-Gives : (fuel : ℕ) (ts : List Token) → Gives IsQuery (parse_or_expr fuel ts)
  unfolding parse_or_expr
  parse_or_expr-Gives zero ts = unfinished
  parse_or_expr-Gives (suc fuel) ts =
      or_level-Gives (parse_or_expr fuel) (suc fuel) (parse_or_expr-Gives fuel) ts

  whole-IsQuery :
      (input : Text) {p : Parsed Expression} (q : CqlQuery)
      → Gives IsQuery p
      → (p >>= whole input) ≡ ok q
      → IsQuery q.ast × (q.raw ≡ input)
  whole-IsQuery input q (given e rest query) h =
      elim (Bool-cases (is_eof (current rest).token_type)) [
        | inl done ↦
            let made : ok (record { raw = input; ast = e }) ≡ ok q = rw done at h in
            let same : record { raw = input; ast = e } ≡ q = cc in rw (← same) (query, refl)
        | inr more ↦ let bad = rw more at h in cc
      ]
  whole-IsQuery input q (refused e) h = cc
  whole-IsQuery input q unfinished h = cc

  parse_tokens-IsQuery :
      (input : Text) (ts : List Token) (q : CqlQuery)
      → parse_tokens input ts ≡ ok q
      → IsQuery q.ast × (q.raw ≡ input)
  unfolding parse_tokens
  parse_tokens-IsQuery input ts q h = elim (Bool-cases (is_eof (current ts).token_type)) [
    | inl nothing ↦ let bad = rw nothing at h in cc
    | inr some_token ↦
        whole-IsQuery input q (parse_or_expr-Gives (suc (length ts)) ts) (rw some_token at h)
  ]

  from_tokens :
      (input : Text) (q : CqlQuery) (r : Outcome (List Token))
      → (r >>= parse_tokens input) ≡ ok q
      → IsQuery q.ast × (q.raw ≡ input)
  from_tokens input q (ok ts) h = parse_tokens-IsQuery input ts q h
  from_tokens input q (err e) h = cc
  from_tokens input q stuck h = cc

  -- Where a text is parsed, every field of the query is known, `IN` has a list of at least one single
  -- value and every other operator a single value, and the query keeps the text.
  pub parse-IsQuery :
      (input : Text) (q : CqlQuery) → parse input ≡ ok q → IsQuery q.ast × (q.raw ≡ input)
  unfolding parse
  parse-IsQuery input q h = from_tokens input q (tokenize (suc (length input)) input origin) h
