-- ===== src/Cql/Parser/RoundTrip.antt =====
-- That the parser reads back every expression from its printed tokens.
use cxdb.Prelude.{
  ℕ, zero, suc, ◌<◌, ◌≤◌, ◌≡◌, refl, Bool, true, false, some, List, [], ◌∷◌, length, arith,
}
use cxdb.Cql.Order.{Text}
use cxdb.Cql.Ast.{Operator, Value, Values, Expression, FieldName, from_str, Position, QueryCrates}
use cxdb.Cql.Lexer.{TokenType, Token, ok, token}
use cxdb.Cql.Parser.{
  Parsed, current, is_and, is_or, operator_of, parse_value, parse_values, parse_list,
  parse_comparison, parse_primary, parse_unary_expr, parse_more, parse_and_expr, or_level,
  parse_or_expr, parse_tokens,
}
use cxdb.Cql.Parser.Printer.{
  IsScalar, AreScalars, Takes, IsQuery, operator_token, scalar_token, Level, print_values,
  print_value, print, shut, length-print, current-print,
}

-- No loop goes on with what stands behind the expression.
abbrev pub Stops : List Token → Type 0
Stops rest = (is_and (current rest).token_type ≡ false) × (is_or (current rest).token_type ≡ false)

operator_of-operator_token : (o : Operator) → operator_of (operator_token o) ≡ some o
operator_of-operator_token Operator.eq = refl
operator_of-operator_token Operator.neq = refl
operator_of-operator_token Operator.starts = refl
operator_of-operator_token Operator.eq_ci = refl
operator_of-operator_token Operator.starts_ci = refl
operator_of-operator_token Operator.gt = refl
operator_of-operator_token Operator.gte = refl
operator_of-operator_token Operator.lt = refl
operator_of-operator_token Operator.lte = refl
operator_of-operator_token Operator.in_list = refl

module _ ⦃x : QueryCrates⦄ (at : Position) where
  parse_value-scalar :
      {v : Value} (rest : List Token)
      → IsScalar v
      → parse_value (token (scalar_token v) at ∷ rest) ≡ ok (v, rest)
  unfolding parse_value
  parse_value-scalar rest (IsScalar.text e) = rw e refl
  parse_value-scalar rest (IsScalar.date groups e) = rw e refl
  parse_value-scalar rest IsScalar.number = refl

  parse_values-print_values :
      {vs : Values} (fuel : ℕ) (rest : List Token)
      → AreScalars vs
      → length (print_values at vs (shut at rest)) < fuel
      → parse_values fuel (print_values at vs (shut at rest)) ≡ ok (vs, shut at rest)
  unfolding parse_values print_values
  parse_values-print_values zero rest scalars h = elim h [ ]
  parse_values-print_values (suc fuel) rest AreScalars.nil h = refl
  parse_values-print_values (suc fuel) rest (AreScalars.cons {v} {vs} first more) h =
      rw (parse_value-scalar (print_values at vs (shut at rest)) first)
        (rw (parse_values-print_values fuel rest more (omega arith)) refl)

  print_value-scalar :
      {v : Value} (rest : List Token)
      → IsScalar v
      → print_value at v rest ≡ token (scalar_token v) at ∷ rest
  unfolding print_value
  print_value-scalar rest (IsScalar.text e) = refl
  print_value-scalar rest (IsScalar.date groups e) = refl
  print_value-scalar rest IsScalar.number = refl

  parse_list-print :
      {v : Value} {vs : Values} (fuel : ℕ) (rest : List Token)
      → IsScalar v
      → AreScalars vs
      → length (print_value at (Value.list (Values.cons v vs)) rest) ≤ fuel
      → parse_list fuel (print_value at (Value.list (Values.cons v vs)) rest)
        ≡ ok (Value.list (Values.cons v vs), rest)
  unfolding parse_list print_value
  parse_list-print {v} {vs} fuel rest first more h =
      rw (parse_value-scalar (print_values at vs (shut at rest)) first)
        (rw (parse_values-print_values fuel rest more (omega arith)) refl)

  parse_comparison-print :
      {field : Text} {o : Operator} {v : Value} (name : FieldName) (fuel : ℕ) (rest : List Token)
      → from_str field ≡ some name
      → Takes o v
      → length (print_value at v rest) ≤ fuel
      → parse_comparison fuel
          (token (TokenType.ident field) at ∷ token (operator_token o) at ∷ print_value at v rest)
        ≡ ok (Expression.comparison field o v, rest)
  unfolding parse_comparison
  parse_comparison-print {field} {o} {v} name fuel rest known (Takes.single e scalar) h = rw known (
      rw (operator_of-operator_token o)
        (rw e (rw (print_value-scalar rest scalar) (rw (parse_value-scalar rest scalar) refl))))
  parse_comparison-print name fuel rest known (Takes.several {v} {vs} first more) h =
      rw known (rw (parse_list-print fuel rest first more h) refl)

  module _ (is_separator : TokenType → Bool) (join : Expression → Expression → Expression)
      (operand : List Token → Parsed Expression) where
    -- The loop stops in front of another token.
    parse_more_done :
        (e : Expression) (rest : List Token)
        → is_separator (current rest).token_type ≡ false
        → (g : ℕ) → length rest < g
        → parse_more is_separator join operand g e rest ≡ ok (e, rest)
    unfolding parse_more
    parse_more_done e rest other zero h = elim h [ ]
    parse_more_done e [] other (suc g) h = refl
    parse_more_done e (t ∷ ts) other (suc g) h = rw other refl

    -- One more operand behind a separator.
    parse_more_step :
        (k : TokenType) (a b : Expression) (ts rest : List Token) (out : Parsed Expression)
        → is_separator k ≡ true
        → operand ts ≡ ok (b, rest)
        → length rest < length ts
        → ((g : ℕ) → length rest < g → parse_more is_separator join operand g (join a b) rest ≡ out)
        → (g : ℕ) → length (token k at ∷ ts) < g
        → parse_more is_separator join operand g a (token k at ∷ ts) ≡ out
    unfolding parse_more
    parse_more_step k a b ts rest out sep one less go zero h = elim h [ ]
    parse_more_step k a b ts rest out sep one less go (suc g) h =
        rw sep (rw one (go g (omega arith)))

  module _ (inner : List Token → Parsed Expression) (f : ℕ)
      (reads : (e : Expression) (rest : List Token)
        → IsQuery e
        → Stops rest
        → length (print at Level.disjunction e rest) < f
        → inner (print at Level.disjunction e rest) ≡ ok (e, rest)) where
    parse_primary-print :
        (e : Expression) (rest : List Token)
        → IsQuery e
        → length (print at Level.primary e rest) < suc f
        → parse_primary inner (suc f) (print at Level.primary e rest) ≡ ok (e, rest)
    unfolding parse_primary print
    parse_primary-print (Expression.or_else l r) rest query h =
        rw (reads (Expression.or_else l r) (shut at rest) query (refl, refl) (omega arith)) refl
    parse_primary-print (Expression.and_also l r) rest query h =
        rw (reads (Expression.and_also l r) (shut at rest) query (refl, refl) (omega arith)) refl
    parse_primary-print (Expression.negated e) rest query h =
        rw (reads (Expression.negated e) (shut at rest) query (refl, refl) (omega arith)) refl
    parse_primary-print (Expression.comparison field o v) rest (IsQuery.comparison name known takes)
          h =
        parse_comparison-print name (suc f) rest known takes (omega arith)

    parse_unary_expr-print :
        (e : Expression) (rest : List Token)
        → IsQuery e
        → length (print at Level.unary e rest) < suc f
        → parse_unary_expr inner (suc f) (print at Level.unary e rest) ≡ ok (e, rest)
    unfolding parse_unary_expr print
    parse_unary_expr-print (Expression.or_else l r) rest query h =
        parse_primary-print (Expression.or_else l r) rest query h
    parse_unary_expr-print (Expression.and_also l r) rest query h =
        parse_primary-print (Expression.and_also l r) rest query h
    parse_unary_expr-print (Expression.negated e) rest (IsQuery.negated query) h =
        rw (parse_primary-print e rest query (omega arith)) refl
    parse_unary_expr-print (Expression.comparison field o v) rest query h =
        parse_primary-print (Expression.comparison field o v) rest query h

    abbrev and_loop : ℕ → Expression → List Token → Parsed Expression
    and_loop = parse_more is_and Expression.and_also (parse_unary_expr inner (suc f))

    -- The chain of `AND`s of an expression, and then what the loop makes of the rest.
    and_chain :
        (e : Expression) (rest : List Token) (out : Parsed Expression)
        → IsQuery e
        → length (print at Level.conjunction e rest) < suc f
        → ((g : ℕ) → length rest < g → and_loop g e rest ≡ out)
        → parse_and_expr inner (suc f) (print at Level.conjunction e rest) ≡ out
    unfolding parse_and_expr print
    and_chain (Expression.and_also l r) rest out (IsQuery.and_also left right) h go =
        let tail = print at Level.unary r rest in
        let longer = length-print at Level.conjunction l (token TokenType.and_also at ∷ tail) in
        and_chain l (token TokenType.and_also at ∷ tail) out left h (
          parse_more_step is_and Expression.and_also (parse_unary_expr inner (suc f))
            TokenType.and_also l r tail rest out refl
            (parse_unary_expr-print r rest right (omega (arith, longer)))
            (length-print at Level.unary r rest) go)
    and_chain (Expression.or_else l r) rest out query h go =
        rw (parse_unary_expr-print (Expression.or_else l r) rest query h)
          (go (suc f) (omega (arith, length-print at Level.unary (Expression.or_else l r) rest)))
    and_chain (Expression.negated e) rest out query h go =
        rw (parse_unary_expr-print (Expression.negated e) rest query h)
          (go (suc f) (omega (arith, length-print at Level.unary (Expression.negated e) rest)))
    and_chain (Expression.comparison field o v) rest out query h go =
        rw (parse_unary_expr-print (Expression.comparison field o v) rest query h) (
          go (suc f)
            (omega (arith, length-print at Level.unary (Expression.comparison field o v) rest)))

    parse_and_expr-print :
        (e : Expression) (rest : List Token)
        → IsQuery e
        → is_and (current rest).token_type ≡ false
        → length (print at Level.conjunction e rest) < suc f
        → parse_and_expr inner (suc f) (print at Level.conjunction e rest) ≡ ok (e, rest)
    parse_and_expr-print e rest query stop h =
        and_chain e rest (ok (e, rest)) query h
          (parse_more_done is_and Expression.and_also (parse_unary_expr inner (suc f)) e rest stop)

    abbrev or_loop : ℕ → Expression → List Token → Parsed Expression
    or_loop = parse_more is_or Expression.or_else (parse_and_expr inner (suc f))

    or_chain :
        (e : Expression) (rest : List Token) (out : Parsed Expression)
        → IsQuery e
        → is_and (current rest).token_type ≡ false
        → length (print at Level.disjunction e rest) < suc f
        → ((g : ℕ) → length rest < g → or_loop g e rest ≡ out)
        → or_level inner (suc f) (print at Level.disjunction e rest) ≡ out
    unfolding or_level print
    or_chain (Expression.or_else l r) rest out (IsQuery.or_else left right) stop h go =
        let tail = print at Level.conjunction r rest in
        let longer = length-print at Level.disjunction l (token TokenType.or_else at ∷ tail) in
        or_chain l (token TokenType.or_else at ∷ tail) out left refl h (
          parse_more_step is_or Expression.or_else (parse_and_expr inner (suc f)) TokenType.or_else
            l r tail rest out refl (parse_and_expr-print r rest right stop (omega (arith, longer)))
            (length-print at Level.conjunction r rest) go)
    or_chain (Expression.and_also l r) rest out query stop h go =
        rw (parse_and_expr-print (Expression.and_also l r) rest query stop h) (
          go (suc f)
            (omega (arith, length-print at Level.conjunction (Expression.and_also l r) rest)))
    or_chain (Expression.negated e) rest out query stop h go =
        rw (parse_and_expr-print (Expression.negated e) rest query stop h) (
          go (suc f) (omega (arith, length-print at Level.conjunction (Expression.negated e) rest)))
    or_chain (Expression.comparison field o v) rest out query stop h go =
        rw (parse_and_expr-print (Expression.comparison field o v) rest query stop h) (
          go (suc f) (
            omega
              (arith, length-print at Level.conjunction (Expression.comparison field o v) rest)))

    or_level-print :
        (e : Expression) (rest : List Token)
        → IsQuery e
        → Stops rest
        → length (print at Level.disjunction e rest) < suc f
        → or_level inner (suc f) (print at Level.disjunction e rest) ≡ ok (e, rest)
    or_level-print e rest query stop h =
        or_chain e rest (ok (e, rest)) query stop.0 h
          (parse_more_done is_or Expression.or_else (parse_and_expr inner (suc f)) e rest stop.1)

  pub parse_or_expr-print :
      (fuel : ℕ) (e : Expression) (rest : List Token)
      → IsQuery e
      → Stops rest
      → length (print at Level.disjunction e rest) < fuel
      → parse_or_expr fuel (print at Level.disjunction e rest) ≡ ok (e, rest)
  unfolding parse_or_expr
  parse_or_expr-print zero e rest query stop h = elim h [ ]
  parse_or_expr-print (suc fuel) e rest query stop h =
      or_level-print (parse_or_expr fuel) fuel (parse_or_expr-print fuel) e rest query stop h

  -- An expression whose fields are known and whose values fit their operators, printed as tokens at any
  -- position with the parentheses that the grammar wants and the end of the input behind them, is parsed
  -- back to the same expression.
  pub parse_tokens-print :
      (input : Text) (e : Expression)
      → IsQuery e
      → parse_tokens input (print at Level.disjunction e (token TokenType.eof at ∷ []))
        ≡ ok (record { raw = input; ast = e })
  unfolding parse_tokens
  parse_tokens-print input e query =
      let end = token TokenType.eof at ∷ [] in
      let ts = print at Level.disjunction e end in
      rw (current-print at Level.disjunction e end)
        (rw (parse_or_expr-print (suc (length ts)) e end query (refl, refl) (omega arith)) refl)
