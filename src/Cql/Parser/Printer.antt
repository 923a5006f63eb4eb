-- ===== src/Cql/Parser/Printer.antt =====
-- Expressions as tokens, with the parentheses that the grammar wants, and the expressions that can be
-- written. A printer is given the tokens that come behind.
use cxdb.Prelude.{ℕ, ◌≡◌, refl, ◌<◌, ◌≤◌, true, false, none, some, List, ◌∷◌, length, arith}
use cxdb.Cql.Order.{Text}
use cxdb.Cql.Ast.{Operator, Value, Values, Expression, FieldName, from_str, Position, QueryCrates}
use cxdb.Cql.Lexer.{TokenType, Token, token, is_eof}
use cxdb.Cql.Parser.{current, is_in}

module _ ⦃x : QueryCrates⦄ where
  -- A value that one token gives.
  pub data IsScalar : Value → Type 0 where
    text : {s : Text} → x.relative_captures s ≡ none → IsScalar (Value.string s)
    date :
        {s : Text} (groups : Text × Text)
        → x.relative_captures s ≡ some groups
        → IsScalar (Value.date s true)
    number : {n : ℕ} → IsScalar (Value.number n)

  pub data AreScalars : Values → Type 0 where
    nil : AreScalars Values.nil
    cons : {v : Value} {vs : Values} → IsScalar v → AreScalars vs → AreScalars (Values.cons v vs)

  -- The value fits the operator: a list of at least one value for `IN`, and a single value otherwise.
  pub data Takes : Operator → Value → Type 0 where
    single : {o : Operator} {v : Value} → is_in o ≡ false → IsScalar v → Takes o v
    several :
        {v : Value} {vs : Values}
        → IsScalar v
        → AreScalars vs
        → Takes Operator.in_list (Value.list (Values.cons v vs))

  -- Every field is known, and every value fits its operator.
  pub data IsQuery : Expression → Type 0 where
    and_also : {l r : Expression} → IsQuery l → IsQuery r → IsQuery (Expression.and_also l r)
    or_else : {l r : Expression} → IsQuery l → IsQuery r → IsQuery (Expression.or_else l r)
    negated : {e : Expression} → IsQuery e → IsQuery (Expression.negated e)
    comparison :
        {field : Text} {o : Operator} {v : Value} (name : FieldName)
        → from_str field ≡ some name
        → Takes o v
        → IsQuery (Expression.comparison field o v)

abbrev pub operator_token : Operator → TokenType
operator_token Operator.eq = TokenType.eq
operator_token Operator.neq = TokenType.neq
operator_token Operator.starts = TokenType.starts
operator_token Operator.eq_ci = TokenType.eq_ci
operator_token Operator.starts_ci = TokenType.starts_ci
operator_token Operator.gt = TokenType.gt
operator_token Operator.gte = TokenType.gte
operator_token Operator.lt = TokenType.lt
operator_token Operator.lte = TokenType.lte
operator_token Operator.in_list = TokenType.in_list

abbrev pub scalar_token : Value → TokenType
scalar_token (Value.string s) = TokenType.string s
scalar_token (Value.date s relative) = TokenType.string s
scalar_token (Value.number n) = TokenType.number n
scalar_token (Value.list vs) = TokenType.eof

-- What may stand at a place with no parentheses.
pub data Level : Type 0 where
  disjunction : Level
  conjunction : Level
  unary : Level
  primary : Level

-- Every token stands at the position `at`.
module _ (at : Position) where
  unfoldable pub print_values : Values → List Token → List Token
  print_values Values.nil rest = rest
  print_values (Values.cons v vs) rest =
      token TokenType.comma at ∷ token (scalar_token v) at ∷ print_values vs rest

  abbrev pub shut : List Token → List Token
  shut rest = token TokenType.r_paren at ∷ rest

  unfoldable pub print_value : Value → List Token → List Token
  unfolding print_values
  print_value (Value.list Values.nil) rest = token TokenType.l_paren at ∷ shut rest
  print_value (Value.list (Values.cons v vs)) rest =
      token TokenType.l_paren at ∷ token (scalar_token v) at ∷ print_values vs (shut rest)
  print_value v rest = token (scalar_token v) at ∷ rest

  unfoldable pub print : Level → Expression → List Token → List Token
  unfolding print_value
  print Level.disjunction (Expression.or_else l r) rest =
      print Level.disjunction l (token TokenType.or_else at ∷ print Level.conjunction r rest)
  print Level.conjunction (Expression.or_else l r) rest =
      token TokenType.l_paren at
      ∷ print Level.disjunction l
          (token TokenType.or_else at ∷ print Level.conjunction r (shut rest))
  print Level.unary (Expression.or_else l r) rest =
      token TokenType.l_paren at
      ∷ print Level.disjunction l
          (token TokenType.or_else at ∷ print Level.conjunction r (shut rest))
  print Level.primary (Expression.or_else l r) rest =
      token TokenType.l_paren at
      ∷ print Level.disjunction l
          (token TokenType.or_else at ∷ print Level.conjunction r (shut rest))
  print Level.disjunction (Expression.and_also l r) rest =
      print Level.conjunction l (token TokenType.and_also at ∷ print Level.unary r rest)
  print Level.conjunction (Expression.and_also l r) rest =
      print Level.conjunction l (token TokenType.and_also at ∷ print Level.unary r rest)
  print Level.unary (Expression.and_also l r) rest =
      token TokenType.l_paren at
      ∷ print Level.conjunction l (token TokenType.and_also at ∷ print Level.unary r (shut rest))
  print Level.primary (Expression.and_also l r) rest =
      token TokenType.l_paren at
      ∷ print Level.conjunction l (token TokenType.and_also at ∷ print Level.unary r (shut rest))
  print Level.primary (Expression.negated e) rest =
      token TokenType.l_paren at ∷ token TokenType.negated at ∷ print Level.primary e (shut rest)
  print Level.disjunction (Expression.negated e) rest =
      token TokenType.negated at ∷ print Level.primary e rest
  print Level.conjunction (Expression.negated e) rest =
      token TokenType.negated at ∷ print Level.primary e rest
  print Level.unary (Expression.negated e) rest =
      token TokenType.negated at ∷ print Level.primary e rest
  print level (Expression.comparison field o v) rest =
      token (TokenType.ident field) at ∷ token (operator_token o) at ∷ print_value v rest

  pub length-print_values :
      (vs : Values) (rest : List Token) → length rest ≤ length (print_values vs rest)
  unfolding print_values
  length-print_values Values.nil rest = omega arith
  length-print_values (Values.cons v vs) rest = omega (arith, length-print_values vs rest)

  pub length-print_value :
      (v : Value) (rest : List Token) → length rest < length (print_value v rest)
  unfolding print_value
  length-print_value (Value.list Values.nil) rest = omega arith
  length-print_value (Value.list (Values.cons v vs)) rest =
      omega (arith, length-print_values vs (shut rest))
  length-print_value _ rest = omega arith

  pub length-print :
      (level : Level) (e : Expression) (rest : List Token)
      → length rest < length (print level e rest)
  unfolding print
  length-print Level.disjunction (Expression.or_else l r) rest = omega (
    arith,
    length-print Level.disjunction l (token TokenType.or_else at ∷ print Level.conjunction r rest),
    length-print Level.conjunction r rest,
  )
  length-print Level.conjunction (Expression.or_else l r) rest = omega (
    arith,
    length-print Level.disjunction l
        (token TokenType.or_else at ∷ print Level.conjunction r (shut rest)),
    length-print Level.conjunction r (shut rest),
  )
  length-print Level.unary (Expression.or_else l r) rest = omega (
    arith,
    length-print Level.disjunction l
        (token TokenType.or_else at ∷ print Level.conjunction r (shut rest)),
    length-print Level.conjunction r (shut rest),
  )
  length-print Level.primary (Expression.or_else l r) rest = omega (
    arith,
    length-print Level.disjunction l
        (token TokenType.or_else at ∷ print Level.conjunction r (shut rest)),
    length-print Level.conjunction r (shut rest),
  )
  length-print Level.disjunction (Expression.and_also l r) rest = omega (
    arith,
    length-print Level.conjunction l (token TokenType.and_also at ∷ print Level.unary r rest),
    length-print Level.unary r rest,
  )
  length-print Level.conjunction (Expression.and_also l r) rest = omega (
    arith,
    length-print Level.conjunction l (token TokenType.and_also at ∷ print Level.unary r rest),
    length-print Level.unary r rest,
  )
  length-print Level.unary (Expression.and_also l r) rest = omega (
    arith,
    length-print Level.conjunction l
        (token TokenType.and_also at ∷ print Level.unary r (shut rest)),
    length-print Level.unary r (shut rest),
  )
  length-print Level.primary (Expression.and_also l r) rest = omega (
    arith,
    length-print Level.conjunction l
        (token TokenType.and_also at ∷ print Level.unary r (shut rest)),
    length-print Level.unary r (shut rest),
  )
  length-print Level.disjunction (Expression.negated e) rest =
      omega (arith, length-print Level.primary e rest)
  length-print Level.conjunction (Expression.negated e) rest =
      omega (arith, length-print Level.primary e rest)
  length-print Level.unary (Expression.negated e) rest =
      omega (arith, length-print Level.primary e rest)
  length-print Level.primary (Expression.negated e) rest =
      omega (arith, length-print Level.primary e (shut rest))
  length-print level (Expression.comparison field o v) rest =
      omega (arith, length-print_value v rest)

  -- No expression starts with the end of the input.
  pub current-print :
      (level : Level) (e : Expression) (rest : List Token)
      → is_eof (current (print level e rest)).token_type ≡ false
  unfolding print
  current-print Level.disjunction (Expression.or_else l r) rest =
      current-print Level.disjunction l _
  current-print Level.disjunction (Expression.and_also l r) rest =
      current-print Level.conjunction l _
  current-print Level.conjunction (Expression.and_also l r) rest =
      current-print Level.conjunction l _
  current-print Level.conjunction (Expression.or_else l r) rest = refl
  current-print Level.unary (Expression.or_else l r) rest = refl
  current-print Level.primary (Expression.or_else l r) rest = refl
  current-print Level.unary (Expression.and_also l r) rest = refl
  current-print Level.primary (Expression.and_also l r) rest = refl
  current-print Level.disjunction (Expression.negated e) rest = refl
  current-print Level.conjunction (Expression.negated e) rest = refl
  current-print Level.unary (Expression.negated e) rest = refl
  current-print Level.primary (Expression.negated e) rest = refl
  current-print level (Expression.comparison field o v) rest = refl
