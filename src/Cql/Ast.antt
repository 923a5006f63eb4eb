-- ===== src/Cql/Ast.antt =====
-- server/src/cql/ast.rs: expressions, values, fields and errors. An `f64` stands by the 64 bits of
-- its representation, and what the code asks of it is in `QueryCrates`.
use Prim.Native.Char.{code}
use cxdb.Prelude.{
  ℕ, ◌≡◌, String, Bool, true, Option, none, some, [], ◌∷◌, ◌==◌, bytes_eq, if◌then◌else◌,
}
use cxdb.Cql.Order.{Text}

-- The code points of a literal.
abbrev pub codes : String → Text
codes String.[] = []
codes (String.◌∷◌ c s) = code c ∷ codes s

pub data Operator : Type 0 where
  eq : Operator
  neq : Operator
  starts : Operator
  eq_ci : Operator
  starts_ci : Operator
  gt : Operator
  gte : Operator
  lt : Operator
  lte : Operator
  in_list : Operator

mutual
  pub data Value : Type 0 where
    string : Text → Value
    number : ℕ → Value
    date : Text → Bool → Value
    list : Values → Value

  -- `Vec<Value>`
  pub data Values : Type 0 where
    nil : Values
    cons : Value → Values → Values

pub data Expression : Type 0 where
  and_also : Expression → Expression → Expression
  or_else : Expression → Expression → Expression
  negated : Expression → Expression
  comparison : Text → Operator → Value → Expression

pub data FieldName : Type 0 where
  id : FieldName
  tag : FieldName
  title : FieldName
  label : FieldName
  user : FieldName
  service : FieldName
  host : FieldName
  trace_id : FieldName
  parent : FieldName
  root : FieldName
  created : FieldName
  depth : FieldName
  is_live : FieldName

unfoldable pub from_str : Text → Option FieldName
from_str s =
    if s == codes "id"
    then some FieldName.id
    else if s == codes "tag"
    then some FieldName.tag
    else if s == codes "title"
    then some FieldName.title
    else if s == codes "label"
    then some FieldName.label
    else if s == codes "user"
    then some FieldName.user
    else if s == codes "service"
    then some FieldName.service
    else if s == codes "host"
    then some FieldName.host
    else if s == codes "trace_id"
    then some FieldName.trace_id
    else if s == codes "parent"
    then some FieldName.parent
    else if s == codes "root"
    then some FieldName.root
    else if s == codes "created"
    then some FieldName.created
    else if s == codes "depth"
    then some FieldName.depth
    else if s == codes "is_live"
    then some FieldName.is_live
    else none

pub data CqlErrorType : Type 0 where
  syntax_error : CqlErrorType
  unknown_field : CqlErrorType
  invalid_operator : CqlErrorType
  invalid_value : CqlErrorType

pub record Position : Type 0 where
  pub line : ℕ
  pub column : ℕ
  pub offset : ℕ

-- The message stands by its literal, with the values that `format!` puts in left out.
pub record CqlError : Type 0 where
  pub error_type : CqlErrorType
  pub message : String
  pub position : Option Position
  pub field : Option Text

-- What the query code takes from the standard library's Unicode tables and floats and from the
-- crates regex and chrono: `str::to_lowercase`, `f64 as u64`, the groups of `^-(\d+)([hdm])$`,
-- `str::parse::<u64>`, the timestamps of an RFC 3339 date and of a plain date as `u64`, the classes of
-- characters, `str::to_uppercase` and `str::parse::<f64>`.
pub record QueryCrates : Type 0 where
  pub to_lowercase : Text → Text
  pub f64_as_u64 : ℕ → ℕ
  pub relative_captures : Text → Option (Text × Text)
  pub relative_captures_head :
      (s : Text) (groups : Text × Text)
      → relative_captures s ≡ some groups
      → (rest : Text) × (s ≡ b'-' ∷ rest)
  pub parse_u64 : Text → Option ℕ
  pub parse_from_rfc3339 : Text → Option ℕ
  pub parse_plain_date : Text → Option ℕ
  pub is_whitespace : ℕ → Bool
  pub is_alphabetic : ℕ → Bool
  pub is_alphanumeric : ℕ → Bool
  pub alphanumeric_of_alphabetic : (c : ℕ) → is_alphabetic c ≡ true → is_alphanumeric c ≡ true
  pub to_uppercase : Text → Text
  pub parse_f64 : Text → Option ℕ

abbrev pub as_string : Value → Option Text
as_string (Value.string s) = some s
as_string (Value.date s relative) = some s
as_string (Value.number n) = none
as_string (Value.list vs) = none

abbrev pub as_number : Value → Option ℕ
as_number (Value.number n) = some n
as_number (Value.string s) = none
as_number (Value.date s relative) = none
as_number (Value.list vs) = none

abbrev pub as_list : Value → Option Values
as_list (Value.list vs) = some vs
as_list (Value.string s) = none
as_list (Value.date s relative) = none
as_list (Value.number n) = none

module _ ⦃x : QueryCrates⦄ where
  abbrev pub as_u64 : Value → Option ℕ
  as_u64 (Value.number n) = some (x.f64_as_u64 n)
  as_u64 (Value.string s) = none
  as_u64 (Value.date s relative) = none
  as_u64 (Value.list vs) = none

-- `Result<A, CqlError>`
pub data Answer {ℓ} (A : Type ℓ) : Type ℓ where
  ok : A → Answer A
  err : CqlError → Answer A

infixl 5 ◌>>=◌
abbrev pub ◌>>=◌ {ℓ κ} : {V : Type ℓ} {W : Type κ} → Answer V → (V → Answer W) → Answer W
err e >>= next = err e
ok v >>= next = next v

abbrev pub ok_or {ℓ} : {A : Type ℓ} → Option A → CqlError → Answer A
ok_or none e = err e
ok_or (some a) e = ok a

abbrev pub map_ok {ℓ κ} : {V : Type ℓ} {W : Type κ} → (V → W) → Answer V → Answer W
map_ok f (ok v) = ok (f v)
map_ok f (err e) = err e

abbrev pub refusal : CqlErrorType → String → CqlError
refusal kind text = record { error_type = kind; message = text; position = none; field = none }

-- `CqlQuery`
pub record CqlQuery : Type 0 where
  pub raw : Text
  pub ast : Expression
