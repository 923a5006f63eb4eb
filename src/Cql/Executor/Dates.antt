-- ===== src/Cql/Executor/Dates.antt =====
-- `parse_date_value` of server/src/cql/executor.rs, with the dates that it reads.
use cxdb.Prelude.{ℕ, ◌+◌, ◌-◌, ◌*◌, ◌%◌, ◌^◌, Option, none, some, ◌==◌, bytes_eq, if◌then◌else◌}
use cxdb.Cql.Order.{Text}
use cxdb.Cql.Ast.{
  codes, Value, CqlError, CqlErrorType, QueryCrates, Answer, ok, err, ◌>>=◌, ok_or, refusal,
}

abbrev pub bad_value : CqlError
bad_value = refusal CqlErrorType.invalid_value "Invalid date format"

module _ ⦃x : QueryCrates⦄ where
  abbrev pub millis_of : ℕ → Text → Answer ℕ
  millis_of amount unit =
      if unit == codes "h"
      then ok ((amount * 60 * 60 * 1000) % 2 ^ 64)
      else if unit == codes "d"
      then ok ((amount * 24 * 60 * 60 * 1000) % 2 ^ 64)
      else if unit == codes "m"
      then ok ((amount * 60 * 1000) % 2 ^ 64)
      else err (refusal CqlErrorType.invalid_value "Invalid time unit")

  unfoldable pub parse_relative_date : ℕ → Text → Answer ℕ
  parse_relative_date now value = do
    (digits, unit) ←
        ok_or (x.relative_captures value)
          (refusal CqlErrorType.invalid_value "Invalid relative date format")
    amount ←
        ok_or (x.parse_u64 digits)
          (refusal CqlErrorType.invalid_value "Invalid number in relative date")
    millis ← millis_of amount unit
    ok ((now + 2 ^ 64 - millis) % 2 ^ 64)

  abbrev pub or_plain_date : Text → Option ℕ → Answer ℕ
  or_plain_date value (some t) = ok t
  or_plain_date value none = ok_or (x.parse_plain_date value) bad_value

  unfoldable pub parse_absolute_date : Text → Answer ℕ
  parse_absolute_date value = or_plain_date value (x.parse_from_rfc3339 value)

  abbrev pub or_absolute : Text → Answer ℕ → Answer ℕ
  or_absolute value (ok t) = ok t
  or_absolute value (err e) = parse_absolute_date value

  unfoldable pub parse_date_value : ℕ → Value → Answer ℕ
  unfolding parse_relative_date parse_absolute_date
  parse_date_value now (Value.date value relative) =
      if relative then parse_relative_date now value else parse_absolute_date value
  parse_date_value now (Value.string value) = or_absolute value (parse_relative_date now value)
  parse_date_value now (Value.number value) = ok (x.f64_as_u64 value)
  parse_date_value now (Value.list values) =
      err (refusal CqlErrorType.invalid_value "Expected date value")
