-- ===== src/Examples/Value.antt =====
-- Dates, timestamps, integers and types at concrete inputs.
use mikura.Common.{
  ℕ, ◌+◌, ◌-◌, ◌*◌, ◌≡◌, ◌≢◌, ◌↔◌, refl, arith, true, some, List, [], ◌∷◌, ◌++◌, ltb, leb,
  if◌then◌else◌, ok,
}
use mikura.Common.Text.{ascii, str_eq}
use mikura.Common.Ints.{◌+ℤ◌, ◌-ℤ◌, ◌*ℤ◌, pos, negsuc, show_int}
use mikura.Common.Strings.{show_nat, parse_digits, split_once}
use mikura.Codec.Csv.{Distinct, split_unique_csv, split_unique_csv-Distinct}
use mikura.Errors.{entry_duplicate, entry_part_empty}
use mikura.Value.Types.{PropertyType, PropertyValue, from_token, token}
use mikura.Value.Types.Tokens.{from_token-token, from_token-plus}
use mikura.Value.Calendar.{unix_days, civil_from_unix_days}
use mikura.Value.Calendar.Inverse.{civil_from_unix_days-unix_days}
use mikura.Value.Timestamp.{
  split_timezone, parse_date, parse_time, is_canonical_timestamp, parse_timestamp_millis,
  format_utc_millis,
}
use mikura.Value.Timestamp.Bounds.{instant, parse_timestamp_millis-instant}
use mikura.Value.Timestamp.RoundTrip.{format_utc_millis-parse_timestamp_millis}
use mikura.Value.Numbers.{parse_integer}
use mikura.Value.Numbers.Integers.{parse_integer-show_int}
use mikura.Value.Geo.{Floats}
use mikura.Value.Forms.{canonicalize_write, in_range, is_less, is_greater}
use mikura.Value.Forms.Stable.{IsStored, canonicalize_write-IsStored}
use mikura.Value.Forms.Order.{whole, Respects, in_range-Respects}

abbrev total : List ℕ → ℕ
total [] = 0
total (n ∷ ns) = n + total ns

-- Whole numbers in the place of f64.
abbrev pub whole_floats : Floats
whole_floats = record {
  F = ℕ;
  parse = parse_digits;
  is_finite = λ n. true;
  lt = ltb;
  le = leb;
  sub = λ a b. a - b;
  mul = λ a b. a * b;
  sum = total;
  of_int = λ negative n. if negative then 0 else n;
}

stored_timestamp :
    canonicalize_write whole_floats PropertyType.timestamp (ascii "2024-02-29T23:30:00.5+00:45")
    ≡ ok (ascii "2024-02-29T22:45:00.500Z")
unfolding canonicalize_write ◌*ℤ◌ ◌-ℤ◌ ◌+ℤ◌
stored_timestamp = refl

canonicalize_write-IsStored_example :
    IsStored whole_floats PropertyType.timestamp (ascii "2024-02-29T22:45:00.500Z")
canonicalize_write-IsStored_example =
    canonicalize_write-IsStored whole_floats PropertyType.timestamp
      (ascii "2024-02-29T23:30:00.5+00:45") (ascii "2024-02-29T22:45:00.500Z") stored_timestamp

civil_from_unix_days-unix_days_example :
    (civil_from_unix_days (negsuc 0) ≡ ok (1969, 12, 31)) ↔ (unix_days 1969 12 31 ≡ ok (negsuc 0))
civil_from_unix_days-unix_days_example = civil_from_unix_days-unix_days 1969 12 31 (negsuc 0)

last_milli : format_utc_millis (negsuc 0) ≡ ok (ascii "1969-12-31T23:59:59.999Z")
unfolding format_utc_millis ◌+ℤ◌
last_milli = refl

format_utc_millis-parse_timestamp_millis_example :
    (is_canonical_timestamp (ascii "1969-12-31T23:59:59.999Z") ≡ true)
    × (parse_timestamp_millis (ascii "1969-12-31T23:59:59.999Z") ≡ ok (negsuc 0))
format_utc_millis-parse_timestamp_millis_example =
    format_utc_millis-parse_timestamp_millis (negsuc 0) (ascii "1969-12-31T23:59:59.999Z")
      last_milli

zone_ok :
    split_timezone (ascii "1970-01-02T01:00:00-02:30")
    ≡ ok (ascii "1970-01-02T01:00:00", negsuc 149)
unfolding split_timezone
zone_ok = refl

cut_ok : split_once 84 (ascii "1970-01-02T01:00:00") ≡ some (ascii "1970-01-02", ascii "01:00:00")
unfolding split_once
cut_ok = refl

date_ok : parse_date (ascii "1970-01-02") ≡ ok (1970, 1, 2)
unfolding parse_date
date_ok = refl

time_ok : parse_time (ascii "01:00:00") ≡ ok (1, 0, 0, 0)
unfolding parse_time
time_ok = refl

days_ok : unix_days 1970 1 2 ≡ ok (pos 1)
unfolding unix_days ◌-ℤ◌ ◌+ℤ◌
days_ok = refl

parse_timestamp_millis-instant_example :
    parse_timestamp_millis (ascii "1970-01-02T01:00:00-02:30")
    ≡ ok (instant (pos 1) (1, 0, 0, 0) (negsuc 149))
parse_timestamp_millis-instant_example =
    parse_timestamp_millis-instant (ascii "1970-01-02T01:00:00-02:30") (ascii "1970-01-02T01:00:00")
      (ascii "1970-01-02") (ascii "01:00:00") (negsuc 149) 1970 1 2 (1, 0, 0, 0) (pos 1) zone_ok
      cut_ok date_ok time_ok days_ok

parse_integer-show_int_example :
    parse_integer (show_int show_nat (negsuc 41)) ≡ ok (PropertyValue.integer (negsuc 41))
parse_integer-show_int_example = parse_integer-show_int (negsuc 41) refl

in_range-Respects_example :
    (in_range whole_floats PropertyType.integer (ascii "7") (some (ascii "-3")) (some (ascii "12"))
      ≡ ok true)
    ↔ (Respects whole_floats PropertyType.integer (ascii "7") (ascii "-3") is_less
        × Respects whole_floats PropertyType.integer (ascii "7") (ascii "12") is_greater)
in_range-Respects_example =
    in_range-Respects whole_floats PropertyType.integer (ascii "7") (ascii "-3") (ascii "12") whole

from_token-token_example :
    from_token (token (PropertyType.vector 384)) ≡ ok (PropertyType.vector 384)
from_token-token_example = from_token-token (PropertyType.vector 384) (omega arith, omega arith)

from_token-plus_example :
    (from_token (ascii "decimal:+" ++ show_nat 2) ≡ ok (PropertyType.decimal 2))
    × (token (PropertyType.decimal 2) ≢ ascii "decimal:+" ++ show_nat 2)
from_token-plus_example = from_token-plus 2 (omega arith)

names_ok :
    split_unique_csv (ascii "note, owner") entry_part_empty entry_duplicate
    ≡ ok (ascii "note" ∷ ascii "owner" ∷ [])
unfolding split_unique_csv str_eq
names_ok = refl

split_unique_csv-Distinct_example : Distinct [] (ascii "note" ∷ ascii "owner" ∷ [])
split_unique_csv-Distinct_example =
    split_unique_csv-Distinct (ascii "note, owner") entry_part_empty entry_duplicate
      (ascii "note" ∷ ascii "owner" ∷ []) names_ok
