-- ===== src/Value/Timestamp.antt =====
-- The timestamps of src/value.rs: the text of an instant with its offset, as milliseconds of UTC since
-- 1970-01-01 and back.
pub mod Digits
pub mod Bounds
pub mod Canonical
pub mod RoundTrip
use mikura.Common.{
  ℕ, zero, suc, ◌+◌, ◌-◌, ◌*◌, ◌/◌, ◌%◌, ◌^◌, ◌≡◌, Bool, true, false, not, ◌&&◌, ◌||◌,
}
use mikura.Common.{List, [], ◌∷◌, ◌++◌, Option, none, some, length, replicate, get_elem?}
use mikura.Common.{ltb, leb, ◌==◌, if◌then◌else◌, Result, ok, err, guard, ok_or, ◌>>=◌, ◌>>◌}
use mikura.Common.Text.{Str}
use mikura.Common.Ints.{
  ℤ, pos, negsuc, ◌+ℤ◌, ◌-ℤ◌, ◌*ℤ◌, balance, checked_i64, div_euclid, rem_euclid,
}
use mikura.Common.Strings.{
  split_once, split_char, strip_last, all_digits, parse_unsigned, fixed_digits,
}
use mikura.Errors.{
  Error, no_t, no_timezone, offset_invalid, offset_out_of_range, two_digits_invalid, date_invalid,
  time_invalid, time_out_of_range, fraction_invalid, timestamp_overflows, panic,
}
use mikura.Value.Calendar.{unix_days, civil_from_unix_days}

abbrev pub byte_is : ℕ → ℕ → Str → Bool
byte_is i b raw = elim (get_elem? raw i) [ none ↦ false | some d ↦ d == b ]

-- The bytes are T . Z - - : : in the source's order.
unfoldable pub is_canonical_timestamp : Str → Bool
is_canonical_timestamp raw =
    (length raw == 24)
    && byte_is 10 84 raw
    && byte_is 19 46 raw
    && byte_is 23 90 raw
    && byte_is 4 45 raw
    && byte_is 7 45 raw
    && byte_is 13 58 raw
    && byte_is 16 58 raw

unfoldable pub parse_two_digits : Str → Result Error ℕ
unfolding parse_unsigned
parse_two_digits raw =
    if not (length raw == 2) || not (all_digits raw)
    then err two_digits_invalid
    else ok_or (parse_unsigned (2 ^ 31 - 1) raw) two_digits_invalid

-- `rposition` of a sign: what stands before it, the sign, and what stands behind it.
unfoldable pub last_sign : Str → Option (Str × ℕ × Str)
last_sign [] = none
last_sign (b ∷ s) = elim (last_sign s) [
  | some (front, sign, back) ↦ some (b ∷ front, sign, back)
  | none ↦ if (b == 43) || (b == 45) then some ([], b, s) else none
]

abbrev pub offset_of : ℕ → ℕ → ℕ → ℤ
offset_of sign hour minute =
    if sign == 43 then pos (hour * 60 + minute) else balance 0 (hour * 60 + minute)

-- What stands between the colons of an offset, in minutes.
unfoldable pub offset_minutes : ℕ → List Str → Result Error ℤ
unfolding parse_two_digits
offset_minutes sign (h ∷ m ∷ []) =
    if not (length h == 2) || not (length m == 2) then err offset_invalid else (do
      hour ← parse_two_digits h
      minute ← parse_two_digits m
      (if ltb 23 hour || ltb 59 minute
          then err offset_out_of_range
          else ok (offset_of sign hour minute)))
offset_minutes sign other = err offset_invalid

-- The text before the sign, and the offset behind it.
unfoldable pub behind_sign : Option (Str × ℕ × Str) → Result Error (Str × ℤ)
unfolding split_char offset_minutes
behind_sign none = err no_timezone
behind_sign (some (front, sign, offset)) =
    if not (ltb 10 (length front))
    then err no_timezone
    else (do minutes ← offset_minutes sign (split_char 58 offset); ok (front, minutes))

unfoldable pub split_timezone : Str → Result Error (Str × ℤ)
unfolding strip_last last_sign behind_sign
split_timezone raw = elim (strip_last 90 raw) [
  | some body ↦ ok (body, pos 0)
  | none ↦ behind_sign (last_sign raw)
]

-- The parts of a date. The year is of digits alone, so that `parse::<i32>` gives no negative number.
unfoldable pub date_of : List Str → Result Error (ℕ × ℕ × ℕ)
unfolding parse_unsigned parse_two_digits
date_of (y ∷ m ∷ d ∷ []) =
    if not (length y == 4) || not (length m == 2) || not (length d == 2)
    then err date_invalid
    else if not (all_digits y && all_digits m && all_digits d)
    then err date_invalid
    else (do
      year ← ok_or (parse_unsigned (2 ^ 31 - 1) y) date_invalid
      month ← parse_two_digits m
      day ← parse_two_digits d
      ok (year, month, day))
date_of other = err date_invalid

unfoldable pub parse_date : Str → Result Error (ℕ × ℕ × ℕ)
unfolding split_char date_of
parse_date date = date_of (split_char 45 date)

unfoldable pub parse_fraction : Option Str → Result Error ℕ
unfolding parse_unsigned
parse_fraction none = ok 0
parse_fraction (some frac) =
    if (length frac == 0) || ltb 3 (length frac) || not (all_digits frac)
    then err fraction_invalid
    else ok_or (parse_unsigned (2 ^ 32 - 1) (frac ++ replicate (3 - length frac) 48)) panic

-- The parts of a time, and its fraction.
unfoldable pub time_of : Option Str → List Str → Result Error (ℕ × ℕ × ℕ × ℕ)
unfolding parse_two_digits parse_fraction
time_of frac (h ∷ m ∷ s ∷ []) =
    if not (length h == 2) || not (length m == 2) || not (length s == 2)
    then err time_invalid
    else (do
      hour ← parse_two_digits h
      minute ← parse_two_digits m
      second ← parse_two_digits s
      (if ltb 23 hour || ltb 59 minute || ltb 59 second
          then err time_out_of_range
          else (do milli ← parse_fraction frac; ok (hour, minute, second, milli))))
time_of frac other = err time_invalid

unfoldable pub parse_time : Str → Result Error (ℕ × ℕ × ℕ × ℕ)
unfolding split_once split_char time_of
parse_time time = elim (split_once 46 time) [
  | some (hms, frac) ↦ time_of (some frac) (split_char 58 hms)
  | none ↦ time_of none (split_char 58 time)
]

abbrev pub checked : ℤ → Result Error ℤ
checked z = ok_or (checked_i64 z) timestamp_overflows

-- The milliseconds of a day's time, each sum checked.
unfoldable pub millis_of : ℤ → ℕ × ℕ × ℕ × ℕ → ℤ → Result Error ℤ
millis_of days (hour, minute, second, milli) offset_min = do
  whole ← checked (days *ℤ pos 86400000)
  hours ← checked (whole +ℤ pos (hour * 3600000))
  minutes ← checked (hours +ℤ pos (minute * 60000))
  seconds ← checked (minutes +ℤ pos (second * 1000))
  local ← checked (seconds +ℤ pos milli)
  checked (local -ℤ (offset_min *ℤ pos 60000))

unfoldable pub parse_timestamp_millis : Str → Result Error ℤ
unfolding split_timezone split_once parse_date parse_time unix_days millis_of
parse_timestamp_millis raw = do
  (datetime, offset_min) ← split_timezone raw
  (date, time) ← ok_or (split_once 84 datetime) no_t
  (year, month, day) ← parse_date date
  clock ← parse_time time
  days ← unix_days year month day
  millis_of days clock offset_min

-- `format!` of the parts.
unfoldable pub timestamp_text : ℕ × ℕ × ℕ → ℕ → Str
unfolding fixed_digits
timestamp_text (year, month, day) rem = fixed_digits 4 year (
    45
    ∷ fixed_digits 2 month (
        45
        ∷ fixed_digits 2 day (
            84
            ∷ fixed_digits 2 (rem / 3600000) (
                58
                ∷ fixed_digits 2 (rem % 3600000 / 60000) (
                    58
                    ∷ fixed_digits 2 (rem % 3600000 % 60000 / 1000)
                        (46 ∷ fixed_digits 3 (rem % 3600000 % 60000 % 1000) (90 ∷ [])))))))

unfoldable pub format_utc_millis : ℤ → Result Error Str
unfolding civil_from_unix_days timestamp_text
format_utc_millis millis = do
  date ← civil_from_unix_days (div_euclid millis 86400000)
  ok (timestamp_text date (rem_euclid millis 86400000))
