-- ===== src/Value/Timestamp/RoundTrip.antt =====
-- The form that src/value.rs stores of an instant: it is canonical, it is read back as that instant, and
-- so what is normalised once stays as it is.
use mikura.Common.{ℕ, ◌+◌, ◌*◌, ◌/◌, ◌%◌, ◌<◌, ◌≡◌, refl, ap, subst, ◌∙◌, arith, true}
use mikura.Common.{[], ◌∷◌, ◌++◌, some, ok, >>=-eq-ok}
use mikura.Common.Text.{Str}
use mikura.Common.Ints.{
  ℤ, pos, negsuc, ◌+ℤ◌, ◌*ℤ◌, above, below, div_euclid, rem_euclid, +ℤ-balance, -ℤ-balance,
  *ℤ-balance, ℤ-ext,
}
use mikura.Common.Strings.{strip_last}
use mikura.Value.Calendar.{month_days, civil_from_unix_days}
use mikura.Value.Calendar.Inverse.{civil-Lies, civil_from_unix_days-unix_days}
use mikura.Value.Timestamp.{
  is_canonical_timestamp, split_timezone, parse_timestamp_millis, timestamp_text, format_utc_millis,
}
use mikura.Common.Splits.{split_once-append}
use mikura.Value.Timestamp.Bounds.{instant, parse_timestamp_millis-instant}
use mikura.Value.Timestamp.Canonical.{
  date_text, date_text-Free, time_text, clock_of, parse_date-date_text, parse_time-time_text,
  timestamp_text-halves,
}

strip_last-snoc : (c : ℕ) (s : Str) → strip_last c (s ++ (c ∷ [])) ≡ some s
unfolding strip_last
strip_last-snoc c [] = ground arith
strip_last-snoc c (a ∷ []) = ground arith
strip_last-snoc c (a ∷ b ∷ s) = ground (arith, strip_last-snoc c (b ∷ s))

timestamp_text-canonical :
    (year month day rem : ℕ) → is_canonical_timestamp (timestamp_text (year, month, day) rem) ≡ true
unfolding is_canonical_timestamp timestamp_text
timestamp_text-canonical year month day rem = refl

split_timezone-snoc : (s : Str) → split_timezone (s ++ (90 ∷ [])) ≡ ok (s, pos 0)
unfolding split_timezone
split_timezone-snoc s = rw (strip_last-snoc 90 s, split_timezone) refl

instant-balance :
    (days : ℤ) (rem : ℕ)
    → above (instant days (clock_of rem) (pos 0)) + below days * 86400000
      ≡ below (instant days (clock_of rem) (pos 0)) + (above days * 86400000 + rem)
instant-balance days rem =
    let whole = days *ℤ pos 86400000 in
    let hours = whole +ℤ pos (rem / 3600000 * 3600000) in
    let minutes = hours +ℤ pos (rem % 3600000 / 60000 * 60000) in
    let seconds = minutes +ℤ pos (rem % 3600000 % 60000 / 1000 * 1000) in
    let local = seconds +ℤ pos (rem % 3600000 % 60000 % 1000) in
    omega (
      arith,
      *ℤ-balance days 86400000,
      +ℤ-balance whole (pos (rem / 3600000 * 3600000)),
      +ℤ-balance hours (pos (rem % 3600000 / 60000 * 60000)),
      +ℤ-balance minutes (pos (rem % 3600000 % 60000 / 1000 * 1000)),
      +ℤ-balance seconds (pos (rem % 3600000 % 60000 % 1000)),
      -ℤ-balance local (pos 0 *ℤ pos 60000),
      *ℤ-balance (pos 0) 60000,
    )

-- The days and the time of an instant are the instant.
instant-euclid :
    (z : ℤ) → instant (div_euclid z 86400000) (clock_of (rem_euclid z 86400000)) (pos 0) ≡ z
instant-euclid (pos n) =
    ℤ-ext _ (pos n)
      (omega (arith, instant-balance (div_euclid (pos n) 86400000) (rem_euclid (pos n) 86400000)))
instant-euclid (negsuc n) = ℤ-ext _ (negsuc n) (
    omega
      (arith, instant-balance (div_euclid (negsuc n) 86400000) (rem_euclid (negsuc n) 86400000)))

rem_euclid-lt : (z : ℤ) → rem_euclid z 86400000 < 86400000
rem_euclid-lt (pos n) = omega arith
rem_euclid-lt (negsuc n) = omega arith

parse_timestamp_millis-timestamp_text :
    (z : ℤ) (year month day : ℕ)
    → civil_from_unix_days (div_euclid z 86400000) ≡ ok (year, month, day)
    → parse_timestamp_millis (timestamp_text (year, month, day) (rem_euclid z 86400000)) ≡ ok z
unfolding month_days
parse_timestamp_millis-timestamp_text z year month day e =
    let rem = rem_euclid z 86400000 in
    let is_date = (civil-Lies year month day (div_euclid z 86400000) e).0 in
    ap parse_timestamp_millis (timestamp_text-halves year month day rem)
    ∙ parse_timestamp_millis-instant
        ((date_text year month day ++ (84 ∷ time_text rem)) ++ (90 ∷ []))
        (date_text year month day ++ (84 ∷ time_text rem)) (date_text year month day)
        (time_text rem) (pos 0) year month day (clock_of rem) (div_euclid z 86400000)
        (split_timezone-snoc (date_text year month day ++ (84 ∷ time_text rem)))
        (split_once-append 84 (date_text year month day) (time_text rem)
          (date_text-Free year month day))
        (parse_date-date_text year month day (omega (arith, is_date.year_in))
          (omega (arith, is_date.month_in)) (ground (arith, is_date.day_in)))
        (parse_time-time_text rem (rem_euclid-lt z))
        ((civil_from_unix_days-unix_days year month day (div_euclid z 86400000)).0 e)
    ∙ ap ok (instant-euclid z)

-- An instant that is formatted gives a text that is a canonical timestamp and that parses to the
-- same instant.
pub format_utc_millis-parse_timestamp_millis :
    (z : ℤ) (s : Str)
    → format_utc_millis z ≡ ok s
    → (is_canonical_timestamp s ≡ true) × (parse_timestamp_millis s ≡ ok z)
unfolding format_utc_millis
format_utc_millis-parse_timestamp_millis z s e =
    let ((year, month, day), civil, rest) =
      >>=-eq-ok (civil_from_unix_days (div_euclid z 86400000)) _ e in
    let same : timestamp_text (year, month, day) (rem_euclid z 86400000) ≡ s = cc in
    subst (λ t. (is_canonical_timestamp t ≡ true) × (parse_timestamp_millis t ≡ ok z)) same
      (
        timestamp_text-canonical year month day (rem_euclid z 86400000),
        parse_timestamp_millis-timestamp_text z year month day civil,
      )
