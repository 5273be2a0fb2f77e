-- ===== src/Value/Calendar.antt =====
-- The civil calendar of src/value.rs: days since 1970-01-01 of a date, and the date of a day. Years are
-- from 1 to 9999 and so never negative. The loop of years backwards is a recursion on the year; the
-- loop forwards has fuel, and ends by its test of the year.
pub mod Spans
pub mod Loops
pub mod Inverse
use mikura.Common.{
  ℕ, zero, suc, ◌+◌, ◌-◌, ◌*◌, ◌%◌, ◌≤◌, ◌<◌, ◌≡◌, refl, sym, ap, ◌∙◌, arith, Bool, true, false,
  not, ◌&&◌, ◌||◌,
}
use mikura.Common.{ltb, leb, ◌==◌, if◌then◌else◌, Result, ok, err}
use mikura.Common.Ints.{
  ℤ, pos, negsuc, ◌+ℤ◌, ◌-ℤ◌, ltb_ℤ, above, below, +ℤ-balance, -ℤ-balance, ℤ-ext,
}
use mikura.Errors.{
  Error, year_out_of_range, month_out_of_range, day_out_of_range, year_overflows, year_underflows,
}

unfoldable pub is_leap : ℕ → Bool
is_leap year = (year % 4 == 0) && (not (year % 100 == 0) || (year % 400 == 0))

abbrev pub year_days : ℕ → ℕ
year_days year = if is_leap year then 366 else 365

-- `month_days(year)[month - 1]`, from month 1 on.
unfoldable pub month_days : ℕ → ℕ → ℕ
unfolding is_leap
month_days year month =
    if month == 2
    then (if is_leap year then 29 else 28)
    else if (month == 4) || (month == 6) || (month == 9) || (month == 11)
    then 30
    else 31

-- `for y in year..year + count { days += .. }`, and with `-=`.
unfoldable pub add_years : ℕ → ℕ → ℤ → ℤ
add_years zero year days = days
add_years (suc count) year days = add_years count (suc year) (days +ℤ pos (year_days year))

unfoldable pub sub_years : ℕ → ℕ → ℤ → ℤ
sub_years zero year days = days
sub_years (suc count) year days = sub_years count (suc year) (days -ℤ pos (year_days year))

-- `for m in month..month + count { days += .. }`.
unfoldable pub add_months : ℕ → ℕ → ℕ → ℤ → ℤ
unfolding month_days
add_months year zero month days = days
add_months year (suc count) month days =
    add_months year count (suc month) (days +ℤ pos (month_days year month))

unfoldable pub unix_days : ℕ → ℕ → ℕ → Result Error ℤ
unfolding add_years sub_years add_months
unix_days year month day =
    if ltb year 1 || ltb 9999 year
    then err year_out_of_range
    else if ltb month 1 || ltb 12 month
    then err month_out_of_range
    else if (day == 0) || ltb (month_days year month) day
    then err day_out_of_range
    else ok (
        (add_months year (month - 1) 1 (
            if leb 1970 year
            then add_years (year - 1970) 1970 (pos 0)
            else sub_years (1970 - year) year (pos 0))
          +ℤ pos day)
        -ℤ pos 1)

-- The year of a day at or behind 1970-01-01, with the days left in it.
unfoldable pub years_on : ℕ → ℕ → ℕ → Result Error (ℕ × ℕ)
years_on zero year days = err year_overflows
years_on (suc fuel) year days =
    let later = years_on fuel (suc year) (days - year_days year) in
    if ltb days (year_days year)
    then ok (year, days)
    else if ltb 9999 (suc year)
    then err year_overflows
    else later

-- The year of a day before `year`, with the days left in it.
unfoldable pub years_back : ℕ → ℤ → Result Error (ℕ × ℕ)
years_back zero days = err year_underflows
years_back (suc year) days =
    let sum = days +ℤ pos (year_days year) in
    let sooner = years_back year sum in
    if ltb year 1
    then err year_underflows
    else if not (ltb_ℤ sum (pos 0))
    then ok (year, above sum)
    else sooner

-- The loop of months, with `count` months left; behind the last the month is 1.
unfoldable pub months_on : ℕ → ℕ → ℕ → ℕ → ℕ × ℕ
unfolding month_days
months_on year zero month days = (1, days)
months_on year (suc count) month days =
    let later = months_on year count (suc month) (days - month_days year month) in
    if ltb days (month_days year month) then (month, days) else later

abbrev pub in_year : Result Error (ℕ × ℕ) → Result Error (ℕ × ℕ × ℕ)
in_year (err e) = err e
in_year (ok (year, days)) =
    let (month, left) = months_on year 12 1 days in ok (year, month, left + 1)

unfoldable pub civil_from_unix_days : ℤ → Result Error (ℕ × ℕ × ℕ)
unfolding years_on years_back months_on
civil_from_unix_days (pos days) = in_year (years_on 8030 1970 days)
civil_from_unix_days (negsuc days) = in_year (years_back 1970 (negsuc days))
