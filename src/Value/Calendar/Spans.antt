-- ===== src/Value/Calendar/Spans.antt =====
-- The days in runs of years and of months, and what the loops of src/value.rs make of them.
use mikura.Common.{ℕ, zero, suc, ◌+◌, ◌*◌, ◌≤◌, ◌≡◌, ◌∙◌, arith}
use mikura.Common.Ints.{ℤ, pos, ◌+ℤ◌, ◌-ℤ◌, +ℤ-balance, -ℤ-balance, ℤ-ext}
use mikura.Value.Calendar.{year_days, month_days, add_years, sub_years, add_months}

-- The days of `count` years from `year` on, and of `count` months.
unfoldable pub years : ℕ → ℕ → ℕ
years zero year = 0
years (suc count) year = year_days year + years count (suc year)

unfoldable pub months : ℕ → ℕ → ℕ → ℕ
months year zero month = 0
months year (suc count) month = month_days year month + months year count (suc month)

pub add_years-years :
    (count year : ℕ) (z : ℤ) → add_years count year z ≡ z +ℤ pos (years count year)
unfolding add_years years
add_years-years zero year z = ℤ-ext z (z +ℤ pos 0) (omega (arith, +ℤ-balance z (pos 0)))
add_years-years (suc count) year z =
    add_years-years count (suc year) (z +ℤ pos (year_days year))
    ∙ ℤ-ext _ _ (
        omega (
          arith,
          +ℤ-balance z (pos (year_days year)),
          +ℤ-balance (z +ℤ pos (year_days year)) (pos (years count (suc year))),
          +ℤ-balance z (pos (year_days year + years count (suc year))),
        ))

pub sub_years-years :
    (count year : ℕ) (z : ℤ) → sub_years count year z ≡ z -ℤ pos (years count year)
unfolding sub_years years
sub_years-years zero year z = ℤ-ext z (z -ℤ pos 0) (omega (arith, -ℤ-balance z (pos 0)))
sub_years-years (suc count) year z =
    sub_years-years count (suc year) (z -ℤ pos (year_days year))
    ∙ ℤ-ext _ _ (
        omega (
          arith,
          -ℤ-balance z (pos (year_days year)),
          -ℤ-balance (z -ℤ pos (year_days year)) (pos (years count (suc year))),
          -ℤ-balance z (pos (year_days year + years count (suc year))),
        ))

pub add_months-months :
    (year count month : ℕ) (z : ℤ)
    → add_months year count month z ≡ z +ℤ pos (months year count month)
unfolding add_months months
add_months-months year zero month z = ℤ-ext z (z +ℤ pos 0) (omega (arith, +ℤ-balance z (pos 0)))
add_months-months year (suc count) month z =
    add_months-months year count (suc month) (z +ℤ pos (month_days year month))
    ∙ ℤ-ext _ _ (
        omega (
          arith,
          +ℤ-balance z (pos (month_days year month)),
          +ℤ-balance (z +ℤ pos (month_days year month)) (pos (months year count (suc month))),
          +ℤ-balance z (pos (month_days year month + months year count (suc month))),
        ))

-- The last year of a run, counted on its own.
pub years-snoc :
    (count year : ℕ) → years (suc count) year ≡ years count year + year_days (year + count)
unfolding years
years-snoc zero year = rw (plus_zero year) (omega arith)
  where
    plus_zero : (n : ℕ) → n + 0 ≡ n
    plus_zero n = omega arith
years-snoc (suc count) year = rw (years-snoc count (suc year), plus_suc year count) (omega arith)
  where
    plus_suc : (n m : ℕ) → n + suc m ≡ suc n + m
    plus_suc n m = omega arith

pub year_days_range : (year : ℕ) → (365 ≤ year_days year) × (year_days year ≤ 366)
year_days_range year = ground arith

pub years-le : (count year : ℕ) → years count year ≤ 366 * count
unfolding years
years-le zero year = omega arith
years-le (suc count) year = omega (arith, years-le count (suc year), year_days_range year)
