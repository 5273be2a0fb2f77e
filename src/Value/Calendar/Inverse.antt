-- ===== src/Value/Calendar/Inverse.antt =====
-- The calendar of src/value.rs, both ways.
use mikura.Common.{
  ℕ, zero, suc, ◌+◌, ◌-◌, ◌≤◌, ◌<◌, ◌≡◌, ◌↔◌, refl, sym, ap, subst, ◌∙◌, arith, ◌||◌,
}
use mikura.Common.{
  Bool-cases, else-ok, ok-else, inl, inr, ltb, leb, ◌==◌, if◌then◌else◌, Result, ok, err,
}
use mikura.Common.Ints.{ℤ, pos, negsuc, ◌+ℤ◌, ◌-ℤ◌, above, below, +ℤ-balance, -ℤ-balance, ℤ-ext}
use mikura.Errors.{Error}
use mikura.Value.Calendar.{
  year_days, month_days, add_years, sub_years, add_months, unix_days, years_on, years_back,
  months_on, in_year, civil_from_unix_days,
}
use mikura.Value.Calendar.Spans.{years, months, add_years-years, sub_years-years, add_months-months}
use mikura.Value.Calendar.Loops.{
  years_on-years, years_on-ok, years_back-years, years_back-Before, months_on-months,
  months_on-Within,
}

pub record IsDate (year month day : ℕ) : Type 0 where
  pub year_in : (1 ≤ year) × (year ≤ 9999)
  pub month_in : (1 ≤ month) × (month ≤ 12)
  pub day_in : (1 ≤ day) × (day ≤ month_days year month)

twelve_months : (year : ℕ) → months year 12 1 ≡ year_days year
unfolding months month_days
twelve_months year = ground arith

-- A month ends within the months that it is one of.
months-fit :
    (year k count month found : ℕ)
    → k < count
    → found ≡ month + k
    → months year k month + month_days year found ≤ months year count month
unfolding months
months-fit year k zero month found lt eq = absurd (omega arith)
months-fit year zero (suc count) month found lt eq =
    let same : found ≡ month = omega arith in omega (arith, ap (month_days year) same)
months-fit year (suc k) (suc count) month found lt eq =
    omega (arith, months-fit year k count (suc month) found (omega arith) (omega arith))

-- The days of the year before a day of it.
abbrev pub day_index : ℕ → ℕ → ℕ → ℕ
day_index year month day = months year (month - 1) 1 + (day - 1)

pub day_index-lt :
    (year month day : ℕ) → IsDate year month day → day_index year month day < year_days year
day_index-lt year month day h = omega (
  arith,
  h.month_in,
  h.day_in,
  twelve_months year,
  months-fit year (month - 1) 12 1 month (omega (arith, h.month_in)) (omega (arith, h.month_in)),
)

-- Where a day lies, by the years from 1970 or to 1970.
abbrev pub Lies : ℕ → ℕ → ℕ → ℤ → Type 0
Lies year month day z =
    above z + years (1970 - year) year
    ≡ below z + (years (year - 1970) 1970 + day_index year month day)

-- The days of 1 January of a year.
abbrev new_year : ℕ → ℤ
unfolding add_years sub_years
new_year year =
    if leb 1970 year
    then add_years (year - 1970) 1970 (pos 0)
    else sub_years (1970 - year) year (pos 0)

new_year-years :
    (year : ℕ)
    → above (new_year year) + years (1970 - year) year
      ≡ below (new_year year) + years (year - 1970) 1970
unfolding years new_year
new_year-years year = elim (Bool-cases (leb 1970 year)) [
  | inl late ↦ ground (
    arith,
    late,
    add_years-years (year - 1970) 1970 (pos 0),
    +ℤ-balance (pos 0) (pos (years (year - 1970) 1970)),
  )
  | inr soon ↦ ground (
    arith,
    soon,
    sub_years-years (1970 - year) year (pos 0),
    -ℤ-balance (pos 0) (pos (years (1970 - year) year)),
  )
]

abbrev day_of : ℕ → ℕ → ℕ → ℤ
unfolding add_months
day_of year month day = (add_months year (month - 1) 1 (new_year year) +ℤ pos day) -ℤ pos 1

day_of-Lies : (year month day : ℕ) → 1 ≤ day → Lies year month day (day_of year month day)
unfolding day_of
day_of-Lies year month day one = omega (
  arith,
  one,
  new_year-years year,
  ap above (add_months-months year (month - 1) 1 (new_year year)),
  ap below (add_months-months year (month - 1) 1 (new_year year)),
  +ℤ-balance (new_year year) (pos (months year (month - 1) 1)),
  +ℤ-balance (add_months year (month - 1) 1 (new_year year)) (pos day),
  -ℤ-balance (add_months year (month - 1) 1 (new_year year) +ℤ pos day) (pos 1),
)

unix_days-day_of :
    (year month day : ℕ)
    → IsDate year month day
    → unix_days year month day ≡ ok (day_of year month day)
unfolding unix_days
unix_days-day_of year month day h =
    ok-else (ltb year 1 || ltb 9999 year) _ _ (ground (arith, h.year_in)) (
      ok-else (ltb month 1 || ltb 12 month) _ _ (ground (arith, h.month_in)) (
        ok-else ((day == 0) || ltb (month_days year month) day) _ _ (ground (arith, h.day_in))
          refl))

unix_days-IsDate :
    (year month day : ℕ) (z : ℤ) → unix_days year month day ≡ ok z → IsDate year month day
unfolding unix_days
unix_days-IsDate year month day z e =
    let (years_ok, rest) = else-ok (ltb year 1 || ltb 9999 year) _ _ e in
    let (months_ok, last) = else-ok (ltb month 1 || ltb 12 month) _ _ rest in
    let (days_ok, value) = else-ok ((day == 0) || ltb (month_days year month) day) _ _ last in
    record {
      year_in = ground (arith, years_ok);
      month_in = ground (arith, months_ok);
      day_in = ground (arith, days_ok);
    }

-- A date has one number.
Lies-unique : (year month day : ℕ) (z w : ℤ) → Lies year month day z → Lies year month day w → z ≡ w
Lies-unique year month day z w h k = ℤ-ext z w (omega arith)

pub ok-injective : (z w : ℤ) → (let x : Result Error ℤ = ok z in x) ≡ ok w → z ≡ w
ok-injective z w e = cc

pub unix_days-Lies :
    (year month day : ℕ) (z : ℤ)
    → (unix_days year month day ≡ ok z) ↔ (IsDate year month day × Lies year month day z)
unix_days-Lies year month day z = (
  λ e. (
    unix_days-IsDate year month day z e,
    subst (λ w. Lies year month day w)
        (ok-injective _ _
          (sym (unix_days-day_of year month day (unix_days-IsDate year month day z e)) ∙ e))
        (day_of-Lies year month day (unix_days-IsDate year month day z e).day_in.0),
  ),
  λ p.
      unix_days-day_of year month day p.0
      ∙ ap ok (
          Lies-unique year month day (day_of year month day) z
            (day_of-Lies year month day p.0.day_in.0) p.1),
)

-- The year and the days left in it, then the month.
in_year-date :
    (year month day : ℕ)
    → IsDate year month day
    → in_year (ok (year, day_index year month day)) ≡ ok (year, month, day)
in_year-date year month day h =
    let months_ok =
      months_on-months year (month - 1) 12 1 month (day_index year month day) (day - 1)
        (omega (arith, h.month_in)) (omega (arith, h.month_in)) refl (omega (arith, h.day_in)) in
    let back : day - 1 + 1 ≡ day = omega (arith, h.day_in) in rw months_ok (rw back refl)

years-first : (count year : ℕ) → 1 ≤ count → year_days year ≤ years count year
unfolding years
years-first zero year h = absurd (omega arith)
years-first (suc count) year h = omega arith

years-none : (count year : ℕ) → count ≡ 0 → years count year ≡ 0
unfolding years
years-none zero year h = refl
years-none (suc count) year h = absurd (omega arith)

-- What `in_year` went through.
record YearMonth (r : Result Error (ℕ × ℕ)) (year month day : ℕ) : Type 0 where
  left : ℕ
  behind : ℕ
  got : r ≡ ok (year, left)
  in_month : months_on year 12 1 left ≡ (month, behind)
  shown : behind + 1 ≡ day

pub triple-injective :
    (p q : ℕ × ℕ × ℕ) → (let x : Result Error (ℕ × ℕ × ℕ) = ok p in x) ≡ ok q → p ≡ q
triple-injective p q e = cc

in_year-YearMonth :
    (r : Result Error (ℕ × ℕ)) (year month day : ℕ)
    → in_year r ≡ ok (year, month, day)
    → YearMonth r year month day
in_year-YearMonth (err f) year month day e = cc
in_year-YearMonth (ok (y, left)) year month day e =
    let parts = months_on y 12 1 left in
    let same : (y, parts.0, parts.1 + 1) ≡ (year, month, day) = triple-injective _ _ e in
    record {
      left = left;
      behind = parts.1;
      got = ap (λ (d : ℕ × ℕ × ℕ). ok (d.0, left)) same;
      in_month =
          ap (λ (d : ℕ × ℕ × ℕ). months_on d.0 12 1 left) (sym same)
          ∙ ap (λ (d : ℕ × ℕ × ℕ). (d.1, parts.1)) same;
      shown = ap (λ (d : ℕ × ℕ × ℕ). d.2) same;
    }

YearMonth-IsDate :
    (r : Result Error (ℕ × ℕ)) (year month day : ℕ) (ym : YearMonth r year month day)
    → (1 ≤ year) × (year ≤ 9999)
    → ym.left < year_days year
    → IsDate year month day × (ym.left ≡ day_index year month day)
unfolding months
YearMonth-IsDate r year month day ym range short =
    let w =
      months_on-Within year 12 1 ym.left month ym.behind (omega (arith, short, twelve_months year))
        ym.in_month in
    let count : month - 1 ≡ w.before = omega (arith, w.at) in
    (
      record {
        year_in = range;
        month_in = omega (arith, w.at, w.lt);
        day_in = omega (arith, ym.shown, w.short);
      },
      omega (arith, ym.shown, w.sum, ap (λ n. months year n 1) count),
    )

pub Lies-civil :
    (year month day : ℕ) (z : ℤ)
    → IsDate year month day
    → Lies year month day z
    → civil_from_unix_days z ≡ ok (year, month, day)
unfolding civil_from_unix_days years
Lies-civil year month day (pos days) h lies =
    let within = day_index-lt year month day h in
    let late : 1970 ≤ year = ground (arith, lies, years-first (1970 - year) year) in
    let on : years_on 8030 1970 days ≡ ok (year, day_index year month day) =
      years_on-years (year - 1970) 8030 1970 year days (day_index year month day)
        (omega (arith, h.year_in)) (omega (arith, late)) (h.year_in.1)
        (omega (arith, lies, years-none (1970 - year) year (omega (arith, late)))) within in
    ap in_year on ∙ in_year-date year month day h
Lies-civil year month day (negsuc days) h lies =
    let within = day_index-lt year month day h in
    let soon : year < 1970 = ground (arith, lies, years-none (1970 - year) year) in
    let count : 1970 - year ≡ suc (1970 - year - 1) = omega (arith, soon) in
    let back : years_back 1970 (negsuc days) ≡ ok (year, day_index year month day) =
      years_back-years (1970 - year - 1) year 1970 (day_index year month day) (negsuc days)
        (h.year_in.0) within (omega (arith, soon))
        (omega (
          arith,
          lies,
          years-none (year - 1970) 1970 (omega (arith, soon)),
          ap (λ n. years n year) count,
        )) in
    ap in_year back ∙ in_year-date year month day h

pub civil-Lies :
    (year month day : ℕ) (z : ℤ)
    → civil_from_unix_days z ≡ ok (year, month, day)
    → IsDate year month day × Lies year month day z
unfolding civil_from_unix_days years
civil-Lies year month day (pos days) e =
    let ym = in_year-YearMonth (years_on 8030 1970 days) year month day e in
    let c = years_on-ok 8030 1970 days year ym.left (omega arith) ym.got in
    let (is_date, index) =
      YearMonth-IsDate (years_on 8030 1970 days) year month day ym (omega (arith, c.at, c.le))
        c.short in
    let count : year - 1970 ≡ c.count = omega (arith, c.at) in
    (
      is_date,
      omega (
        arith,
        index,
        c.sum,
        ap (λ n. years n 1970) count,
        years-none (1970 - year) year (omega (arith, c.at)),
      ),
    )
civil-Lies year month day (negsuc days) e =
    let ym = in_year-YearMonth (years_back 1970 (negsuc days)) year month day e in
    let b = years_back-Before 1970 (negsuc days) year ym.left (omega arith) ym.got in
    let (is_date, index) =
      YearMonth-IsDate (years_back 1970 (negsuc days)) year month day ym
        (b.one, omega (arith, b.at)) b.short in
    let count : 1970 - year ≡ suc b.count = omega (arith, b.at) in
    (
      is_date,
      omega (
        arith,
        index,
        b.sum,
        ap (λ n. years n year) count,
        years-none (year - 1970) 1970 (omega (arith, b.at)),
      ),
    )

-- A day number is converted to a date exactly when that date is converted to the day number; so
-- each conversion undoes the other, and the two refuse the same inputs.
pub civil_from_unix_days-unix_days :
    (year month day : ℕ) (z : ℤ)
    → (civil_from_unix_days z ≡ ok (year, month, day)) ↔ (unix_days year month day ≡ ok z)
civil_from_unix_days-unix_days year month day z = (
  λ e. (unix_days-Lies year month day z).1 (civil-Lies year month day z e),
  λ e.
      let (is_date, lies) = (unix_days-Lies year month day z).0 e in
      Lies-civil year month day z is_date lies,
)
