-- ===== src/Value/Calendar/Loops.antt =====
-- The loops of `civil_from_unix_days` on a number of days that is cut into years and months.
use mikura.Common.{ℕ, zero, suc, ◌+◌, ◌-◌, ◌≤◌, ◌<◌, ◌≡◌, sym, ap, ◌∙◌, arith, not}
use mikura.Common.{Bool-cases, inl, inr, if-true, if-false, ltb, Result, ok}
use mikura.Common.Ints.{ℤ, pos, ◌+ℤ◌, ltb_ℤ, above, below, +ℤ-balance, one_sided}
use mikura.Errors.{Error}
use mikura.Value.Calendar.{year_days, month_days, years_on, years_back, months_on}
use mikura.Value.Calendar.Spans.{years, months, years-snoc}

-- The year `found` is `count` years on, and `left` days of it are left.
pub years_on-years :
    (count fuel year found days left : ℕ)
    → count < fuel
    → found ≡ year + count
    → found ≤ 9999
    → days ≡ years count year + left
    → left < year_days found
    → years_on fuel year days ≡ ok (found, left)
unfolding years_on years
years_on-years count zero year found days left lt eq le sum short = absurd (omega arith)
years_on-years zero (suc fuel) year found days left lt eq le sum short =
    let same : found ≡ year = omega arith in ground (arith, ap year_days same)
years_on-years (suc count) (suc fuel) year found days left lt eq le sum short = ground (
  arith,
  years_on-years count fuel (suc year) found (days - year_days year) left (omega arith)
      (omega arith) le (omega arith) short,
)

same_answer :
    (r : Result Error (ℕ × ℕ)) (a b c d : ℕ) → r ≡ ok (a, b) → r ≡ ok (c, d) → (a ≡ c) × (b ≡ d)
same_answer r a b c d e f = (cc, cc)

-- A number of days cut into `count` years and the days left of the next, the year `found`.
pub record Cut (year days found left : ℕ) : Type 0 where
  pub count : ℕ
  pub at : found ≡ year + count
  pub le : found ≤ 9999
  pub short : left < year_days found
  pub sum : days ≡ years count year + left

pub years_on-ok :
    (fuel year days found left : ℕ)
    → year ≤ 9999
    → years_on fuel year days ≡ ok (found, left)
    → Cut year days found left
unfolding years_on years
years_on-ok zero year days found left le e = cc
years_on-ok (suc fuel) year days found left le e = elim (Bool-cases (ltb days (year_days year))) [
  | inl here ↦
      let (same, rest) =
        same_answer (years_on (suc fuel) year days) year days found left (if-true _ here) e in
      record {
        count = 0;
        at = omega (arith, same);
        le = omega (arith, same);
        short = ground (arith, ap year_days same);
        sum = omega (arith, rest);
      }
  | inr past ↦ elim (Bool-cases (ltb 9999 (suc year))) [
    | inl over ↦ cc
    | inr under ↦
        let c =
          years_on-ok fuel (suc year) (days - year_days year) found left (ground arith)
            (sym (if-false _ under) ∙ sym (if-false _ past) ∙ e) in
        record {
          count = suc c.count;
          at = omega (arith, c.at);
          le = c.le;
          short = c.short;
          sum = ground (arith, c.sum);
        }
  ]
]

pub years_back-years :
    (count year end left : ℕ) (days : ℤ)
    → 1 ≤ year
    → left < year_days year
    → end ≡ year + suc count
    → above days + years (suc count) year ≡ below days + left
    → years_back end days ≡ ok (year, left)
unfolding years_back years
years_back-years count year zero left days one short eq sum = absurd (omega arith)
years_back-years zero year (suc end) left days one short eq sum =
    let same : end ≡ year = omega arith in
    ground (arith, ap year_days same, +ℤ-balance days (pos (year_days end)))
years_back-years (suc count) year (suc end) left days one short eq sum =
    let last_year : end ≡ year + suc count = omega arith in
    ground (
      arith,
      years-snoc (suc count) year,
      ap year_days last_year,
      +ℤ-balance days (pos (year_days end)),
      years_back-years count year end left (days +ℤ pos (year_days end)) one short last_year,
    )

pub months_on-months :
    (year k count month found days left : ℕ)
    → k < count
    → found ≡ month + k
    → days ≡ months year k month + left
    → left < month_days year found
    → months_on year count month days ≡ (found, left)
unfolding months_on months
months_on-months year k zero month found days left lt eq sum short = absurd (omega arith)
months_on-months year zero (suc count) month found days left lt eq sum short =
    let same : found ≡ month = omega arith in ground (arith, ap (month_days year) same)
months_on-months year (suc k) (suc count) month found days left lt eq sum short = ground (
  arith,
  months_on-months year k count (suc month) found (days - month_days year month) left (omega arith)
      (omega arith) (omega arith) short,
)

-- A day of a year, `left` days into the month `found`.
pub record Within (year count month days found left : ℕ) : Type 0 where
  pub before : ℕ
  pub lt : before < count
  pub at : found ≡ month + before
  pub short : left < month_days year found
  pub sum : days ≡ months year before month + left

pub months_on-Within :
    (year count month days found left : ℕ)
    → days < months year count month
    → months_on year count month days ≡ (found, left)
    → Within year count month days found left
unfolding months_on months
months_on-Within year zero month days found left lt e = absurd (omega arith)
months_on-Within year (suc count) month days found left lt e =
    elim (Bool-cases (ltb days (month_days year month))) [
      | inl here ↦
          (let same : (let p : ℕ × ℕ = (month, days) in p) ≡ (found, left) =
              sym (if-true _ here) ∙ e in
            let at : month ≡ found = ap (λ p. p.0) same in
            let rest : days ≡ left = ap (λ p. p.1) same in
            record {
              before = 0;
              lt = omega arith;
              at = omega (arith, at);
              short = ground (arith, ap (month_days year) at, rest);
              sum = omega (arith, rest);
            })
      | inr past ↦
          (let w =
              months_on-Within year count (suc month) (days - month_days year month) found left
                (ground (arith, lt)) (sym (if-false _ past) ∙ e) in
            record {
              before = suc w.before;
              lt = omega (arith, w.lt);
              at = omega (arith, w.at);
              short = w.short;
              sum = ground (arith, w.sum);
            })
    ]

-- A day before the year `end`, `left` days into the year `found`.
pub record Before (end : ℕ) (days : ℤ) (found left : ℕ) : Type 0 where
  pub count : ℕ
  pub at : end ≡ found + suc count
  pub one : 1 ≤ found
  pub short : left < year_days found
  pub sum : above days + years (suc count) found ≡ below days + left

pub years_back-Before :
    (end : ℕ) (days : ℤ) (found left : ℕ)
    → 0 < below days
    → years_back end days ≡ ok (found, left)
    → Before end days found left
unfolding years_back years
years_back-Before zero days found left neg e = cc
years_back-Before (suc end) days found left neg e = elim (Bool-cases (ltb end 1)) [
  | inl under ↦ cc
  | inr over ↦ elim (Bool-cases (not (ltb_ℤ (days +ℤ pos (year_days end)) (pos 0)))) [
    | inl here ↦
        (let (same, rest) =
            same_answer (years_back (suc end) days) end (above (days +ℤ pos (year_days end))) found
              left (if-false _ over ∙ if-true _ here) e in
          record {
            count = 0;
            at = omega (arith, same);
            one = ground (arith, same);
            short = ground (
              arith,
              +ℤ-balance days (pos (year_days end)),
              one_sided days,
              one_sided (days +ℤ pos (year_days end)),
              rest,
              here,
              ap year_days same,
            );
            sum = ground (
              arith,
              +ℤ-balance days (pos (year_days end)),
              one_sided days,
              one_sided (days +ℤ pos (year_days end)),
              rest,
              here,
              ap year_days same,
            );
          })
    | inr past ↦
        (let b =
            years_back-Before end (days +ℤ pos (year_days end)) found left
              (ground (
                arith,
                +ℤ-balance days (pos (year_days end)),
                one_sided days,
                one_sided (days +ℤ pos (year_days end)),
                past,
              ))
              (sym (if-false _ past) ∙ sym (if-false _ over) ∙ e) in
          let at : end ≡ found + suc b.count = b.at in
          record {
            count = suc b.count;
            at = omega (arith, b.at);
            one = b.one;
            short = b.short;
            sum = ground (
              arith,
              b.sum,
              +ℤ-balance days (pos (year_days end)),
              sym (years-snoc (suc b.count) found),
              ap year_days at,
            );
          })
  ]
]
