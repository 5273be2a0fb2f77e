-- ===== src/Value/Timestamp/Bounds.antt =====
-- The sums of `parse_timestamp_millis` in the range of i64.
use mikura.Common.{
  ℕ, ◌+◌, ◌-◌, ◌*◌, ◌≤◌, ◌≡◌, ap, ◌∙◌, arith, not, ◌||◌, List, [], ◌∷◌, length, ◌==◌, else-ok,
  >>=-eq-ok, subst,
}
use mikura.Common.Text.{Str}
use mikura.Common.Strings.{
  value_from, parse_digits, strip_prefix, split_once, split_char, strip_last,
}
use mikura.Common.{Option, none, some, ltb, Result, ok, ◌>>=◌}
use mikura.Common.Ints.{
  ℤ, pos, negsuc, ◌+ℤ◌, ◌-ℤ◌, ◌*ℤ◌, above, below, +ℤ-balance, -ℤ-balance, *ℤ-balance, one_sided,
}
use mikura.Value.Calendar.{unix_days}
use mikura.Value.Calendar.Spans.{years-le, year_days_range}
use mikura.Value.Calendar.Inverse.{day_index-lt, unix_days-Lies, ok-injective}
use mikura.Errors.{Error}
use mikura.Value.Timestamp.{
  checked, millis_of, parse_fraction, parse_two_digits, time_of, parse_time, offset_minutes,
  behind_sign, split_timezone, offset_of, last_sign, parse_date, parse_timestamp_millis,
}

abbrev pub Small : ℕ → ℤ → Type 0
Small most z = (above z ≤ most) × (below z ≤ most)

checked-Small : (z : ℤ) → Small 4000000000000000000 z → checked z ≡ ok z
checked-Small (pos n) h = ground arith
checked-Small (negsuc n) h = ground arith

-- The clock of a day.
pub record IsClock (clock : ℕ × ℕ × ℕ × ℕ) : Type 0 where
  pub hour_in : clock.0 ≤ 23
  pub minute_in : clock.1 ≤ 59
  pub second_in : clock.2 ≤ 59
  pub milli_in : clock.3 ≤ 999

-- The instant, without the checks.
abbrev pub instant : ℤ → ℕ × ℕ × ℕ × ℕ → ℤ → ℤ
instant days (hour, minute, second, milli) offset_min =
    days *ℤ pos 86400000
    +ℤ pos (hour * 3600000)
    +ℤ pos (minute * 60000)
    +ℤ pos (second * 1000)
    +ℤ pos milli
    -ℤ (offset_min *ℤ pos 60000)

Small-+ℤ : (a b : ℕ) (x : ℤ) (y : ℕ) → Small a x → y ≤ b → Small (a + b) (x +ℤ pos y)
Small-+ℤ a b x y h k = ground (arith, +ℤ-balance x (pos y), one_sided (x +ℤ pos y))

times_le : (x a n : ℕ) → x ≤ a → x * n ≤ a * n
times_le x a n h = grind arith

Small-le : (a b : ℕ) (x : ℤ) → Small a x → a ≤ b → Small b x
Small-le a b x h k = omega arith

checked-step :
    (z : ℤ) (next : ℤ → Result Error ℤ)
    → Small 4000000000000000000 z
    → (checked z >>= next) ≡ next z
checked-step z next h = ap (λ r. r >>= next) (checked-Small z h)

Small-*ℤ : (a n : ℕ) (x : ℤ) → Small a x → Small (a * n) (x *ℤ pos n)
Small-*ℤ a n x h = (
  ground (
    arith,
    *ℤ-balance x n,
    one_sided (x *ℤ pos n),
    times_le (above x) a n h.0,
    times_le (below x) a n h.1,
  ),
  ground (
    arith,
    *ℤ-balance x n,
    one_sided (x *ℤ pos n),
    times_le (above x) a n h.0,
    times_le (below x) a n h.1,
  ),
)

Small--ℤ : (a b : ℕ) (x y : ℤ) → Small a x → Small b y → Small (a + b) (x -ℤ y)
Small--ℤ a b x y h k = ground (arith, -ℤ-balance x y, one_sided (x -ℤ y))

pub millis_of-instant :
    (days : ℤ) (clock : ℕ × ℕ × ℕ × ℕ) (offset_min : ℤ)
    → Small 4000000 days
    → IsClock clock
    → Small 1439 offset_min
    → millis_of days clock offset_min ≡ ok (instant days clock offset_min)
unfolding millis_of
millis_of-instant days (hour, minute, second, milli) offset_min hd hc ho =
    let d1 = Small-*ℤ 4000000 86400000 days hd in
    let d2 =
      Small-+ℤ 345600000000000 100000000 (days *ℤ pos 86400000) (hour * 3600000) d1
        (omega (arith, hc.hour_in)) in
    let d3 =
      Small-+ℤ 345600100000000 100000000 (days *ℤ pos 86400000 +ℤ pos (hour * 3600000))
        (minute * 60000) d2 (omega (arith, hc.minute_in)) in
    let d4 =
      Small-+ℤ 345600200000000 100000000
        (days *ℤ pos 86400000 +ℤ pos (hour * 3600000) +ℤ pos (minute * 60000)) (second * 1000) d3
        (omega (arith, hc.second_in)) in
    let d5 =
      Small-+ℤ 345600300000000 100000000
        (days *ℤ pos 86400000
          +ℤ pos (hour * 3600000)
          +ℤ pos (minute * 60000)
          +ℤ pos (second * 1000))
        milli d4 (omega (arith, hc.milli_in)) in
    let d6 =
      Small--ℤ 345600400000000 86340000
        (days *ℤ pos 86400000
          +ℤ pos (hour * 3600000)
          +ℤ pos (minute * 60000)
          +ℤ pos (second * 1000)
          +ℤ pos milli)
        (offset_min *ℤ pos 60000) d5 (Small-*ℤ 1439 60000 offset_min ho) in
    checked-step _ _ (Small-le _ _ _ d1 (omega arith))
    ∙ checked-step _ _ (Small-le _ _ _ d2 (omega arith))
    ∙ checked-step _ _ (Small-le _ _ _ d3 (omega arith))
    ∙ checked-step _ _ (Small-le _ _ _ d4 (omega arith))
    ∙ checked-step _ _ (Small-le _ _ _ d5 (omega arith))
    ∙ checked-Small _ (Small-le _ _ _ d6 (omega arith))

parse_fraction-range :
    (frac : Option Str) (milli : ℕ) → parse_fraction frac ≡ ok milli → milli ≤ 999
unfolding parse_fraction value_from parse_digits strip_prefix
parse_fraction-range none milli e = ground arith
parse_fraction-range (some []) milli e = cc
parse_fraction-range (some (a ∷ [])) milli e = ground arith
parse_fraction-range (some (a ∷ b ∷ [])) milli e = ground arith
parse_fraction-range (some (a ∷ b ∷ c ∷ [])) milli e = ground arith
parse_fraction-range (some (a ∷ b ∷ c ∷ d ∷ s)) milli e = ground arith

clock_injective :
    (p q : ℕ × ℕ × ℕ × ℕ) → (let x : Result Error (ℕ × ℕ × ℕ × ℕ) = ok p in x) ≡ ok q → p ≡ q
clock_injective p q e = cc

time_of-IsClock :
    (frac : Option Str) (parts : List Str) (clock : ℕ × ℕ × ℕ × ℕ)
    → time_of frac parts ≡ ok clock
    → IsClock clock
unfolding time_of
time_of-IsClock frac [] clock e = cc
time_of-IsClock frac (h ∷ []) clock e = cc
time_of-IsClock frac (h ∷ m ∷ []) clock e = cc
time_of-IsClock frac (h ∷ m ∷ s ∷ t ∷ parts) clock e = cc
time_of-IsClock frac (h ∷ m ∷ s ∷ []) clock e =
    let (lens, rest) =
      else-ok (not (length h == 2) || not (length m == 2) || not (length s == 2)) _ _ e in
    let (hour, ph, rest) = >>=-eq-ok (parse_two_digits h) _ rest in
    let (minute, pm, rest) = >>=-eq-ok (parse_two_digits m) _ rest in
    let (second, ps, rest) = >>=-eq-ok (parse_two_digits s) _ rest in
    let (range, rest) = else-ok (ltb 23 hour || ltb 59 minute || ltb 59 second) _ _ rest in
    let (milli, pf, rest) = >>=-eq-ok (parse_fraction frac) _ rest in
    subst IsClock (clock_injective (hour, minute, second, milli) clock rest) (record {
      hour_in = ground (arith, range);
      minute_in = ground (arith, range);
      second_in = ground (arith, range);
      milli_in = parse_fraction-range frac milli pf;
    })

parse_time-IsClock :
    (time : Str) (clock : ℕ × ℕ × ℕ × ℕ) → parse_time time ≡ ok clock → IsClock clock
unfolding parse_time
parse_time-IsClock time clock e = by_cut (split_once 46 time) e
  where
    by_cut :
        (cut : Option (Str × Str))
        → (elim cut [
          | some (hms, frac) ↦ time_of (some frac) (split_char 58 hms)
          | none ↦ time_of none (split_char 58 time)
        ])
          ≡ ok clock
        → IsClock clock
    by_cut none p = time_of-IsClock none (split_char 58 time) clock p
    by_cut (some (hms, frac)) p = time_of-IsClock (some frac) (split_char 58 hms) clock p

offset_minutes-Small :
    (sign : ℕ) (parts : List Str) (z : ℤ) → offset_minutes sign parts ≡ ok z → Small 1439 z
unfolding offset_minutes
offset_minutes-Small sign [] z e = cc
offset_minutes-Small sign (h ∷ []) z e = cc
offset_minutes-Small sign (h ∷ m ∷ s ∷ parts) z e = cc
offset_minutes-Small sign (h ∷ m ∷ []) z e =
    let (lens, rest) = else-ok (not (length h == 2) || not (length m == 2)) _ _ e in
    let (hour, ph, rest) = >>=-eq-ok (parse_two_digits h) _ rest in
    let (minute, pm, rest) = >>=-eq-ok (parse_two_digits m) _ rest in
    let (range, rest) = else-ok (ltb 23 hour || ltb 59 minute) _ _ rest in
    let same : offset_of sign hour minute ≡ z = ok-injective _ _ rest in
    subst (Small 1439) same (ground (arith, range))

behind_sign-Small :
    (cut : Option (Str × ℕ × Str)) (datetime : Str) (z : ℤ)
    → behind_sign cut ≡ ok (datetime, z)
    → Small 1439 z
unfolding behind_sign
behind_sign-Small none datetime z p = cc
behind_sign-Small (some (front, sign, offset)) datetime z p =
    let (long, rest) = else-ok (not (ltb 10 (length front))) _ _ p in
    let (minutes, pm, rest) = >>=-eq-ok (offset_minutes sign (split_char 58 offset)) _ rest in
    let same : minutes ≡ z = cc in
    subst (Small 1439) same (offset_minutes-Small sign (split_char 58 offset) minutes pm)

split_timezone-Small :
    (raw datetime : Str) (z : ℤ) → split_timezone raw ≡ ok (datetime, z) → Small 1439 z
unfolding split_timezone
split_timezone-Small raw datetime z e = by_suffix (strip_last 90 raw) e
  where
    by_suffix :
        (cut : Option Str)
        → (let r : Result Error (Str × ℤ) = elim cut as (λ c. Result Error (Str × ℤ)) [
          | some body ↦ ok (body, pos 0)
          | none ↦ behind_sign (last_sign raw)
        ] in
            r)
          ≡ ok (datetime, z)
        → Small 1439 z
    by_suffix (some body) p = let same : pos 0 ≡ z = cc in subst (Small 1439) same (omega arith)
    by_suffix none p = behind_sign-Small (last_sign raw) datetime z p

-- No date is further than four million days away.
unix_days-Small : (year month day : ℕ) (z : ℤ) → unix_days year month day ≡ ok z → Small 4000000 z
unix_days-Small year month day z e =
    let (is_date, lies) = (unix_days-Lies year month day z).0 e in
    ground (
      arith,
      is_date.year_in,
      lies,
      one_sided z,
      day_index-lt year month day is_date,
      year_days_range year,
      years-le (1970 - year) year,
      years-le (year - 1970) 1970,
    )

-- Where the zone, the date and the time of a timestamp are read and the date has a day number, the
-- timestamp is read, and as the exact number of milliseconds: no checked sum of its instant
-- overflows an i64.
pub parse_timestamp_millis-instant :
    (raw datetime date time : Str) (offset_min : ℤ) (year month day : ℕ) (clock : ℕ × ℕ × ℕ × ℕ)
    (days : ℤ)
    → split_timezone raw ≡ ok (datetime, offset_min)
    → split_once 84 datetime ≡ some (date, time)
    → parse_date date ≡ ok (year, month, day)
    → parse_time time ≡ ok clock
    → unix_days year month day ≡ ok days
    → parse_timestamp_millis raw ≡ ok (instant days clock offset_min)
unfolding parse_timestamp_millis
parse_timestamp_millis-instant raw datetime date time offset_min year month day clock days pz pt pd
      pc pu =
    rw pz (
      rw pt (
        rw pd (
          rw pc (
            rw pu (
              millis_of-instant days clock offset_min (unix_days-Small year month day days pu)
                (parse_time-IsClock time clock pc)
                (split_timezone-Small raw datetime offset_min pz))))))
