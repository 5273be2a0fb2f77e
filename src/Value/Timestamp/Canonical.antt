-- ===== src/Value/Timestamp/Canonical.antt =====
-- The canonical text of an instant is read back as that instant.
use mikura.Common.{
  inl, inr, ◌⊎◌, ℕ, ◌+◌, ◌-◌, ◌/◌, ◌%◌, ◌<◌, ◌≤◌, ◌^◌, ◌≡◌, refl, ap, ◌∙◌, arith, true, false,
}
use mikura.Common.{[], ◌∷◌, ◌++◌, some, length, ◌==◌, ok}
use mikura.Common.Text.{Str}
use mikura.Common.Strings.{all_digits, parse_unsigned, fixed_digits, split_once, split_char}
use mikura.Value.Timestamp.{
  parse_two_digits, parse_fraction, date_of, parse_date, time_of, parse_time, timestamp_text,
}
use mikura.Value.Timestamp.Digits.{
  parse_two_digits-fixed_digits, parse_year-fixed_digits, parse_fraction-fixed_digits,
}
use mikura.Common.Splits.{Free, split_once-append, split_char-append, split_char-Free}

date_of-parts :
    (y m d : Str) (year month day : ℕ)
    → (length y ≡ 4) × (length m ≡ 2) × (length d ≡ 2)
    → (all_digits y ≡ true) × (all_digits m ≡ true) × (all_digits d ≡ true)
    → parse_unsigned (2 ^ 31 - 1) y ≡ some year
    → parse_two_digits m ≡ ok month
    → parse_two_digits d ≡ ok day
    → date_of (y ∷ m ∷ d ∷ []) ≡ ok (year, month, day)
unfolding date_of
date_of-parts y m d year month day lens digits py pm pd = ground arith

time_of-parts :
    (frac h m s : Str) (hour minute second milli : ℕ)
    → (length h ≡ 2) × (length m ≡ 2) × (length s ≡ 2)
    → parse_two_digits h ≡ ok hour
    → parse_two_digits m ≡ ok minute
    → parse_two_digits s ≡ ok second
    → (hour ≤ 23) × (minute ≤ 59) × (second ≤ 59)
    → parse_fraction (some frac) ≡ ok milli
    → time_of (some frac) (h ∷ m ∷ s ∷ []) ≡ ok (hour, minute, second, milli)
unfolding time_of
time_of-parts frac h m s hour minute second milli lens ph pm ps range pf = ground arith

-- The two halves of the text.
abbrev pub date_text : ℕ → ℕ → ℕ → Str
unfolding fixed_digits
date_text year month day =
    fixed_digits 4 year (45 ∷ fixed_digits 2 month (45 ∷ fixed_digits 2 day []))

abbrev pub time_text : ℕ → Str
unfolding fixed_digits
time_text rem = fixed_digits 2 (rem / 3600000) (
    58
    ∷ fixed_digits 2 (rem % 3600000 / 60000) (
        58
        ∷ fixed_digits 2 (rem % 3600000 % 60000 / 1000)
            (46 ∷ fixed_digits 3 (rem % 3600000 % 60000 % 1000) [])))

abbrev pub clock_of : ℕ → ℕ × ℕ × ℕ × ℕ
clock_of rem = (
  rem / 3600000,
  rem % 3600000 / 60000,
  rem % 3600000 % 60000 / 1000,
  rem % 3600000 % 60000 % 1000,
)

pub digit_free : (c n : ℕ) → (c < 48) ⊎ (57 < c) → ((48 + n % 10) == c) ≡ false
digit_free c n h = ground arith

two-Free : (c n : ℕ) → (c < 48) ⊎ (57 < c) → Free c (fixed_digits 2 n [])
unfolding fixed_digits
two-Free c n h = (digit_free c (n / 10) h, (digit_free c n h, tt))

four-Free : (c n : ℕ) → (c < 48) ⊎ (57 < c) → Free c (fixed_digits 4 n [])
unfolding fixed_digits
four-Free c n h = (
  digit_free c (n / 10 / 10 / 10) h,
  (digit_free c (n / 10 / 10) h, (digit_free c (n / 10) h, (digit_free c n h, tt))),
)

two-length :
    (n : ℕ) → (length (fixed_digits 2 n []) ≡ 2) × (all_digits (fixed_digits 2 n []) ≡ true)
unfolding fixed_digits
two-length n = ground arith

four-length :
    (n : ℕ) → (length (fixed_digits 4 n []) ≡ 4) × (all_digits (fixed_digits 4 n []) ≡ true)
unfolding fixed_digits
four-length n = ground arith

date_text-split :
    (year month day : ℕ)
    → split_char 45 (date_text year month day)
      ≡ fixed_digits 4 year [] ∷ fixed_digits 2 month [] ∷ fixed_digits 2 day [] ∷ []
unfolding date_text
date_text-split year month day =
    split_char-append 45 (fixed_digits 4 year [])
      (fixed_digits 2 month (45 ∷ fixed_digits 2 day [])) (four-Free 45 year (inl (omega arith)))
    ∙ ap (λ l. fixed_digits 4 year [] ∷ l)
        (split_char-append 45 (fixed_digits 2 month []) (fixed_digits 2 day [])
          (two-Free 45 month (inl (omega arith))))
    ∙ ap (λ l. fixed_digits 4 year [] ∷ fixed_digits 2 month [] ∷ l)
        (split_char-Free 45 (fixed_digits 2 day []) (two-Free 45 day (inl (omega arith))))

pub parse_date-date_text :
    (year month day : ℕ)
    → year < 10000
    → month < 100
    → day < 100
    → parse_date (date_text year month day) ≡ ok (year, month, day)
unfolding parse_date
parse_date-date_text year month day hy hm hd =
    ap date_of (date_text-split year month day)
    ∙ date_of-parts (fixed_digits 4 year []) (fixed_digits 2 month []) (fixed_digits 2 day []) year
        month day ((four-length year).0, (two-length month).0, (two-length day).0)
        ((four-length year).1, (two-length month).1, (two-length day).1)
        (parse_year-fixed_digits year hy) (parse_two_digits-fixed_digits month hm)
        (parse_two_digits-fixed_digits day hd)

parse_time-frac :
    (time hms frac : Str)
    → split_once 46 time ≡ some (hms, frac)
    → parse_time time ≡ time_of (some frac) (split_char 58 hms)
unfolding parse_time
parse_time-frac time hms frac e = rw (e, parse_time) refl

-- Hours, minutes and seconds.
abbrev hms_text : ℕ → ℕ → ℕ → Str
unfolding fixed_digits
hms_text hour minute second =
    fixed_digits 2 hour (58 ∷ fixed_digits 2 minute (58 ∷ fixed_digits 2 second []))

hms_text-Free : (hour minute second : ℕ) → Free 46 (hms_text hour minute second)
unfolding hms_text
hms_text-Free hour minute second = (
  digit_free 46 (hour / 10) low,
  (
    digit_free 46 hour low,
    (
      refl,
      (
        digit_free 46 (minute / 10) low,
        (
          digit_free 46 minute low,
          (refl, (digit_free 46 (second / 10) low, (digit_free 46 second low, tt))),
        ),
      ),
    ),
  ),
)
  where
    low : (46 < 48) ⊎ (57 < 46)
    low = inl (omega arith)

hms_text-split :
    (hour minute second : ℕ)
    → split_char 58 (hms_text hour minute second)
      ≡ fixed_digits 2 hour [] ∷ fixed_digits 2 minute [] ∷ fixed_digits 2 second [] ∷ []
unfolding hms_text
hms_text-split hour minute second =
    split_char-append 58 (fixed_digits 2 hour [])
      (fixed_digits 2 minute (58 ∷ fixed_digits 2 second [])) (two-Free 58 hour (inr (omega arith)))
    ∙ ap (λ l. fixed_digits 2 hour [] ∷ l)
        (split_char-append 58 (fixed_digits 2 minute []) (fixed_digits 2 second [])
          (two-Free 58 minute (inr (omega arith))))
    ∙ ap (λ l. fixed_digits 2 hour [] ∷ fixed_digits 2 minute [] ∷ l)
        (split_char-Free 58 (fixed_digits 2 second []) (two-Free 58 second (inr (omega arith))))

time_of-clock :
    (hour minute second milli : ℕ)
    → hour ≤ 23
    → minute ≤ 59
    → second ≤ 59
    → milli ≤ 999
    → time_of
        (some (fixed_digits 3 milli []))
        (fixed_digits 2 hour [] ∷ fixed_digits 2 minute [] ∷ fixed_digits 2 second [] ∷ [])
      ≡ ok (hour, minute, second, milli)
time_of-clock hour minute second milli hh hm hs hf =
    time_of-parts (fixed_digits 3 milli []) (fixed_digits 2 hour []) (fixed_digits 2 minute [])
      (fixed_digits 2 second []) hour minute second milli
      ((two-length hour).0, (two-length minute).0, (two-length second).0)
      (parse_two_digits-fixed_digits hour (omega arith))
      (parse_two_digits-fixed_digits minute (omega arith))
      (parse_two_digits-fixed_digits second (omega arith)) (hh, hm, hs)
      (parse_fraction-fixed_digits milli (omega arith))

pub parse_time-time_text :
    (rem : ℕ) → rem < 86400000 → parse_time (time_text rem) ≡ ok (clock_of rem)
unfolding time_text hms_text
parse_time-time_text rem h =
    let hour : ℕ = rem / 3600000 in
    let minute : ℕ = rem % 3600000 / 60000 in
    let second : ℕ = rem % 3600000 % 60000 / 1000 in
    let milli : ℕ = rem % 3600000 % 60000 % 1000 in
    parse_time-frac (time_text rem) (hms_text hour minute second) (fixed_digits 3 milli []) (
      split_once-append 46 (hms_text hour minute second) (fixed_digits 3 milli [])
        (hms_text-Free hour minute second))
    ∙ ap (time_of (some (fixed_digits 3 milli []))) (hms_text-split hour minute second)
    ∙ time_of-clock hour minute second milli (omega arith) (omega arith) (omega arith) (omega arith)

pub date_text-Free : (year month day : ℕ) → Free 84 (date_text year month day)
unfolding date_text
date_text-Free year month day = (
  digit_free 84 (year / 10 / 10 / 10) high,
  (
    digit_free 84 (year / 10 / 10) high,
    (
      digit_free 84 (year / 10) high,
      (
        digit_free 84 year high,
        (
          refl,
          (
            digit_free 84 (month / 10) high,
            (
              digit_free 84 month high,
              (refl, (digit_free 84 (day / 10) high, (digit_free 84 day high, tt))),
            ),
          ),
        ),
      ),
    ),
  ),
)
  where
    high : (84 < 48) ⊎ (57 < 84)
    high = inr (omega arith)

-- The text from its halves.
pub timestamp_text-halves :
    (year month day rem : ℕ)
    → timestamp_text (year, month, day) rem
      ≡ (date_text year month day ++ (84 ∷ time_text rem)) ++ (90 ∷ [])
unfolding timestamp_text date_text time_text
timestamp_text-halves year month day rem = refl
