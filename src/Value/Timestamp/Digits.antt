-- ===== src/Value/Timestamp/Digits.antt =====
-- The numbers of a timestamp as digits, read back.
use mikura.Common.{ℕ, ◌+◌, ◌-◌, ◌*◌, ◌/◌, ◌%◌, ◌<◌, ◌≤◌, ◌^◌, ◌≡◌, ap, ◌∙◌, arith, true}
use mikura.Common.{[], ◌∷◌, some, ok}
use mikura.Common.Text.{Str}
use mikura.Common.Strings.{
  all_digits, value_from, parse_digits, parse_unsigned, fixed_digits, strip_prefix,
}
use mikura.Value.Timestamp.{parse_two_digits, parse_fraction}

-- A text of digits whose value is in the range.
pub parse_unsigned-digits :
    (most b : ℕ) (s : Str)
    → all_digits (b ∷ s) ≡ true
    → value_from 0 (b ∷ s) ≤ most
    → parse_unsigned most (b ∷ s) ≡ some (value_from 0 (b ∷ s))
unfolding parse_unsigned parse_digits strip_prefix
parse_unsigned-digits most b s h le = ground arith

abbrev IsDigit : ℕ → Type 0
IsDigit b = (48 ≤ b) × (b ≤ 57)

two_lem :
    (a b : ℕ)
    → IsDigit a
    → IsDigit b
    → parse_two_digits (a ∷ b ∷ []) ≡ ok (10 * (a - 48) + (b - 48))
unfolding parse_two_digits value_from parse_digits strip_prefix
two_lem a b h k = ground arith

four_lem :
    (a b c d : ℕ)
    → IsDigit a
    → IsDigit b
    → IsDigit c
    → IsDigit d
    → parse_unsigned (2 ^ 31 - 1) (a ∷ b ∷ c ∷ d ∷ [])
      ≡ some (1000 * (a - 48) + 100 * (b - 48) + 10 * (c - 48) + (d - 48))
unfolding value_from parse_unsigned parse_digits strip_prefix
four_lem a b c d ha hb hc hd = ground arith

three_lem :
    (a b c : ℕ)
    → IsDigit a
    → IsDigit b
    → IsDigit c
    → parse_fraction (some (a ∷ b ∷ c ∷ [])) ≡ ok (100 * (a - 48) + 10 * (b - 48) + (c - 48))
unfolding parse_fraction value_from parse_digits strip_prefix
three_lem a b c ha hb hc = ground arith

pub two-is-digits : (n : ℕ) → all_digits (fixed_digits 2 n []) ≡ true
unfolding fixed_digits
two-is-digits n = ground arith

pub parse_two_digits-fixed_digits :
    (n : ℕ) → n < 100 → parse_two_digits (fixed_digits 2 n []) ≡ ok n
unfolding fixed_digits
parse_two_digits-fixed_digits n h =
    two_lem (48 + n / 10 % 10) (48 + n % 10) (omega arith) (omega arith) ∙ ap ok (omega arith)

pub parse_year-fixed_digits :
    (n : ℕ) → n < 10000 → parse_unsigned (2 ^ 31 - 1) (fixed_digits 4 n []) ≡ some n
unfolding fixed_digits
parse_year-fixed_digits n h =
    four_lem (48 + n / 10 / 10 / 10 % 10) (48 + n / 10 / 10 % 10) (48 + n / 10 % 10) (48 + n % 10)
      (omega arith) (omega arith) (omega arith) (omega arith)
    ∙ ap some (omega arith)

pub parse_fraction-fixed_digits :
    (n : ℕ) → n < 1000 → parse_fraction (some (fixed_digits 3 n [])) ≡ ok n
unfolding fixed_digits
parse_fraction-fixed_digits n h =
    three_lem (48 + n / 10 / 10 % 10) (48 + n / 10 % 10) (48 + n % 10) (omega arith) (omega arith)
      (omega arith)
    ∙ ap ok (omega arith)
