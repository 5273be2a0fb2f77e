-- ===== src/Value/Numbers.antt =====
-- The canonical numbers of src/value.rs: booleans, integers, decimals of a scale, and the restricted
-- decimals of vectors and coordinates.
pub mod Integers
use mikura.Common.{ℕ, ◌-◌, ◌^◌, Bool, true, false, not, ◌&&◌, ◌||◌}
use mikura.Common.{
  List, [], ◌∷◌, Option, none, some, all, retain, length, ltb, leb, ◌==◌, if◌then◌else◌, Result, ok,
  err, ok_or, ◌>>=◌,
}
use mikura.Common.Text.{Str, ascii, str_eq}
use mikura.Common.Ints.{ℤ, pos, ◌-ℤ◌}
use mikura.Common.Strings.{
  strip_prefix, strip_last, starts_with, split_once, is_digit, all_digits, parse_signed,
}
use mikura.Errors.{
  Error, boolean_invalid, not_canonical, integer_overflows, decimal_overflows, decimal_digits,
}
use mikura.Value.Types.{PropertyValue}

unfoldable pub parse_boolean : Str → Result Error PropertyValue
unfolding str_eq
parse_boolean raw =
    if str_eq raw (ascii "true")
    then ok (PropertyValue.boolean true)
    else if str_eq raw (ascii "false")
    then ok (PropertyValue.boolean false)
    else err boolean_invalid

-- `strip_prefix('-').unwrap_or(raw)`.
unfoldable pub unsigned : Str → Str
unfolding strip_prefix
unsigned raw = elim (strip_prefix (ascii "-") raw) [ none ↦ raw | some rest ↦ rest ]

unfoldable pub is_canonical_integer : Str → Bool
unfolding unsigned str_eq strip_prefix
is_canonical_integer raw =
    if (length (unsigned raw) == 0) || not (all_digits (unsigned raw))
    then false
    else if starts_with (ascii "0") (unsigned raw)
    then str_eq (unsigned raw) (ascii "0") && not (starts_with (ascii "-") raw)
    else true

unfoldable pub parse_integer : Str → Result Error PropertyValue
unfolding is_canonical_integer parse_signed
parse_integer raw =
    if not (is_canonical_integer raw)
    then err not_canonical
    else (do n ← ok_or (parse_signed 64 raw) integer_overflows; ok (PropertyValue.integer n))

-- A comparison key; every caller hands over a canonical decimal.
unfoldable pub decimal_units : Str → Result Error ℤ
unfolding unsigned parse_signed strip_prefix
decimal_units raw = do
  n ← ok_or (parse_signed 128 (retain (λ b. not (b == 46)) (unsigned raw))) decimal_overflows
  ok (if starts_with (ascii "-") raw then pos 0 -ℤ n else n)

-- An integer part: `0`, or digits that do not start with 0.
abbrev pub is_int_part : Str → Bool
unfolding strip_prefix str_eq
is_int_part int =
    if starts_with (ascii "0") int
    then str_eq int (ascii "0")
    else not (length int == 0) && all_digits int

-- `0`, and `0.` with nothing but zeros behind.
abbrev pub is_zero : Str → Bool
unfolding strip_prefix str_eq
is_zero rest = str_eq rest (ascii "0") || (elim (strip_prefix (ascii "0.") rest) [
  | none ↦ false
  | some frac ↦ all (λ b. b == 48) frac
])

unfoldable pub is_canonical_decimal : Str → ℕ → Bool
unfolding strip_prefix unsigned is_canonical_integer split_once is_int_part is_zero
is_canonical_decimal raw scale =
    if starts_with (ascii "-") raw && is_zero (unsigned raw)
    then false
    else if scale == 0
    then is_canonical_integer (unsigned raw) && not (starts_with (ascii "-") (unsigned raw))
    else (elim (split_once 46 (unsigned raw)) [
      | none ↦ false
      | some (int, frac) ↦
          if not (length frac == scale) || not (all_digits frac) then false else is_int_part int
    ])

unfoldable pub parse_decimal : Str → ℕ → Result Error PropertyValue
unfolding is_canonical_decimal
parse_decimal raw scale =
    if not (is_canonical_decimal raw scale)
    then err not_canonical
    else if not (leb 1 (length (retain is_digit raw)) && leb (length (retain is_digit raw)) 38)
    then err decimal_digits
    else ok (PropertyValue.decimal raw)

abbrev pub ends_with_zero : Str → Bool
unfolding strip_last
ends_with_zero s = elim (strip_last 48 s) [ none ↦ false | some front ↦ true ]

unfoldable pub is_canonical_number : Str → Bool
unfolding strip_prefix unsigned str_eq is_canonical_integer split_once is_int_part ends_with_zero
is_canonical_number raw =
    if str_eq raw (ascii "-0") then false else (elim (split_once 46 (unsigned raw)) [
      | none ↦ is_canonical_integer (unsigned raw) && not (starts_with (ascii "-") (unsigned raw))
      | some (int, frac) ↦
          if (length frac == 0) || ends_with_zero frac || not (all_digits frac)
          then false
          else is_int_part int
    ])
