-- ===== src/Common/Strings.antt =====
-- Rust's `str` methods on the bytes of a text, for patterns that are ASCII characters, and the parsing
-- of numbers.
use Prim.Native.Nat.{ℕ, zero, suc, ◌+◌, ◌-◌, ◌*◌, ◌/◌, ◌%◌, ◌^◌}
use mathlib.Core.Bool.{Bool, true, false, ◌&&◌, ◌||◌}
use mathlib.Core.Option.{Option, none, some}
use mathlib.Core.List.{List, [], ◌∷◌, ◌++◌}
use mikura.Common.Tests.{ltb, leb, ◌==◌, if◌then◌else◌}
use mikura.Common.Lists.{length, all, any, drop}
use mikura.Common.Text.{Str}
use mikura.Common.Ints.{ℤ, pos, negsuc}

unfoldable pub strip_prefix : Str → Str → Option Str
strip_prefix [] s = some s
strip_prefix (c ∷ p) [] = none
strip_prefix (c ∷ p) (d ∷ s) = if c == d then strip_prefix p s else none

abbrev pub starts_with : Str → Str → Bool
starts_with p s = elim (strip_prefix p s) [ none ↦ false | some rest ↦ true ]

abbrev pub contains_char : ℕ → Str → Bool
contains_char c s = any (λ b. b == c) s

-- `split_once`: before and behind the first `c`.
unfoldable pub split_once : ℕ → Str → Option (Str × Str)
split_once c [] = none
split_once c (b ∷ s) =
    let rest = split_once c s in
    if b == c
    then some ([], s)
    else elim rest [ none ↦ none | some (front, back) ↦ some (b ∷ front, back) ]

abbrev pub onto_first : ℕ → List Str → List Str
onto_first b [] = (b ∷ []) ∷ []
onto_first b (part ∷ parts) = (b ∷ part) ∷ parts

-- `split`: the parts between the `c`s, one at least.
unfoldable pub split_char : ℕ → Str → List Str
split_char c [] = [] ∷ []
split_char c (b ∷ s) = let rest = split_char c s in if b == c then [] ∷ rest else onto_first b rest

unfoldable pub join_with : Str → List Str → Str
join_with sep [] = []
join_with sep (s ∷ []) = s
join_with sep (s ∷ t ∷ parts) = s ++ (sep ++ join_with sep (t ∷ parts))

-- `strip_suffix` of one character.
unfoldable pub strip_last : ℕ → Str → Option Str
strip_last c [] = none
strip_last c (b ∷ []) = if b == c then some [] else none
strip_last c (b ∷ d ∷ s) = elim (strip_last c (d ∷ s)) [
  | none ↦ none
  | some front ↦ some (b ∷ front)
]

abbrev pub is_digit : ℕ → Bool
is_digit b = leb 48 b && leb b 57

abbrev pub all_digits : Str → Bool
all_digits s = all is_digit s

-- The value of decimal digits behind `n`.
unfoldable pub value_from : ℕ → Str → ℕ
value_from n [] = n
value_from n (b ∷ s) = value_from (n * 10 + (b - 48)) s

-- The digits of a number as `parse` reads them: one at least, and nothing else.
unfoldable pub parse_digits : Str → Option ℕ
unfolding value_from
parse_digits [] = none
parse_digits (b ∷ s) = if all_digits (b ∷ s) then some (value_from 0 (b ∷ s)) else none

-- `parse` of an unsigned number that is `most` at most: a sign `+` may stand in front.
unfoldable pub parse_unsigned : ℕ → Str → Option ℕ
unfolding parse_digits strip_prefix
parse_unsigned most raw =
    let body : Str = elim (strip_prefix (43 ∷ []) raw) [ none ↦ raw | some rest ↦ rest ] in
    elim (parse_digits body) [ none ↦ none | some n ↦ if leb n most then some n else none ]

-- The number of digits behind a sign.
abbrev pub minus : ℕ → Option ℕ → Option ℤ
minus most none = none
minus most (some zero) = some (pos 0)
minus most (some (suc n)) = if leb (suc n) most then some (negsuc n) else none

abbrev pub plus : Option ℕ → Option ℤ
plus none = none
plus (some n) = some (pos n)

-- `parse` of a signed number of `bits` bits.
unfoldable pub parse_signed : ℕ → Str → Option ℤ
unfolding parse_unsigned parse_digits strip_prefix
parse_signed bits raw = elim (strip_prefix (45 ∷ []) raw) [
  | some rest ↦ minus (2 ^ (bits - 1)) (parse_digits rest)
  | none ↦ plus (parse_unsigned (2 ^ (bits - 1) - 1) raw)
]

-- The decimal digits of a number, `width` of them, from the last on; then the number as `to_string`
-- writes it, on fuel of its own size.
unfoldable pub fixed_digits : ℕ → ℕ → Str → Str
fixed_digits zero n behind = behind
fixed_digits (suc width) n behind = fixed_digits width (n / 10) ((48 + n % 10) ∷ behind)

unfoldable pub digits_on : ℕ → ℕ → Str → Str
digits_on zero n behind = behind
digits_on (suc fuel) n behind =
    let longer = digits_on fuel (n / 10) ((48 + n % 10) ∷ behind) in
    if ltb n 10 then (48 + n) ∷ behind else longer

unfoldable pub show_nat : ℕ → Str
unfolding digits_on
show_nat n = digits_on (suc n) n []

-- `trim`: the characters of White_Space, in UTF-8.
abbrev is_space2 : ℕ → ℕ → Bool
is_space2 b d = (b == 194) && ((d == 133) || (d == 160))

abbrev is_space3 : ℕ → ℕ → ℕ → Bool
is_space3 b d e =
    ((b == 225) && (d == 154) && (e == 128))
    || ((b == 226)
        && (d == 128)
        && ((leb 128 e && leb e 138) || (e == 168) || (e == 169) || (e == 175)))
    || ((b == 226) && (d == 129) && (e == 159))
    || ((b == 227) && (d == 128) && (e == 128))

-- The bytes of the white space that a text starts with: 0 for none. Read from the end, the bytes of a
-- character come the other way round.
unfoldable pub space_len : Str → ℕ
space_len [] = 0
space_len (b ∷ []) = if (leb 9 b && leb b 13) || (b == 32) then 1 else 0
space_len (b ∷ d ∷ []) =
    if (leb 9 b && leb b 13) || (b == 32) then 1 else if is_space2 b d then 2 else 0
space_len (b ∷ d ∷ e ∷ s) =
    if (leb 9 b && leb b 13) || (b == 32)
    then 1
    else if is_space2 b d
    then 2
    else if is_space3 b d e
    then 3
    else 0

unfoldable pub space_len_back : Str → ℕ
space_len_back [] = 0
space_len_back (b ∷ []) = if (leb 9 b && leb b 13) || (b == 32) then 1 else 0
space_len_back (d ∷ b ∷ []) =
    if (leb 9 d && leb d 13) || (d == 32) then 1 else if is_space2 b d then 2 else 0
space_len_back (e ∷ d ∷ b ∷ s) =
    if (leb 9 e && leb e 13) || (e == 32)
    then 1
    else if is_space2 d e
    then 2
    else if is_space3 b d e
    then 3
    else 0

unfoldable pub trim_by : (Str → ℕ) → ℕ → Str → Str
trim_by spaces zero s = s
trim_by spaces (suc fuel) s = elim (spaces s) [
  | zero ↦ s
  | suc n ↦ trim_by spaces fuel (drop (suc n) s)
]

unfoldable pub reverse : Str → Str → Str
reverse [] behind = behind
reverse (b ∷ s) behind = reverse s (b ∷ behind)

-- Each round drops a byte at least, so a fuel of the number of bytes is enough.
unfoldable pub trim : Str → Str
unfolding trim_by space_len space_len_back reverse
trim s =
    let front : Str = trim_by space_len (length s) s in
    reverse (trim_by space_len_back (length front) (reverse front [])) []
