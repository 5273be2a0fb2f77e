-- ===== src/Value/Numbers/Integers.antt =====
-- The integers of src/value.rs: each i64 has one text, which is read back as it.
use mikura.Common.{ℕ, zero, suc, ◌-◌, ◌≤◌, ◌^◌, ◌≡◌, refl, subst, arith, true, not}
use mikura.Common.{[], ◌∷◌, Option, none, some, ok, ok_or, >>=-eq-ok, else-ok}
use mikura.Common.Text.{Str}
use mikura.Common.Ints.{ℤ, pos, negsuc, is_i64, show_int}
use mikura.Common.Strings.{
  strip_prefix, all_digits, parse_digits, parse_unsigned, parse_signed, minus, plus, show_nat,
}
use mikura.Common.Decimal.{
  show_nat-Leads, show_nat-digits, parse_digits-show_nat, parse_unsigned-show_nat,
}
use mikura.Errors.{integer_overflows}
use mikura.Value.Types.{PropertyValue}
use mikura.Value.Numbers.{is_canonical_integer, parse_integer}

-- A text of digits without a 0 in front, and the same behind a sign.
canonical-lead :
    (b : ℕ) (s : Str)
    → 49 ≤ b
    → all_digits (b ∷ s) ≡ true
    → (is_canonical_integer (b ∷ s) ≡ true) × (is_canonical_integer (45 ∷ b ∷ s) ≡ true)
unfolding is_canonical_integer
canonical-lead b s h d = (ground arith, ground arith)

parse_signed-pos :
    (b : ℕ) (s : Str) (n : ℕ)
    → 49 ≤ b
    → parse_unsigned (2 ^ 63 - 1) (b ∷ s) ≡ some n
    → parse_signed 64 (b ∷ s) ≡ some (pos n)
unfolding parse_signed strip_prefix
parse_signed-pos b s n h e = ground arith

parse_signed-neg :
    (s : Str) (n : ℕ)
    → parse_digits s ≡ some (suc n)
    → suc n ≤ 2 ^ 63
    → parse_signed 64 (45 ∷ s) ≡ some (negsuc n)
unfolding parse_signed
parse_signed-neg s n e h = rw (e, parse_signed) (ground arith)

parse_integer_of :
    (raw : Str) (z : ℤ)
    → is_canonical_integer raw ≡ true
    → parse_signed 64 raw ≡ some z
    → parse_integer raw ≡ ok (PropertyValue.integer z)
unfolding parse_integer
parse_integer_of raw z c e = ground arith

zero_lem : parse_integer (show_nat 0) ≡ ok (PropertyValue.integer (pos 0))
unfolding parse_integer show_nat
zero_lem = refl

lead_integer :
    (b : ℕ) (s : Str) (n : ℕ)
    → 49 ≤ b
    → all_digits (b ∷ s) ≡ true
    → parse_unsigned (2 ^ 63 - 1) (b ∷ s) ≡ some n
    → parse_integer (b ∷ s) ≡ ok (PropertyValue.integer (pos n))
lead_integer b s n h d e =
    parse_integer_of (b ∷ s) (pos n) (canonical-lead b s h d).0 (parse_signed-pos b s n h e)

lead_negative :
    (b : ℕ) (s : Str) (n : ℕ)
    → 49 ≤ b
    → all_digits (b ∷ s) ≡ true
    → parse_digits (b ∷ s) ≡ some (suc n)
    → suc n ≤ 2 ^ 63
    → parse_integer (45 ∷ b ∷ s) ≡ ok (PropertyValue.integer (negsuc n))
lead_negative b s n h d e le =
    parse_integer_of (45 ∷ b ∷ s) (negsuc n) (canonical-lead b s h d).1
      (parse_signed-neg (b ∷ s) n e le)

-- Every integer of 64 bits is read back from its decimal text.
pub parse_integer-show_int :
    (z : ℤ) → is_i64 z ≡ true → parse_integer (show_int show_nat z) ≡ ok (PropertyValue.integer z)
parse_integer-show_int (pos zero) h = zero_lem
parse_integer-show_int (pos (suc n)) h =
    let leads = show_nat-Leads (suc n) (omega arith) in
    rw leads.eq (
      lead_integer leads.first leads.rest (suc n) leads.high
        (subst (λ t. all_digits t ≡ true) leads.eq (show_nat-digits (suc n)))
        (subst (λ t. parse_unsigned (2 ^ 63 - 1) t ≡ some (suc n)) leads.eq
          (parse_unsigned-show_nat (2 ^ 63 - 1) (suc n) (ground arith))))
parse_integer-show_int (negsuc n) h =
    let leads = show_nat-Leads (suc n) (omega arith) in
    rw leads.eq (
      lead_negative leads.first leads.rest n leads.high
        (subst (λ t. all_digits t ≡ true) leads.eq (show_nat-digits (suc n)))
        (subst (λ t. parse_digits t ≡ some (suc n)) leads.eq (parse_digits-show_nat (suc n)))
        (ground arith))

plus-range :
    (r : Option ℕ) (z : ℤ)
    → ((n : ℕ) → r ≡ some n → n ≤ 2 ^ 63 - 1)
    → plus r ≡ some z
    → is_i64 z ≡ true
plus-range none z h e = cc
plus-range (some n) (pos m) h e = ground (arith, h n)
plus-range (some n) (negsuc m) h e = cc

minus-range : (r : Option ℕ) (z : ℤ) → minus (2 ^ 63) r ≡ some z → is_i64 z ≡ true
minus-range none z e = cc
minus-range (some zero) z e = ground arith
minus-range (some (suc n)) z e = ground arith

parse_unsigned-range : (most : ℕ) (raw : Str) (n : ℕ) → parse_unsigned most raw ≡ some n → n ≤ most
unfolding parse_unsigned
parse_unsigned-range most raw n e = ground arith

parse_signed-is_i64 : (raw : Str) (z : ℤ) → parse_signed 64 raw ≡ some z → is_i64 z ≡ true
unfolding parse_signed
parse_signed-is_i64 raw z e = by_sign (strip_prefix (45 ∷ []) raw) e
  where
    by_sign :
        (r : Option Str)
        → (elim r as (λ s. Option ℤ) [
          | some rest ↦ minus (2 ^ (64 - 1)) (parse_digits rest)
          | none ↦ plus (parse_unsigned (2 ^ (64 - 1) - 1) raw)
        ])
          ≡ some z
        → is_i64 z ≡ true
    by_sign (some rest) p = minus-range (parse_digits rest) z p
    by_sign none p =
        plus-range (parse_unsigned (2 ^ 63 - 1) raw) z
          (λ n q. parse_unsigned-range (2 ^ 63 - 1) raw n q) p

-- What is read is an integer of i64.
pub record IsInteger (v : PropertyValue) : Type 0 where
  pub value : ℤ
  pub eq : v ≡ PropertyValue.integer value
  pub range : is_i64 value ≡ true

pub parse_integer-IsInteger :
    (raw : Str) (v : PropertyValue) → parse_integer raw ≡ ok v → IsInteger v
unfolding parse_integer
parse_integer-IsInteger raw v e =
    let (canonical, rest) = else-ok (not (is_canonical_integer raw)) _ _ e in
    let (n, read, last) = >>=-eq-ok (ok_or (parse_signed 64 raw) integer_overflows) _ rest in
    record {
      value = n;
      eq = cc;
      range = parse_signed-is_i64 raw n (ok_or-some (parse_signed 64 raw) n read);
    }
  where
    ok_or-some : (r : Option ℤ) (n : ℤ) → ok_or r integer_overflows ≡ ok n → r ≡ some n
    ok_or-some none n p = cc
    ok_or-some (some m) n p = cc
