-- ===== src/Common/Decimal.antt =====
-- Decimal digits: what `to_string` writes of a number is read back by `parse`.
use Prim.Native.Nat.{ℕ, zero, suc, ◌+◌, ◌/◌, ◌%◌, ◌≤◌, ◌<◌}
use mathlib.Core.Path.{◌≡◌, ◌∙◌, refl, sym, ap, subst}
use mathlib.Core.Logic.{◌⊎◌, inl, inr}
use mathlib.Core.Bool.{true}
use mathlib.Core.Option.{some}
use mathlib.Core.List.{[], ◌∷◌}
use native.Mathlib.Omega.{arith}
use mikura.Common.Tests.{ltb, ◌==◌, if-true, if-false, Bool-cases}
use mikura.Common.Text.{Str}
use mikura.Common.Strings.{
  all_digits, value_from, parse_digits, parse_unsigned, strip_prefix, digits_on, show_nat,
}

-- A number's text: digits, of its value, without a needless 0 in front.
record Shows (n : ℕ) (behind s : Str) : Type 0 where
  first : ℕ
  rest : Str
  eq : s ≡ first ∷ rest
  digits : all_digits behind ≡ true → all_digits s ≡ true
  value : value_from 0 s ≡ value_from n behind
  lead : (n ≡ 0) ⊎ (49 ≤ first)

digits_on-Shows : (fuel n : ℕ) (behind : Str) → n < fuel → Shows n behind (digits_on fuel n behind)
unfolding digits_on value_from
digits_on-Shows zero n behind h = absurd (omega arith)
digits_on-Shows (suc fuel) n behind h = elim (Bool-cases (ltb n 10)) [
  | inl one ↦ subst (Shows n behind) (sym (if-true _ one)) (record {
    first = 48 + n;
    rest = behind;
    eq = refl;
    digits = λ d. ground arith;
    value = ap (λ m. value_from m behind) (omega arith);
    lead = elim (Bool-cases (n == 0)) [ inl e ↦ inl (ground arith) | inr e ↦ inr (ground arith) ];
  })
  | inr more ↦
      let tens = digits_on-Shows fuel (n / 10) ((48 + n % 10) ∷ behind) (ground arith) in
      subst (Shows n behind) (sym (if-false _ more)) (record {
        first = tens.first;
        rest = tens.rest;
        eq = tens.eq;
        digits = λ d. tens.digits (ground arith);
        value = tens.value ∙ ap (λ m. value_from m behind) (omega arith);
        lead = inr (elim tens.lead [ inl e ↦ absurd (ground arith) | inr e ↦ e ]);
      })
]

pub show_nat-digits : (n : ℕ) → all_digits (show_nat n) ≡ true
unfolding show_nat
show_nat-digits n = (digits_on-Shows (suc n) n [] (omega arith)).digits refl

pub show_nat-value : (n : ℕ) → value_from 0 (show_nat n) ≡ n
unfolding show_nat value_from
show_nat-value n = (digits_on-Shows (suc n) n [] (omega arith)).value

-- The first digit of a number that is not 0.
pub record Leads (n : ℕ) : Type 0 where
  pub first : ℕ
  pub rest : Str
  pub eq : show_nat n ≡ first ∷ rest
  pub high : 49 ≤ first
  pub digit : first ≤ 57

pub show_nat-Leads : (n : ℕ) → 0 < n → Leads n
unfolding show_nat
show_nat-Leads n h =
    let s = digits_on-Shows (suc n) n [] (omega arith) in
    record {
      first = s.first;
      rest = s.rest;
      eq = s.eq;
      high = elim s.lead [ inl e ↦ absurd (omega arith) | inr e ↦ e ];
      digit = first_digit s.first s.rest (subst (λ t. all_digits t ≡ true) s.eq (s.digits refl));
    }
  where
    first_digit : (b : ℕ) (s : Str) → all_digits (b ∷ s) ≡ true → b ≤ 57
    first_digit b s e = ground arith

pub parse_digits-value :
    (n b : ℕ) (s t : Str)
    → t ≡ b ∷ s
    → all_digits t ≡ true
    → value_from 0 t ≡ n
    → parse_digits t ≡ some n
unfolding parse_digits
parse_digits-value n b s t e d v = rw e (go (rw e at d) (rw e at v))
  where
    go : all_digits (b ∷ s) ≡ true → value_from 0 (b ∷ s) ≡ n → parse_digits (b ∷ s) ≡ some n
    go p q = ground arith

pub parse_unsigned-value :
    (most n b : ℕ) (s t : Str)
    → t ≡ b ∷ s
    → all_digits t ≡ true
    → value_from 0 t ≡ n
    → n ≤ most
    → parse_unsigned most t ≡ some n
unfolding parse_unsigned parse_digits strip_prefix
parse_unsigned-value most n b s t e d v le = rw e (go (rw e at d) (rw e at v))
  where
    go : all_digits (b ∷ s) ≡ true → value_from 0 (b ∷ s) ≡ n → parse_unsigned most (b ∷ s) ≡ some n
    go p q = ground arith

pub parse_digits-show_nat : (n : ℕ) → parse_digits (show_nat n) ≡ some n
unfolding show_nat
parse_digits-show_nat n =
    let s = digits_on-Shows (suc n) n [] (omega arith) in
    parse_digits-value n s.first s.rest (show_nat n) s.eq (show_nat-digits n) (show_nat-value n)

pub parse_unsigned-show_nat : (most n : ℕ) → n ≤ most → parse_unsigned most (show_nat n) ≡ some n
unfolding show_nat
parse_unsigned-show_nat most n h =
    let s = digits_on-Shows (suc n) n [] (omega arith) in
    parse_unsigned-value most n s.first s.rest (show_nat n) s.eq (show_nat-digits n)
      (show_nat-value n) h
