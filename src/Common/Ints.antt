-- ===== src/Common/Ints.antt =====
-- Signed integers over the native numbers, for i32, i64 and i128 where nothing overflows; where the
-- source tests for an overflow, so does the model.
use Prim.Native.Nat.{ℕ, suc, ◌+◌, ◌-◌, ◌*◌, ◌/◌, ◌%◌, ◌^◌}
use mathlib.Core.Path.{◌≡◌, refl}
use mathlib.Core.Logic.{◌⊎◌, inl, inr}
use mathlib.Core.Bool.{Bool, ◌&&◌}
use mathlib.Core.Option.{Option, none, some}
use mathlib.Core.List.{List, ◌∷◌}
use native.Mathlib.Omega.{arith}
use mikura.Common.Tests.{ltb, ◌==◌, if◌then◌else◌}

-- `negsuc n` is -(n + 1).
pub data ℤ : Type 0 where
  pos : ℕ → ℤ
  negsuc : ℕ → ℤ

-- How far above and how far below 0.
abbrev pub above : ℤ → ℕ
above (negsuc n) = 0
above (pos n) = n

abbrev pub below : ℤ → ℕ
below (negsuc n) = suc n
below (pos n) = 0

-- The integer that lies `up` above and `down` below 0.
abbrev pub balance : ℕ → ℕ → ℤ
balance up down = if ltb up down then negsuc (down - up - 1) else pos (up - down)

infixl 65 ◌+ℤ◌ ◌-ℤ◌
unfoldable pub ◌+ℤ◌ : ℤ → ℤ → ℤ
x +ℤ y = balance (above x + above y) (below x + below y)

unfoldable pub ◌-ℤ◌ : ℤ → ℤ → ℤ
x -ℤ y = balance (above x + below y) (below x + above y)

abbrev pub ltb_ℤ : ℤ → ℤ → Bool
ltb_ℤ x y = ltb (above x + below y) (below x + above y)

abbrev pub eq_ℤ : ℤ → ℤ → Bool
eq_ℤ x y = (above x == above y) && (below x == below y)

-- `div_euclid` and `rem_euclid` by a positive number.
abbrev pub div_euclid : ℤ → ℕ → ℤ
div_euclid (pos n) d = pos (n / d)
div_euclid (negsuc n) d = negsuc (n / d)

abbrev pub rem_euclid : ℤ → ℕ → ℕ
rem_euclid (pos n) d = n % d
rem_euclid (negsuc n) d = d - 1 - n % d

pub +ℤ-balance :
    (x y : ℤ) → above (x +ℤ y) + (below x + below y) ≡ below (x +ℤ y) + (above x + above y)
unfolding ◌+ℤ◌
+ℤ-balance x y = ground arith

pub -ℤ-balance :
    (x y : ℤ) → above (x -ℤ y) + (below x + above y) ≡ below (x -ℤ y) + (above x + below y)
unfolding ◌-ℤ◌
-ℤ-balance x y = ground arith

pub ℤ-ext : (x y : ℤ) → above x + below y ≡ below x + above y → x ≡ y
ℤ-ext x y h = ground arith

pub one_sided : (z : ℤ) → (above z ≡ 0) ⊎ (below z ≡ 0)
one_sided (pos n) = inr refl
one_sided (negsuc n) = inl refl

infixl 70 ◌*ℤ◌
unfoldable pub ◌*ℤ◌ : ℤ → ℤ → ℤ
x *ℤ y = balance (above x * above y + below x * below y) (above x * below y + below x * above y)

-- A product with a natural number.
pub *ℤ-balance :
    (x : ℤ) (n : ℕ) → above (x *ℤ pos n) + below x * n ≡ below (x *ℤ pos n) + above x * n
unfolding ◌*ℤ◌
*ℤ-balance x n = ground arith

-- The range of i64, and the checked operations.
abbrev pub is_i64 : ℤ → Bool
is_i64 (pos n) = ltb n (2 ^ 63)
is_i64 (negsuc n) = ltb n (2 ^ 63)

abbrev pub checked_i64 : ℤ → Option ℤ
checked_i64 z = if is_i64 z then some z else none

-- `i64::to_string`.
abbrev pub show_int : (ℕ → List ℕ) → ℤ → List ℕ
show_int show (pos n) = show n
show_int show (negsuc n) = 45 ∷ show (suc n)
