-- ===== src/Common/Words.antt =====
-- `to_le_bytes` and `from_le_bytes`, at every width.
use Prim.Native.Nat.{ℕ, zero, suc, ◌+◌, ◌-◌, ◌*◌, ◌/◌, ◌%◌, ◌^◌, ◌<◌}
use mathlib.Core.Path.{◌≡◌, refl}
use mathlib.Core.List.{List, [], ◌∷◌}
use native.Mathlib.Omega.{arith}
use native.Mathlib.Nat.{pow-suc}
use mikura.Common.Lists.{length, All}

abbrev pub IsByte : ℕ → Type 0
IsByte b = b < 256

abbrev pub to_le : ℕ → ℕ → List ℕ
to_le zero v = []
to_le (suc k) v = (v % 256) ∷ to_le k (v / 256)

abbrev pub of_le : List ℕ → ℕ
of_le [] = 0
of_le (b ∷ bs) = b + 256 * of_le bs

pub length-to_le : (k v : ℕ) → length (to_le k v) ≡ k
length-to_le zero v = refl
length-to_le (suc k) v = omega (arith, length-to_le k (v / 256))

pub to_le-IsByte : (k v : ℕ) → All IsByte (to_le k v)
to_le-IsByte zero v = tt
to_le-IsByte (suc k) v = (omega arith, to_le-IsByte k (v / 256))

pub of_le-to_le : (k v : ℕ) → v < 256 ^ k → of_le (to_le k v) ≡ v
of_le-to_le zero v h = omega arith
of_le-to_le (suc k) v h = omega (arith, of_le-to_le k (v / 256) (omega (arith, pow-suc 256 k)))

-- `a + b` and `a - b` on u32s, as a release build computes them.
abbrev pub add_u32 : ℕ → ℕ → ℕ
add_u32 a b = (a + b) % 2 ^ 32

abbrev pub sub_u32 : ℕ → ℕ → ℕ
sub_u32 a b = (a + 2 ^ 32 - b) % 2 ^ 32
