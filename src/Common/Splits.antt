-- ===== src/Common/Splits.antt =====
-- The cuts of texts whose parts are known to be free of the separator.
use Prim.Native.Nat.{ℕ}
use mathlib.Core.Path.{◌≡◌, refl}
use mathlib.Core.Bool.{false}
use mathlib.Core.Option.{some}
use mathlib.Core.List.{[], ◌∷◌, ◌++◌}
use native.Mathlib.Omega.{arith}
use mikura.Common.Tests.{◌==◌}
use mikura.Common.Lists.{All}
use mikura.Common.Text.{Str}
use mikura.Common.Strings.{split_once, split_char}

abbrev pub Free : ℕ → Str → Type 0
Free c s = All (λ b. (b == c) ≡ false) s

pub split_once-append :
    (c : ℕ) (front back : Str)
    → Free c front
    → split_once c (front ++ (c ∷ back)) ≡ some (front, back)
unfolding split_once
split_once-append c [] back h = ground arith
split_once-append c (b ∷ front) back h = ground (arith, split_once-append c front back)

pub split_char-append :
    (c : ℕ) (front back : Str)
    → Free c front
    → split_char c (front ++ (c ∷ back)) ≡ front ∷ split_char c back
unfolding split_char
split_char-append c [] back h = ground arith
split_char-append c (b ∷ front) back h = ground (arith, split_char-append c front back)

pub split_char-Free : (c : ℕ) (s : Str) → Free c s → split_char c s ≡ s ∷ []
unfolding split_char
split_char-Free c [] h = refl
split_char-Free c (b ∷ s) h = ground (arith, split_char-Free c s)
