-- ===== src/Common/Results.antt =====
-- `Result`, with its chain for `do` blocks.
use mathlib.Core.Path.{◌≡◌, refl}
use mathlib.Core.Bool.{Bool, true, false}
use mathlib.Core.Option.{Option, none, some}
use mikura.Common.Tests.{if◌then◌else◌}

pub data Result {ℓ} (E A : Type ℓ) : Type ℓ where
  ok : A → Result E A
  err : E → Result E A

-- `if !b { return Err(e) }`
abbrev pub guard {ℓ} : {E : Type ℓ} → Bool → E → Result E (Unit {ℓ})
guard b e = elim b [ true ↦ ok tt | false ↦ err e ]

-- `ok_or_else`
abbrev pub ok_or {ℓ} : {E A : Type ℓ} → Option A → E → Result E A
ok_or (some a) e = ok a
ok_or none e = err e

module _ {ℓ} {E A B : Type ℓ} where
  -- The operator `?`.
  infixl 5 ◌>>=◌
  abbrev pub ◌>>=◌ : Result E A → (A → Result E B) → Result E B
  err e >>= next = err e
  ok a >>= next = next a

  -- What a chain that succeeds went through.
  pub >>=-eq-ok :
      (r : Result E A) (next : A → Result E B) {out : B}
      → (r >>= next) ≡ ok out
      → (a : A) × (r ≡ ok a) × (next a ≡ ok out)
  >>=-eq-ok (err e) next eq = cc
  >>=-eq-ok (ok a) next eq = (a, refl, eq)

infixl 5 ◌>>◌
abbrev pub ◌>>◌ {ℓ} : {E B : Type ℓ} → Result E (Unit {ℓ}) → Result E B → Result E B
r >> next = r >>= λ done. next

module _ {ℓ} {E A : Type ℓ} where
  -- An early return of an error that was not taken, and one that is not.
  pub else-ok :
      (b : Bool) (e : E) (r : Result E A) {out : A}
      → (if b then err e else r) ≡ ok out
      → (b ≡ false) × (r ≡ ok out)
  else-ok true e r h = cc
  else-ok false e r h = (refl, h)

  pub ok-else :
      (b : Bool) (e : E) (r : Result E A) {out : A}
      → b ≡ false
      → r ≡ ok out
      → (if b then err e else r) ≡ ok out
  ok-else true e r f h = cc
  ok-else false e r f h = h

  pub ok-eq : (a b : A) → (let r : Result E A = ok a in r) ≡ ok b → a ≡ b
  ok-eq a b h = cc
