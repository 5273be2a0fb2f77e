-- ===== src/Common/Steps.antt =====
-- A method on `&mut self` that may fail: it returns the changed object with its result, and what it
-- changed before an error stays changed.
use mathlib.Core.Path.{◌≡◌, refl}
use mikura.Common.Results.{Result, ok, err}

abbrev pub Step : Type 0 → Type 0 → Type 0 → Type 0
Step S E A = S → S × Result E A

module _ {S E A : Type 0} where
  abbrev pub pure : A → Step S E A
  pure a s = (s, ok a)

  abbrev pub fail : E → Step S E A
  fail e s = (s, err e)

-- A look at the object, and an assignment to its fields.
abbrev pub look : {S E : Type 0} → Step S E S
look s = (s, ok s)

abbrev pub modify : {S E : Type 0} → (S → S) → Step S E (Unit {0})
modify change s = (change s, ok tt)

module _ {S E A B : Type 0} where
  abbrev pub continue : S × Result E A → (A → Step S E B) → S × Result E B
  continue (s, ok a) next = next a s
  continue (s, err e) next = (s, err e)

  infixl 5 ◌>>=◌
  abbrev pub ◌>>=◌ : Step S E A → (A → Step S E B) → Step S E B
  ◌>>=◌ m next s = continue (m s) next

  -- One step of a chain that succeeds.
  pub >>=-ok :
      (m : Step S E A) (next : A → Step S E B) (s s' : S) (a : A)
      → m s ≡ (s', ok a)
      → (m >>= next) s ≡ next a s'
  >>=-ok m next s s' a h = rw h refl

  -- One step of a chain that fails.
  pub >>=-err :
      (m : Step S E A) (next : A → Step S E B) (s s' : S) (e : E)
      → m s ≡ (s', err e)
      → (m >>= next) s ≡ (s', err e)
  >>=-err m next s s' e h = rw h refl

infixl 5 ◌>>◌
abbrev pub ◌>>◌ : {S E B : Type 0} → Step S E (Unit {0}) → Step S E B → Step S E B
◌>>◌ m rest = m >>= λ done. rest
