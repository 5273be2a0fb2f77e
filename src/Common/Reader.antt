-- ===== src/Common/Reader.antt =====
-- Parsing over a cursor `&mut &[u8]`: a reader takes the bytes left and returns its value with what
-- it leaves, or an error.
use Prim.Native.Nat.{ℕ}
use mathlib.Core.Path.{◌≡◌, refl, ◌∙◌}
use mathlib.Core.List.{List, [], ◌++◌, append_assoc, append-nil}
use mikura.Common.Results.{Result, ok, err}

abbrev pub Reader : Type 0 → Type 0 → Type 0
Reader E A = List ℕ → Result E (A × List ℕ)

module _ {E A : Type 0} where
  abbrev pub pure : A → Reader E A
  pure a cur = ok (a, cur)

  abbrev pub fail : E → Reader E A
  fail e cur = err e

  -- `Reads m xs a`: with `xs` in front, `m` returns `a` and leaves what follows `xs`.
  pub record Reads (m : Reader E A) (xs : List ℕ) (a : A) : Type 0 where
    pub at : (rest : List ℕ) → m (xs ++ rest) ≡ ok (a, rest)

module _ {E A B : Type 0} where
  infixl 5 ◌>>=◌
  abbrev pub ◌>>=◌ : Reader E A → (A → Reader E B) → Reader E B
  ◌>>=◌ m f cur = elim (m cur) [ ok (a, rest) ↦ f a rest | err e ↦ err e ]

  -- One step of a chain that succeeds.
  pub >>=-ok :
      (m : Reader E A) (f : A → Reader E B) (cur rest : List ℕ) (a : A)
      → m cur ≡ ok (a, rest)
      → (m >>= f) cur ≡ f a rest
  >>=-ok m f cur rest a h = rw (h, ◌>>=◌)

  pub Reads-bind :
      (m : Reader E A) (f : A → Reader E B) (xs ys : List ℕ) (a : A) (b : B)
      → Reads m xs a
      → Reads (f a) ys b
      → Reads (m >>= f) (xs ++ ys) b
  Reads-bind m f xs ys a b h k = record {
    at = λ rest.
        rw append_assoc
          (>>=-ok m f (xs ++ (ys ++ rest)) (ys ++ rest) a (h.at (ys ++ rest)) ∙ k.at rest);
  }

-- At the end of the input.
pub Reads-end :
    {E A : Type 0} (m : Reader E A) (xs : List ℕ) (a : A) → Reads m xs a → m xs ≡ ok (a, [])
Reads-end m xs a h = rw (append-nil) at (h.at [])

-- `cur.is_empty()` and `cur.len()`: a look at the bytes left.
abbrev pub peek : {E : Type 0} → Reader E (List ℕ)
peek cur = ok (cur, cur)

pub Reads-pure : {E A : Type 0} (a : A) → Reads (pure {E = E} a) [] a
Reads-pure a = record { at = λ rest. refl }
