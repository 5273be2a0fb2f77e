-- ===== src/Cursor/Fingerprint/Codes.antt =====
-- Codes that end by themselves: the rest behind two equal ones is the same.
use mikura.Common.{
  ℕ, ◌^◌, ◌<◌, ◌≡◌, refl, sym, ap, ◌∙◌, arith, true, false, Option, none, some, List, [], ◌∷◌, ◌++◌,
  append_assoc, length, length-append, flat_map, All,
}
use mikura.Common.Words.{to_le, of_le, of_le-to_le, length-to_le}
use mikura.Common.Text.{Str}
use mikura.Log.Body.{bool_byte}
use mikura.Cursor.Fingerprint.Bytes.{text_bytes, opt_bytes, list_bytes}

abbrev pub first_byte : List ℕ → ℕ
first_byte [] = 0
first_byte (b ∷ bs) = b

abbrev pub behind : List ℕ → List ℕ
behind [] = []
behind (b ∷ bs) = bs

pub heads : (a b : ℕ) (r s : List ℕ) → a ∷ r ≡ b ∷ s → (a ≡ b) × (r ≡ s)
heads a b r s h = (ap first_byte h, ap behind h)

pub fronts : (xs ys r s : List ℕ) → length xs ≡ length ys → xs ++ r ≡ ys ++ s → (xs ≡ ys) × (r ≡ s)
fronts [] [] r s e h = (refl, h)
fronts [] (y ∷ ys) r s e h = absurd (omega (arith, e))
fronts (x ∷ xs) [] r s e h = absurd (omega (arith, e))
fronts (x ∷ xs) (y ∷ ys) r s e h =
    let (first, rest) = heads x y (xs ++ r) (ys ++ s) h in
    let (same, last) = fronts xs ys r s (omega (arith, e)) rest in
    (ap (λ b. b ∷ xs) first ∙ ap (λ l. y ∷ l) same, last)

-- The same for ends of one length.
pub ends : (xs ys r s : List ℕ) → length r ≡ length s → xs ++ r ≡ ys ++ s → r ≡ s
ends xs ys r s e h =
    (fronts xs ys r s (omega (arith, e, ap length h, length-append xs r, length-append ys s)) h).1

-- Of the values that satisfy `P`.
abbrev pub Ends : {A : Type 0} → (A → Type 0) → (A → List ℕ) → Type 0
Ends {A} P enc = (x y : A) (r s : List ℕ) → P x → P y → enc x ++ r ≡ enc y ++ s → (x ≡ y) × (r ≡ s)

pub Ends-le : (k : ℕ) → Ends (λ n. n < 256 ^ k) (to_le k)
Ends-le k x y r s p q h =
    let (same, rest) =
      fronts (to_le k x) (to_le k y) r s (length-to_le k x ∙ sym (length-to_le k y)) h in
    (sym (of_le-to_le k x p) ∙ ap of_le same ∙ of_le-to_le k y q, rest)

pub Ends-bool : Ends (λ b. Unit {0}) (λ b. bool_byte b ∷ [])
Ends-bool true true r s p q h = (refl, ap behind h)
Ends-bool false false r s p q h = (refl, ap behind h)
Ends-bool true false r s p q h = absurd (omega (arith, ap first_byte h))
Ends-bool false true r s p q h = absurd (omega (arith, ap first_byte h))

-- One code behind another.
pub then-Ends :
    {A B : Type 0} (P : A → Type 0) (Q : B → Type 0) (f : A → List ℕ) (g : B → List ℕ)
    → Ends P f
    → Ends Q g
    → (a x : A) (b y : B) (r s : List ℕ) → P a
    → P x
    → Q b
    → Q y
    → (f a ++ g b) ++ r ≡ (f x ++ g y) ++ s
    → (a ≡ x) × ((b ≡ y) × (r ≡ s))
then-Ends P Q f g ends_f ends_g a x b y r s pa px qb qy h =
    let (first, rest) =
      ends_f a x (g b ++ r) (g y ++ s) pa px
        (sym (append_assoc (f a) (g b) r) ∙ h ∙ append_assoc (f x) (g y) s) in
    (first, ends_g b y r s qb qy rest)

-- A text whose length fits four bytes.
abbrev pub Wide : Str → Type 0
Wide s = length s < 2 ^ 32

pub Ends-text : Ends Wide text_bytes
Ends-text x y r s p q h =
    let (sizes, rest) =
      Ends-le 4 (length x) (length y) (x ++ r) (y ++ s) p q
        (sym (append_assoc (to_le 4 (length x)) x r) ∙ h ∙ append_assoc (to_le 4 (length y)) y s) in
    fronts x y r s sizes rest

abbrev pub Opt : {A : Type 0} → (A → Type 0) → Option A → Type 0
Opt P none = Unit {0}
Opt P (some a) = P a

pub Ends-opt :
    {A : Type 0} (P : A → Type 0) (enc : A → List ℕ) → Ends P enc → Ends (Opt P) (opt_bytes enc)
Ends-opt P enc e none none r s p q h = (refl, ap behind h)
Ends-opt P enc e none (some y) r s p q h = absurd (omega (arith, ap first_byte h))
Ends-opt P enc e (some x) none r s p q h = absurd (omega (arith, ap first_byte h))
Ends-opt P enc e (some x) (some y) r s p q h =
    let (same, rest) = e x y r s p q (ap behind h) in (ap some same, rest)

abbrev pub Short : {A : Type 0} → (A → Type 0) → List A → Type 0
Short P xs = (length xs < 2 ^ 32) × All P xs

Ends-flat :
    {A : Type 0} (P : A → Type 0) (enc : A → List ℕ)
    → Ends P enc
    → (xs ys : List A) (r s : List ℕ) → length xs ≡ length ys
    → All P xs
    → All P ys
    → flat_map enc xs ++ r ≡ flat_map enc ys ++ s
    → (xs ≡ ys) × (r ≡ s)
Ends-flat P enc e [] [] r s n p q h = (refl, h)
Ends-flat P enc e [] (y ∷ ys) r s n p q h = absurd (omega (arith, n))
Ends-flat P enc e (x ∷ xs) [] r s n p q h = absurd (omega (arith, n))
Ends-flat P enc e (x ∷ xs) (y ∷ ys) r s n (p, ps) (q, qs) h =
    let (first, rest) = e x y (flat_map enc xs ++ r) (flat_map enc ys ++ s) p q (
      sym (append_assoc (enc x) (flat_map enc xs) r)
      ∙ h
      ∙ append_assoc (enc y) (flat_map enc ys) s) in
    let (others, last) = Ends-flat P enc e xs ys r s (omega (arith, n)) ps qs rest in
    (ap (λ z. z ∷ xs) first ∙ ap (λ l. y ∷ l) others, last)

pub Ends-list :
    {A : Type 0} (P : A → Type 0) (enc : A → List ℕ) → Ends P enc → Ends (Short P) (list_bytes enc)
Ends-list P enc e xs ys r s (n, p) (m, q) h =
    let (sizes, rest) =
      Ends-le 4 (length xs) (length ys) (flat_map enc xs ++ r) (flat_map enc ys ++ s) n m (
        sym (append_assoc (to_le 4 (length xs)) (flat_map enc xs) r)
        ∙ h
        ∙ append_assoc (to_le 4 (length ys)) (flat_map enc ys) s) in
    Ends-flat P enc e xs ys r s sizes p q rest
