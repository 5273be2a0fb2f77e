-- ===== src/Common/Maps.antt =====
-- `HashMap` as an association list, in the order of first insertion, and `HashSet` as its keys.
use mathlib.Core.Path.{◌≡◌, refl, subst}
use mathlib.Core.Logic.{◌↔◌, inl, inr}
use mathlib.Core.Bool.{Bool, true, false, ◌&&◌, ◌||◌}
use mathlib.Core.Option.{Option, none, some}
use mathlib.Core.List.{List, [], ◌∷◌, ◌++◌}
use native.Mathlib.Omega.{arith}
use mikura.Common.Tests.{if◌then◌else◌, ◌==◌, Bool-cases}
use mikura.Common.Lists.{length, All}
use Prim.Native.Nat.{ℕ, ◌+◌}
use mikura.Common.Text.{Str, str_eq, str_eq_iff}

-- Equality of keys, `Eq` of Rust.
pub record Key (K : Type 0) : Type 0 where
  pub eq : K → K → Bool
  pub eq_iff : (a b : K) → (eq a b ≡ true) ↔ (a ≡ b)

instance abbrev pub str_key : Key Str
str_key = record { eq = str_eq; eq_iff = str_eq_iff }

abbrev pub pair_eq : Str × Str → Str × Str → Bool
pair_eq (a, b) (c, d) = str_eq a c && str_eq b d

pub pair_eq_iff : (p q : Str × Str) → (pair_eq p q ≡ true) ↔ (p ≡ q)
pair_eq_iff (a, b) (c, d) = (
  λ h. ground (arith, str_eq_iff a c, str_eq_iff b d),
  λ e. ground (arith, str_eq_iff a c, str_eq_iff b d),
)

instance abbrev pub pair_key : Key (Str × Str)
pair_key = record { eq = pair_eq; eq_iff = pair_eq_iff }

abbrev pub num_pair_eq : ℕ × ℕ → ℕ × ℕ → Bool
num_pair_eq (a, b) (c, d) = (a == c) && (b == d)

pub num_pair_eq_iff : (p q : ℕ × ℕ) → (num_pair_eq p q ≡ true) ↔ (p ≡ q)
num_pair_eq_iff (a, b) (c, d) = (λ h. ground arith, λ e. ground arith)

instance abbrev pub num_pair_key : Key (ℕ × ℕ)
num_pair_key = record { eq = num_pair_eq; eq_iff = num_pair_eq_iff }

abbrev pub Map : Type 0 → Type 0 → Type 0
Map K V = List (K × V)

or-false : (b : Bool) → (b || false) ≡ b
or-false true = refl
or-false false = refl

module _ {K : Type 0} ⦃k : Key K⦄ where
  -- A set is the list of its elements; `insert` answers whether the element is new.
  unfoldable pub contains : K → List K → Bool
  contains a [] = false
  contains a (b ∷ s) = k.eq b a || contains a s

  unfoldable pub add : K → List K → List K × Bool
  unfolding contains
  add a s = if contains a s then (s, false) else (s ++ (a ∷ []), true)

  pub contains-snoc :
      (a b : K) (s : List K) → contains b (s ++ (a ∷ [])) ≡ (contains b s || k.eq a b)
  unfolding contains
  contains-snoc a b [] = or-false (k.eq a b)
  contains-snoc a b (c ∷ s) = ground (arith, contains-snoc a b s)

module _ {K V : Type 0} ⦃k : Key K⦄ where
  unfoldable pub get : K → Map K V → Option V
  get a [] = none
  get a ((b, v) ∷ m) = if k.eq b a then some v else get a m

  unfoldable pub insert : K → V → Map K V → Map K V
  insert a v [] = (a, v) ∷ []
  insert a v ((b, w) ∷ m) = if k.eq b a then (b, v) ∷ m else (b, w) ∷ insert a v m

  unfoldable pub remove : K → Map K V → Map K V
  remove a [] = []
  remove a ((b, w) ∷ m) = let rest = remove a m in if k.eq b a then rest else (b, w) ∷ rest

  unfoldable pub contains_key : K → Map K V → Bool
  contains_key a [] = false
  contains_key a ((b, v) ∷ m) = k.eq b a || contains_key a m

  pub get-insert :
      (a b : K) (v : V) (m : Map K V)
      → get b (insert a v m) ≡ (if k.eq a b then some v else get b m)
  unfolding get insert
  get-insert a b v [] = refl
  get-insert a b v ((c, w) ∷ m) =
      ground (arith, k.eq_iff a b, k.eq_iff c a, k.eq_iff c b, get-insert a b v m)

  pub get-remove :
      (a b : K) (m : Map K V) → get b (remove a m) ≡ (if k.eq a b then none else get b m)
  unfolding get remove
  get-remove a b [] = ground arith
  get-remove a b ((c, w) ∷ m) =
      ground (arith, k.eq_iff a b, k.eq_iff c a, k.eq_iff c b, get-remove a b m)

-- Maps and sets after an insertion.
module _ {K V : Type 0} ⦃k : Key K⦄ where
  pub length-insert :
      (a : K) (v : V) (m : Map K V)
      → length (insert a v m) ≡ (if contains_key a m then length m else length m + 1)
  unfolding insert contains_key
  length-insert a v [] = omega arith
  length-insert a v ((b, w) ∷ m) = ground (arith, length-insert a v m)

  pub All-insert :
      (P : V → Type 0) (a : K) (v : V) (m : Map K V)
      → All (λ (p : K × V). P p.1) m
      → P v
      → All (λ (p : K × V). P p.1) (insert a v m)
  unfolding insert
  All-insert P a v [] h p = (p, tt)
  All-insert P a v ((b, w) ∷ m) (q, h) p = elim (Bool-cases (k.eq b a)) [
    | inl e ↦ rw e (p, h)
    | inr e ↦ rw e (q, All-insert P a v m h p)
  ]

  pub All-get :
      (P : V → Type 0) (a : K) (v : V) (m : Map K V)
      → All (λ (p : K × V). P p.1) m
      → get a m ≡ some v
      → P v
  unfolding get
  All-get P a v [] h e = cc
  All-get P a v ((b, w) ∷ m) (q, h) e = elim (Bool-cases (k.eq b a)) [
    | inl p ↦ subst P (same p) q
    | inr p ↦ All-get P a v m h (rw p at e)
  ]
    where
      same : k.eq b a ≡ true → w ≡ v
      same p = ground arith

  pub insert-same : (a : K) (v : V) (m : Map K V) → get a m ≡ some v → insert a v m ≡ m
  unfolding get insert
  insert-same a v [] e = cc
  insert-same a v ((b, w) ∷ m) e = ground (arith, insert-same a v m)

  pub contains_key-get : (a : K) (m : Map K V) → contains_key a m ≡ false → get a m ≡ none
  unfolding get contains_key
  contains_key-get a [] e = refl
  contains_key-get a ((b, w) ∷ m) e = ground (arith, contains_key-get a m)

  pub get-contains_key : (a : K) (m : Map K V) → get a m ≡ none → contains_key a m ≡ false
  unfolding get contains_key
  get-contains_key a [] e = refl
  get-contains_key a ((b, w) ∷ m) e = ground (arith, get-contains_key a m)

  pub contains_key-some : (a : K) (v : V) (m : Map K V) → get a m ≡ some v → contains_key a m ≡ true
  unfolding get contains_key
  contains_key-some a v [] e = cc
  contains_key-some a v ((b, w) ∷ m) e = ground (arith, contains_key-some a v m)

  pub contains_key-insert :
      (a b : K) (v : V) (m : Map K V)
      → contains_key b (insert a v m) ≡ (contains_key b m || k.eq a b)
  unfolding insert contains_key
  contains_key-insert a b v [] = ground arith
  contains_key-insert a b v ((c, w) ∷ m) =
      ground (arith, contains_key-insert a b v m, k.eq_iff c a, k.eq_iff c b, k.eq_iff a b)

module _ {K : Type 0} ⦃k : Key K⦄ where
  pub add-old : (a : K) (s : List K) → contains a s ≡ true → add a s ≡ (s, false)
  unfolding add
  add-old a s h = rw h refl

  pub add-new : (a : K) (s : List K) → contains a s ≡ false → add a s ≡ (s ++ (a ∷ []), true)
  unfolding add
  add-new a s h = rw h refl

pub contains_key-empty :
    {K : Type 0} (V : Type 0) ⦃k : Key K⦄ (a : K) → contains_key {V = V} a [] ≡ false
unfolding contains_key
contains_key-empty V a = refl

pub ruleset map_laws = (get-insert, get-remove)
