-- ===== src/Common/Text.antt =====
-- Rust's `str` as its bytes: equality, byte order, sorting, and the validity test of `from_utf8`.
use Prim.Native.Nat.{ℕ, zero, suc, ◌<◌}
use Prim.Native.Char.{code}
use Prim.Native.String.{String}
use mathlib.Core.Path.{◌≡◌, refl}
use mathlib.Core.Logic.{◌↔◌, inl, inr}
use mathlib.Core.Bool.{Bool, true, false, ◌&&◌, ◌||◌}
use mathlib.Core.Option.{Option, none, some}
use mathlib.Core.List.{List, [], ◌∷◌}
use native.Mathlib.Omega.{arith}
use mikura.Common.Tests.{ltb, leb, ◌==◌, if◌then◌else◌, Bool-cases}
use mikura.Common.Lists.{All, length}

-- The bytes of a text. Nothing below asks that they are valid; `IsText` does.
abbrev pub Str : Type 0
Str = List ℕ

-- The bytes of an ASCII literal.
abbrev pub ascii : String → Str
ascii String.[] = []
ascii (String.◌∷◌ c s) = code c ∷ ascii s

unfoldable pub str_eq : Str → Str → Bool
str_eq [] [] = true
str_eq (a ∷ s) (b ∷ t) = (a == b) && str_eq s t
str_eq _ _ = false

str_eq_sound : (s t : Str) → str_eq s t ≡ true → s ≡ t
unfolding str_eq
str_eq_sound [] [] h = refl
str_eq_sound [] (b ∷ t) h = cc
str_eq_sound (a ∷ s) [] h = cc
str_eq_sound (a ∷ s) (b ∷ t) h = ground (arith, str_eq_sound s t)

pub str_eq_refl : (s : Str) → str_eq s s ≡ true
unfolding str_eq
str_eq_refl [] = refl
str_eq_refl (a ∷ s) = ground (arith, str_eq_refl s)

pub str_eq_iff : (s t : Str) → (str_eq s t ≡ true) ↔ (s ≡ t)
str_eq_iff s t = (str_eq_sound s t, λ e. rw e (str_eq_refl t))

-- `a < b` in the order of bytes.
unfoldable pub str_lt : Str → Str → Bool
str_lt s [] = false
str_lt [] (b ∷ t) = true
str_lt (a ∷ s) (b ∷ t) = ltb a b || ((a == b) && str_lt s t)

pub str_lt_irrefl : (s : Str) → str_lt s s ≡ false
unfolding str_lt
str_lt_irrefl [] = refl
str_lt_irrefl (a ∷ s) = ground (arith, str_lt_irrefl s)

pub str_lt_trans : (s t u : Str) → str_lt s t ≡ true → str_lt t u ≡ true → str_lt s u ≡ true
unfolding str_lt
str_lt_trans s t [] h k = cc
str_lt_trans s [] (c ∷ u) h k = cc
str_lt_trans [] (b ∷ t) (c ∷ u) h k = refl
str_lt_trans (a ∷ s) (b ∷ t) (c ∷ u) h k = ground (arith, str_lt_trans s t u)

pub str_lt_total : (s t : Str) → str_lt s t ≡ false → str_eq s t ≡ false → str_lt t s ≡ true
unfolding str_lt str_eq
str_lt_total [] [] h k = cc
str_lt_total (a ∷ s) [] h k = refl
str_lt_total [] (b ∷ t) h k = cc
str_lt_total (a ∷ s) (b ∷ t) h k = ground (arith, str_lt_total s t)

-- `keys.sort()`.
insert_sorted : Str → List Str → List Str
insert_sorted k [] = k ∷ []
insert_sorted k (j ∷ js) =
    let rest = insert_sorted k js in if str_lt j k then j ∷ rest else k ∷ j ∷ js

unfoldable pub sort : List Str → List Str
unfolding insert_sorted
sort [] = []
sort (k ∷ ks) = insert_sorted k (sort ks)

-- Membership in a set of texts.
abbrev pub contains_str : Str → List Str → Bool
contains_str k [] = false
contains_str k (j ∷ js) = str_eq j k || contains_str k js

contains-insert_sorted :
    (k j : Str) (js : List Str)
    → contains_str k (insert_sorted j js) ≡ (str_eq j k || contains_str k js)
unfolding insert_sorted
contains-insert_sorted k j [] = refl
contains-insert_sorted k j (i ∷ js) = ground (arith, contains-insert_sorted k j js)

pub contains-sort : (k : Str) (js : List Str) → contains_str k (sort js) ≡ contains_str k js
unfolding sort
contains-sort k [] = refl
contains-sort k (j ∷ js) = rw contains-insert_sorted (rw (contains-sort k js))

length-insert_sorted : (k : Str) (ks : List Str) → length (insert_sorted k ks) ≡ suc (length ks)
unfolding insert_sorted
length-insert_sorted k [] = refl
length-insert_sorted k (j ∷ ks) = ground (arith, length-insert_sorted k ks)

pub length-sort : (ks : List Str) → length (sort ks) ≡ length ks
unfolding sort
length-sort [] = refl
length-sort (k ∷ ks) = rw length-insert_sorted (rw (length-sort ks) refl)

All-insert_sorted :
    (P : Str → Type 0) (k : Str) (ks : List Str) → P k → All P ks → All P (insert_sorted k ks)
unfolding insert_sorted
All-insert_sorted P k [] p h = (p, tt)
All-insert_sorted P k (j ∷ ks) p (q, h) = elim (Bool-cases (str_lt j k)) [
  | inl e ↦ rw e (q, All-insert_sorted P k ks p h)
  | inr e ↦ rw e (p, (q, h))
]

pub All-sort : (P : Str → Type 0) (ks : List Str) → All P ks → All P (sort ks)
unfolding sort
All-sort P [] h = tt
All-sort P (k ∷ ks) (p, h) = All-insert_sorted P k (sort ks) p (All-sort P ks h)

-- The state of `from_utf8` between two bytes: how many continuation bytes are due, and the range of
-- the next one. The ranges are those of the Unicode standard's table of well-formed sequences.
pub record Due : Type 0 where
  pub left : ℕ
  pub lo : ℕ
  pub hi : ℕ

abbrev due : ℕ → ℕ → ℕ → Option Due
due n lo hi = some (record { left = n; lo = lo; hi = hi })

lead_byte : ℕ → Option Due
lead_byte b =
    if ltb b 0x80
    then due 0 0x80 0xbf
    else if ltb b 0xc2
    then none
    else if ltb b 0xe0
    then due 1 0x80 0xbf
    else if b == 0xe0
    then due 2 0xa0 0xbf
    else if b == 0xed
    then due 2 0x80 0x9f
    else if ltb b 0xf0
    then due 2 0x80 0xbf
    else if b == 0xf0
    then due 3 0x90 0xbf
    else if ltb b 0xf4
    then due 3 0x80 0xbf
    else if b == 0xf4
    then due 3 0x80 0x8f
    else none

next_byte : ℕ → ℕ → ℕ → ℕ → Option Due
next_byte zero lo hi b = lead_byte b
next_byte (suc n) lo hi b = if leb lo b && leb b hi then due n 0x80 0xbf else none

utf8_from : Option Due → List ℕ → Bool
utf8_from none bs = false
utf8_from (some d) [] = d.left == 0
utf8_from (some d) (b ∷ bs) = utf8_from (next_byte d.left d.lo d.hi b) bs

-- `String::from_utf8(bytes).is_ok()`
unfoldable pub is_utf8 : List ℕ → Bool
unfolding utf8_from next_byte lead_byte
is_utf8 = utf8_from (due 0 0x80 0xbf)

-- What the type `str` guarantees of its bytes.
pub record IsText (s : Str) : Type 0 where
  pub valid : is_utf8 s ≡ true

next_byte-range :
    (left lo hi b : ℕ) (d : Due)
    → hi < 256
    → next_byte left lo hi b ≡ some d
    → (b < 256) × (d.hi < 256)
unfolding next_byte lead_byte
next_byte-range zero lo hi b d h e = ground arith
next_byte-range (suc left) lo hi b d h e = ground arith

utf8_from-bytes :
    (d : Option Due) (bs : List ℕ)
    → ((e : Due) → d ≡ some e → e.hi < 256)
    → utf8_from d bs ≡ true
    → All (λ b. b < 256) bs
unfolding utf8_from
utf8_from-bytes none [] h e = tt
utf8_from-bytes none (b ∷ bs) h e = cc
utf8_from-bytes (some d) [] h e = tt
utf8_from-bytes (some d) (b ∷ bs) h e = (
  first (next_byte d.left d.lo d.hi b) refl e,
  utf8_from-bytes (next_byte d.left d.lo d.hi b) bs next e,
)
  where
    next : (e : Due) → next_byte d.left d.lo d.hi b ≡ some e → e.hi < 256
    next e p = (next_byte-range d.left d.lo d.hi b e (h d refl) p).1

    first : (r : Option Due) → next_byte d.left d.lo d.hi b ≡ r → utf8_from r bs ≡ true → b < 256
    first none p q = cc
    first (some e) p q = (next_byte-range d.left d.lo d.hi b e (h d refl) p).0

-- Valid UTF-8 is made of bytes.
pub is_utf8-bytes : (bs : List ℕ) → is_utf8 bs ≡ true → All (λ b. b < 256) bs
unfolding is_utf8
is_utf8-bytes bs e = utf8_from-bytes (due 0 0x80 0xbf) bs (λ d p. ground arith) e

utf8_accepts : is_utf8 (0x61 ∷ 0xc3 ∷ 0xa9 ∷ 0xf0 ∷ 0x9f ∷ 0x98 ∷ 0x80 ∷ []) ≡ true
unfolding is_utf8
utf8_accepts = refl

utf8_rejects_surrogate : is_utf8 (0xed ∷ 0xa0 ∷ 0x80 ∷ []) ≡ false
unfolding is_utf8
utf8_rejects_surrogate = refl

utf8_rejects_cut : is_utf8 (0x61 ∷ 0xc3 ∷ []) ≡ false
unfolding is_utf8
utf8_rejects_cut = refl

sort_run : sort (ascii "b" ∷ ascii "ab" ∷ ascii "a" ∷ []) ≡ ascii "a" ∷ ascii "ab" ∷ ascii "b" ∷ []
unfolding sort str_lt
sort_run = refl
