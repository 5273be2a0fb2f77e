-- ===== src/Schema/Replace/Needs.antt =====
-- The changes that a replacement needs, by membership, and the comparison with those that it declares.
use mikura.Common.{
  ◌≡◌, refl, sym, ap, subst, ◌∙◌, arith, Bool, true, false, not, ◌&&◌, ◌||◌, Option, none, some,
  List, [], ◌∷◌, any, insert_by, sort_by, if◌then◌else◌, Result, ok, err, ◌>>=◌, >>=-eq-ok, ok-eq,
  Bool-cases, inl, inr, if-true, if-false, else-ok,
}
use mikura.Common.Text.{Str, str_eq, str_eq_iff, sort, contains_str, contains-sort}
use mikura.Common.Maps.{Map, contains_key, str_key}
use mikura.Errors.{Error, rename_lost}
use mikura.Schema.Descriptor.{SchemaLink, SchemaDescriptor, declares, property_type, type_eq}
use mikura.Schema.Replace.{
  mapped, Changes, dropping, casting, expected_changes, same_list, cast_eq, bool_eq, link_eq,
  by_name, check_drop, check_cast, find_link, retargeted, expected_retarget, link_by_name,
  check_retarget,
}
use mikura.Schema.Replace.Equality.{cast_eq_sound, link_eq_sound}
use mikura.Value.Types.{PropertyType}

any-insert_by :
    {A : Type 0} (p : A → Bool) (lt : A → A → Bool) (x : A) (xs : List A)
    → any p (insert_by lt x xs) ≡ (p x || any p xs)
any-insert_by p lt x [] = refl
any-insert_by p lt x (y ∷ ys) = elim (Bool-cases (lt y x)) [
  | inl e ↦ ap (any p) (if-true _ e) ∙ ground (arith, any-insert_by p lt x ys)
  | inr e ↦ ap (any p) (if-false _ e)
]

any-sort_by :
    {A : Type 0} (p : A → Bool) (lt : A → A → Bool) (xs : List A) → any p (sort_by lt xs) ≡ any p xs
any-sort_by p lt [] = refl
any-sort_by p lt (x ∷ xs) =
    any-insert_by p lt x (sort_by lt xs) ∙ ap (λ b. p x || b) (any-sort_by p lt xs)

any-same_list :
    {A : Type 0} (p : A → Bool) (eq : A → A → Bool) (xs ys : List A)
    → ((a b : A) → eq a b ≡ true → a ≡ b)
    → same_list eq xs ys ≡ true
    → any p xs ≡ any p ys
unfolding same_list
any-same_list p eq [] [] sound h = refl
any-same_list p eq [] (y ∷ ys) sound h = cc
any-same_list p eq (x ∷ xs) [] sound h = cc
any-same_list p eq (x ∷ xs) (y ∷ ys) sound h =
    let (first, rest) = both (eq x y) (same_list eq xs ys) h in
    ap (λ z. p z || any p xs) (sound x y first)
    ∙ ap (λ b. p y || b) (any-same_list p eq xs ys sound rest)
  where
    both : (a b : Bool) → (a && b) ≡ true → (a ≡ true) × (b ≡ true)
    both true b h = (refl, h)
    both false b h = cc

contains-any :
    (name : Str) (names : List Str) → contains_str name names ≡ any (λ old. str_eq old name) names
contains-any name [] = refl
contains-any name (old ∷ names) = ap (λ b. str_eq old name || b) (contains-any name names)

passed :
    (b : Bool) (e : Error)
    → (if b then ok tt else err e) ≡ (let r : Result Error (Unit {0}) = ok tt in r)
    → b ≡ true
passed true e h = refl
passed false e h = cc

pub check_drop-same :
    (declared expected : List Str) (name : Str)
    → check_drop declared expected ≡ ok tt
    → contains_str name declared ≡ contains_str name expected
unfolding check_drop
check_drop-same declared expected name h =
    sym (contains-sort name declared)
    ∙ contains-any name (sort declared)
    ∙ any-same_list (λ old. str_eq old name) str_eq (sort declared) (sort expected)
        (λ a b. (str_eq_iff a b).0) (passed _ _ h)
    ∙ sym (contains-any name (sort expected))
    ∙ contains-sort name expected

unfoldable pub has_cast : Str × PropertyType → List (Str × PropertyType) → Bool
unfolding cast_eq
has_cast t casts = any (λ c. cast_eq c t) casts

pub check_cast-same :
    (declared expected : List (Str × PropertyType)) (t : Str × PropertyType)
    → check_cast declared expected ≡ ok tt
    → has_cast t declared ≡ has_cast t expected
unfolding check_cast has_cast
check_cast-same declared expected t h =
    sym (any-sort_by (λ c. cast_eq c t) by_name declared)
    ∙ any-same_list (λ c. cast_eq c t) cast_eq (sort_by by_name declared) (sort_by by_name expected)
        cast_eq_sound (passed _ _ h)
    ∙ any-sort_by (λ c. cast_eq c t) by_name expected

unfoldable pub has_link : SchemaLink → List SchemaLink → Bool
unfolding link_eq
has_link t links = any (λ l. link_eq l t) links

pub check_retarget-same :
    (declared expected : List SchemaLink) (t : SchemaLink)
    → check_retarget declared expected ≡ ok tt
    → has_link t declared ≡ has_link t expected
unfolding check_retarget has_link
check_retarget-same declared expected t h =
    sym (any-sort_by (λ l. link_eq l t) link_by_name declared)
    ∙ any-same_list (λ l. link_eq l t) link_eq (sort_by link_by_name declared)
        (sort_by link_by_name expected) link_eq_sound (passed _ _ h)
    ∙ any-sort_by (λ l. link_eq l t) link_by_name expected

-- A property of the previous descriptor that the next one no longer has.
unfoldable pub needs_drop : SchemaDescriptor → Map Str Str → Str → Bool
unfolding mapped
needs_drop next rename old = not (declares next.properties (mapped rename old))

abbrev pub differs : Str → Option PropertyType → Option PropertyType → Str × PropertyType → Bool
unfolding cast_eq
differs new (some previous) (some replacement) t =
    not (type_eq previous replacement) && cast_eq (new, replacement) t
differs new _ _ t = false

-- A property that is kept under a name with another type, which is the second half of `t`.
unfoldable pub needs_cast :
    SchemaDescriptor → SchemaDescriptor → Map Str Str → Str × PropertyType → Str → Bool
unfolding mapped property_type differs
needs_cast d next rename t old =
    declares next.properties (mapped rename old)
    && differs (mapped rename old) (property_type d old) (property_type next (mapped rename old)) t

abbrev pub moved : SchemaLink → Option SchemaLink → SchemaLink → Bool
unfolding str_eq link_eq
moved link none t = false
moved link (some next) t =
    (not (str_eq next.far_kind link.far_kind) || not (bool_eq next.outgoing link.outgoing))
    && link_eq next t

-- An outgoing link whose target or direction changes.
unfoldable pub needs_retarget : SchemaDescriptor → Map Str Str → SchemaLink → SchemaLink → Bool
unfolding mapped find_link moved
needs_retarget next rename t link =
    link.outgoing && moved link (find_link (mapped rename link.name) next.links) t

pub expected_retarget-needed :
    (next : SchemaDescriptor) (rename : Map Str Str) (t : SchemaLink) (links : List SchemaLink)
    → has_link t (expected_retarget next rename links) ≡ any (needs_retarget next rename t) links
unfolding expected_retarget has_link needs_retarget
expected_retarget-needed next rename t [] = refl
expected_retarget-needed next rename t (link ∷ links) =
    first link.outgoing (find_link (mapped rename link.name) next.links)
    ∙ ap (λ b. needs_retarget next rename t link || b)
        (expected_retarget-needed next rename t links)
  where
    rest : List SchemaLink
    rest = expected_retarget next rename links

    chosen :
        (b : Bool) (l : SchemaLink)
        → has_link t (if b then l ∷ rest else rest) ≡ ((b && link_eq l t) || has_link t rest)
    chosen true l = refl
    chosen false l = refl

    first :
        (out : Bool) (found : Option SchemaLink)
        → has_link t (if out then retargeted link found rest else rest)
          ≡ ((out && moved link found t) || has_link t rest)
    first false found = refl
    first true none = refl
    first true (some n) = chosen _ n

-- What the loop over the properties has found.
pub record Needed (d next : SchemaDescriptor) (rename : Map Str Str) (names : List Str)
    (c : Changes) : Type 0 where
  pub drops :
      (name : Str)
      → contains_str name c.drop ≡ any (λ old. str_eq old name && needs_drop next rename old) names
  pub casts : (t : Str × PropertyType) → has_cast t c.cast ≡ any (needs_cast d next rename t) names

pub expected_changes-Needed :
    (d next : SchemaDescriptor) (rename : Map Str Str) (names : List Str) (c : Changes)
    → expected_changes d next rename names ≡ ok c
    → Needed d next rename names c
unfolding expected_changes has_cast needs_cast needs_drop differs
expected_changes-Needed d next rename [] c h =
    subst (Needed d next rename []) (ok-eq _ _ h)
      (record { drops = λ name. refl; casts = λ t. refl })
expected_changes-Needed d next rename (old ∷ names) c h =
    by_kept (declares next.properties (mapped rename old)) refl
      (expected_changes-Needed d next rename names) h
  where
    cast_first :
        (previous replacement : Option PropertyType) (t : Str × PropertyType) (later : Changes)
        → has_cast t (casting (mapped rename old) previous replacement later).cast
          ≡ (differs (mapped rename old) previous replacement t || has_cast t later.cast)
    cast_first none none t later = refl
    cast_first none (some r) t later = refl
    cast_first (some p) none t later = refl
    cast_first (some p) (some r) t later = chosen (type_eq p r)
      where
        chosen :
            (b : Bool)
            → has_cast t
                (if b
                  then later
                  else record later { cast = (mapped rename old, r) ∷ later.cast }).cast
              ≡ ((not b && cast_eq (mapped rename old, r) t) || has_cast t later.cast)
        chosen true = refl
        chosen false = refl

    same_drop :
        (previous replacement : Option PropertyType) (later : Changes)
        → (casting (mapped rename old) previous replacement later).drop ≡ later.drop
    same_drop none none later = refl
    same_drop none (some r) later = refl
    same_drop (some p) none later = refl
    same_drop (some p) (some r) later = chosen (type_eq p r)
      where
        chosen :
            (b : Bool)
            → (if b
                then later
                else record later { cast = (mapped rename old, r) ∷ later.cast }).drop
              ≡ later.drop
        chosen true = refl
        chosen false = refl

    by_kept :
        (kept : Bool)
        → declares next.properties (mapped rename old) ≡ kept
        → ((later : Changes)
            → expected_changes d next rename names ≡ ok later
            → Needed d next rename names later)
        → (if not kept
            then (if contains_key old rename
                then err rename_lost
                else (expected_changes d next rename names >>= λ later. ok (dropping old later)))
            else (expected_changes d next rename names >>= λ later. ok (
                casting
                  (mapped rename old)
                  (property_type d old)
                  (property_type next (mapped rename old))
                  later)))
          ≡ ok c
        → Needed d next rename (old ∷ names) c
    by_kept true is_kept needed e =
        let (later, found, last) = >>=-eq-ok (expected_changes d next rename names) _ e in
        let n = needed later found in
        subst (Needed d next rename (old ∷ names)) (ok-eq _ _ last) (record {
          drops = λ name.
              ap (contains_str name)
                (same_drop (property_type d old) (property_type next (mapped rename old)) later)
              ∙ n.drops name
              ∙ ground arith;
          casts = λ t.
              cast_first (property_type d old) (property_type next (mapped rename old)) t later
              ∙ ap
                  (λ b.
                    differs (mapped rename old) (property_type d old)
                      (property_type next (mapped rename old)) t
                    || b)
                  (n.casts t)
              ∙ ground arith;
        })
    by_kept false is_kept needed e =
        let (unnamed, rest) = else-ok (contains_key old rename) rename_lost _ e in
        let (later, found, last) = >>=-eq-ok (expected_changes d next rename names) _ rest in
        let n = needed later found in
        subst (Needed d next rename (old ∷ names)) (ok-eq _ _ last) (record {
          drops = λ name. ap (λ b. str_eq old name || b) (n.drops name) ∙ ground arith;
          casts = λ t. n.casts t ∙ ground arith;
        })
