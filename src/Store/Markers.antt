-- ===== src/Store/Markers.antt =====
-- The marker of a change set in src/store/mod.rs: its properties say which edits the set has.
use mikura.Common.{
  ℕ, zero, suc, ◌≤◌, ◌<◌, ◌≡◌, refl, sym, ap, ◌∙◌, arith, Bool, true, false, ◌&&◌, Option, none,
  some, List, [], ◌∷◌, map, length, ◌==◌, if◌then◌else◌, ==_refl, if-true, if-false,
}
use mikura.Common.Text.{Str, ascii, str_eq, str_eq_iff}
use mikura.Common.Strings.{show_nat, split_once, all_digits, value_from}
use mikura.Common.Splits.{Free, split_once-append}
use mikura.Common.Decimal.{show_nat-digits, show_nat-value}
use mikura.Common.Maps.{get, str_key}
use mikura.Record.{Props}
use mikura.Actions.{Edit, put, hide, kind_of, key_of, is_hide}
use mikura.Store.{
  SetMember, Part, edit_op, edit_kind, edit_key, part_name, part_key, op_text, marker_from,
  marker_props, members_from, marker_members,
}

digits-Free : (s : Str) → all_digits s ≡ true → Free 46 s
digits-Free [] h = tt
digits-Free (b ∷ s) h = (ground arith, digits-Free s (ground arith))

split-part_key : (i : ℕ) (p : Part) → split_once 46 (part_key i p) ≡ some (show_nat i, part_name p)
unfolding part_key
split-part_key i p =
    split_once-append 46 (show_nat i) (part_name p) (digits-Free (show_nat i) (show_nat-digits i))

-- A key names its index and its part.
part_key-parts :
    (i j : ℕ) (p q : Part) → part_key i p ≡ part_key j q → (i ≡ j) × (part_name p ≡ part_name q)
part_key-parts i j p q e =
    let same : (let o : Option (Str × Str) = some (show_nat i, part_name p) in o)
        ≡ some (show_nat j, part_name q) =
      sym (split-part_key i p) ∙ ap (split_once 46) e ∙ split-part_key j q in
    let digits : show_nat i ≡ show_nat j = cc in
    (sym (show_nat-value i) ∙ ap (value_from 0) digits ∙ show_nat-value j, cc)

same_part : Part → Part → Bool
same_part edit_op edit_op = true
same_part edit_kind edit_kind = true
same_part edit_key edit_key = true
same_part _ _ = false

same_part-name : (p q : Part) → part_name p ≡ part_name q → same_part p q ≡ true
unfolding same_part
same_part-name edit_op edit_op e = refl
same_part-name edit_kind edit_kind e = refl
same_part-name edit_key edit_key e = refl
same_part-name edit_op edit_kind e = cc
same_part-name edit_op edit_key e = cc
same_part-name edit_kind edit_op e = cc
same_part-name edit_kind edit_key e = cc
same_part-name edit_key edit_op e = cc
same_part-name edit_key edit_kind e = cc

same_part-eq : (p q : Part) → same_part p q ≡ true → p ≡ q
unfolding same_part
same_part-eq edit_op edit_op e = refl
same_part-eq edit_kind edit_kind e = refl
same_part-eq edit_key edit_key e = refl
same_part-eq edit_op edit_kind e = cc
same_part-eq edit_op edit_key e = cc
same_part-eq edit_kind edit_op e = cc
same_part-eq edit_kind edit_key e = cc
same_part-eq edit_key edit_op e = cc
same_part-eq edit_key edit_kind e = cc

keys_eq : (a b : Bool) → (a ≡ true → b ≡ true) → (b ≡ true → a ≡ true) → a ≡ b
keys_eq true true f g = refl
keys_eq true false f g = sym (f refl)
keys_eq false true f g = g refl
keys_eq false false f g = refl

str_eq-part_key :
    (i j : ℕ) (p q : Part) → str_eq (part_key i p) (part_key j q) ≡ ((i == j) && same_part p q)
str_eq-part_key i j p q =
    keys_eq _ _
      (λ e.
        let (index, name) = part_key-parts i j p q ((str_eq_iff _ _).0 e) in
        ground (arith, same_part-name p q name))
      (λ e.
        let index : i ≡ j = ground arith in
        let part : p ≡ q = same_part-eq p q (ground arith) in
        (str_eq_iff _ _).1 (ap (λ n. part_key n p) index ∙ ap (part_key j) part))

part_of : Part → Edit → Str
part_of edit_op edit = op_text (is_hide edit)
part_of edit_kind edit = kind_of edit
part_of edit_key edit = key_of edit

-- The part of the edit at an index, where the first edit has the index `j`.
nth_part : ℕ → Part → ℕ → List Edit → Option Str
nth_part i p j [] = none
nth_part i p j (edit ∷ edits) = if j == i then some (part_of p edit) else nth_part i p (suc j) edits

get-marker_from :
    (i : ℕ) (p : Part) (j : ℕ) (edits : List Edit)
    → get (part_key i p) (marker_from j edits) ≡ nth_part i p j edits
unfolding marker_from nth_part get same_part part_of
get-marker_from i p j [] = refl
get-marker_from i edit_op j (edit ∷ edits) = ground (
  arith,
  str_eq-part_key j i edit_op edit_op,
  str_eq-part_key j i edit_kind edit_op,
  str_eq-part_key j i edit_key edit_op,
  get-marker_from i edit_op (suc j) edits,
)
get-marker_from i edit_kind j (edit ∷ edits) = ground (
  arith,
  str_eq-part_key j i edit_op edit_kind,
  str_eq-part_key j i edit_kind edit_kind,
  str_eq-part_key j i edit_key edit_kind,
  get-marker_from i edit_kind (suc j) edits,
)
get-marker_from i edit_key j (edit ∷ edits) = ground (
  arith,
  str_eq-part_key j i edit_op edit_key,
  str_eq-part_key j i edit_kind edit_key,
  str_eq-part_key j i edit_key edit_key,
  get-marker_from i edit_key (suc j) edits,
)

-- An edit as a member whose body is still open.
abbrev pub member_of : Edit → SetMember
member_of edit = record {
  hide = is_hide edit;
  kind = kind_of edit;
  key = key_of edit;
  props = none;
}

first_member :
    (edit : Edit) (rest : List SetMember)
    → record {
      hide = str_eq (op_text (is_hide edit)) (ascii "hide");
      kind = kind_of edit;
      key = key_of edit;
      props = none;
    }
        ∷ rest
      ≡ member_of edit ∷ rest
unfolding str_eq
first_member (put kind key props expected) rest = refl
first_member (hide kind key expected) rest = refl

members_from-map :
    (fuel j : ℕ) (edits : List Edit) (props : Props)
    → length edits < fuel
    → ((i : ℕ) (p : Part) → j ≤ i → get (part_key i p) props ≡ nth_part i p j edits)
    → members_from fuel j props ≡ map member_of edits
unfolding members_from nth_part part_of
members_from-map zero j edits props lt h = absurd (omega arith)
members_from-map (suc fuel) j [] props lt h = rw (h j edit_op (omega arith), members_from) refl
members_from-map (suc fuel) j (edit ∷ edits) props lt h =
    let op : get (part_key j edit_op) props ≡ some (op_text (is_hide edit)) =
      h j edit_op (omega arith) ∙ if-true _ (==_refl j) in
    let kind : get (part_key j edit_kind) props ≡ some (kind_of edit) =
      h j edit_kind (omega arith) ∙ if-true _ (==_refl j) in
    let key : get (part_key j edit_key) props ≡ some (key_of edit) =
      h j edit_key (omega arith) ∙ if-true _ (==_refl j) in
    let later =
      members_from-map fuel (suc j) edits props (omega arith)
        (λ i p le. h i p (omega arith) ∙ if-false {b = j == i} _ (ground arith)) in
    rw (op, members_from)
      (rw kind (
        rw key (
          first_member edit (members_from fuel (suc j) props)
          ∙ ap (λ l. member_of edit ∷ l) later)))

-- The members that the marker of a change set is read as are its edits in order, each with its kind
-- of edit, its kind and its key, and without a body.
pub marker_members-marker_props :
    (edits : List Edit) → marker_members (marker_props edits) ≡ map member_of edits
unfolding marker_members marker_props marker_from
marker_members-marker_props edits =
    members_from-map _ 0 edits (marker_from 0 edits) (length_le 0 edits)
      (λ i p le. get-marker_from i p 0 edits)
  where
    length_le : (j : ℕ) (es : List Edit) → length es < suc (length (marker_from j es))
    length_le j [] = omega arith
    length_le j (e ∷ es) = omega (arith, length_le (suc j) es)
