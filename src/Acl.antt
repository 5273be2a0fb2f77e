-- ===== src/Acl.antt =====
-- src/acl.rs: the restriction document of a request. `denied`, `hide_kinds` and `hide_identities` are
-- hash sets, here lists with no element twice; `row_filters` maps a kind to its terms, and a term maps
-- a property to its set of allowed values. A method on `&mut self` returns the document with its
-- result, since it may change the document and fail.
pub mod Bounds
pub mod View
pub mod Sorted
use mikura.Common.{ℕ, ◌+◌, Bool, true, false, not, Option, none, some, List, [], ◌∷◌, ◌++◌, length}
use mikura.Common.{
  ltb, leb, if◌then◌else◌, ◌&&◌, ◌||◌, Result, ok, err, ◌>>=◌, ◌>>◌, guard, all, any, retain,
}
use mikura.Common.Text.{Str, str_eq}
use mikura.Common.Maps.{Map, get, insert, contains_key, contains, add, str_key, pair_key}

abbrev pub hide_identities_bound : ℕ
hide_identities_bound = 4096

abbrev pub hide_kinds_bound : ℕ
hide_kinds_bound = 256

abbrev pub row_filter_kinds_bound : ℕ
row_filter_kinds_bound = 256

abbrev pub row_filter_terms_bound : ℕ
row_filter_terms_bound = 16

abbrev pub row_filter_values_bound : ℕ
row_filter_values_bound = 4096

-- The texts of `AclError::Malformed`.
pub data Malformed : Type 0 where
  empty_token row_filter_on_denied duplicate_deny hide_kinds_exceeded duplicate_hide_kind :
      Malformed
  hide_identities_exceeded duplicate_hide_identity row_filter_values_exceeded : Malformed
  duplicate_row_filter_value row_filter_without_values row_filter_kinds_exceeded : Malformed
  duplicate_row_filter row_filter_terms_exceeded : Malformed

pub data AclError : Type 0 where
  denied_error : Str → Str → AclError
  invisible : Str → Str → AclError
  malformed : Malformed → AclError

abbrev pub Terms : Type 0
Terms = Map Str (List Str)

pub record PropertyAcl : Type 0 where
  pub denied : List (Str × Str)
  pub hide_kinds : List Str
  pub hide_identities : List (Str × Str)
  pub row_filters : Map Str Terms

abbrev pub Outcome : Type 0
Outcome = PropertyAcl × Result AclError (Unit {0})

abbrev pub allow_all : PropertyAcl
allow_all = record { denied = []; hide_kinds = []; hide_identities = []; row_filters = [] }

unfoldable pub deny_property : Str → Str → PropertyAcl
deny_property kind property = record allow_all { denied = (kind, property) ∷ [] }

abbrev pub require_token : Str → Result AclError (Unit {0})
require_token [] = err (malformed empty_token)
require_token (c ∷ token) = ok tt

unfoldable pub filters_on : PropertyAcl → Str → Str → Bool
filters_on acl kind property = elim (get kind acl.row_filters) [
  | none ↦ false
  | some terms ↦ contains_key property terms
]

-- `if let Err(e) = check { return Err(e) }`, with the document as it is.
abbrev pub ensure : Result AclError (Unit {0}) → PropertyAcl → Outcome → Outcome
ensure (ok u) acl rest = rest
ensure (err e) acl rest = (acl, err e)

unfoldable pub insert_deny : PropertyAcl → Str → Str → Outcome
unfolding filters_on
insert_deny acl kind property = ensure (require_token kind) acl (
    ensure (require_token property) acl (
      if filters_on acl kind property
      then (acl, err (malformed row_filter_on_denied))
      else (let (denied, added) = add (kind, property) acl.denied in
          (record acl { denied = denied }, guard added (malformed duplicate_deny)))))

unfoldable pub insert_hide_kind : PropertyAcl → Str → Outcome
insert_hide_kind acl kind = ensure (require_token kind) acl (
    if leb hide_kinds_bound (length acl.hide_kinds) && not (contains kind acl.hide_kinds)
    then (acl, err (malformed hide_kinds_exceeded))
    else (let (kinds, added) = add kind acl.hide_kinds in
        (record acl { hide_kinds = kinds }, guard added (malformed duplicate_hide_kind))))

unfoldable pub insert_hide_identity : PropertyAcl → Str → Str → Outcome
insert_hide_identity acl kind key = ensure (require_token kind) acl (
    ensure (require_token key) acl (
      if leb hide_identities_bound (length acl.hide_identities)
        && not (contains (kind, key) acl.hide_identities)
      then (acl, err (malformed hide_identities_exceeded))
      else (let (ids, added) = add (kind, key) acl.hide_identities in
          (record acl { hide_identities = ids }, guard added (malformed duplicate_hide_identity)))))

unfoldable pub check : PropertyAcl → Str → Str → Result AclError (Unit {0})
check acl kind property =
    if contains (kind, property) acl.denied then err (denied_error kind property) else ok tt

-- The loop over the values of a term.
unfoldable pub collect_values : List Str → List Str → Result AclError (List Str)
collect_values allowed [] = ok allowed
collect_values allowed (value ∷ values) = do
  require_token value
  guard (ltb (length allowed) row_filter_values_bound) (malformed row_filter_values_exceeded)
  guard (not (contains value allowed)) (malformed duplicate_row_filter_value)
  collect_values (allowed ++ (value ∷ [])) values

abbrev is_err {ℓ} : {E A : Type ℓ} → Result E A → Bool
is_err (ok a) = false
is_err (err e) = true

abbrev terms_or_default : Option Terms → Terms
terms_or_default none = []
terms_or_default (some terms) = terms

-- The end of `insert_row_filter`, from `self.row_filters.entry(..).or_default()` on.
unfoldable pub insert_term : PropertyAcl → Str → Str → List Str → Outcome
insert_term acl kind property allowed =
    let terms : Terms = terms_or_default (get kind acl.row_filters) in
    let entered : PropertyAcl = record acl { row_filters = insert kind terms acl.row_filters } in
    if contains_key property terms
    then (entered, err (malformed duplicate_row_filter))
    else if leb row_filter_terms_bound (length terms)
    then (entered, err (malformed row_filter_terms_exceeded))
    else (
      record acl { row_filters = insert kind (insert property allowed terms) acl.row_filters },
      ok tt,
    )

unfoldable pub insert_row_filter : PropertyAcl → Str → Str → List Str → Outcome
unfolding insert_term
insert_row_filter acl kind property values = ensure (require_token kind) acl (
    ensure (require_token property) acl (
      if is_err (check acl kind property)
      then (acl, err (malformed row_filter_on_denied))
      else elim (collect_values [] values) [
        | err e ↦ (acl, err e)
        | ok [] ↦ (acl, err (malformed row_filter_without_values))
        | ok (value ∷ rest) ↦
            if not (contains_key kind acl.row_filters)
              && leb row_filter_kinds_bound (length acl.row_filters)
            then (acl, err (malformed row_filter_kinds_exceeded))
            else insert_term acl kind property (value ∷ rest)
      ]))

-- One term of a row filter: the stored value is one of the allowed.
abbrev pub passes : (Str → Option Str) → Str × List Str → Bool
passes prop (property, allowed) = elim (prop property) [
  | none ↦ false
  | some value ↦ contains value allowed
]

unfoldable pub object_visible : PropertyAcl → Str → Str → (Str → Option Str) → Bool
object_visible acl kind key prop =
    if contains kind acl.hide_kinds || contains (kind, key) acl.hide_identities
    then false
    else elim (get kind acl.row_filters) [ none ↦ true | some terms ↦ all (passes prop) terms ]

unfoldable pub require_visible :
    PropertyAcl → Str → Str → (Str → Option Str) → Result AclError (Unit {0})
require_visible acl kind key prop =
    if object_visible acl kind key prop then ok tt else err (invisible kind key)

abbrev is_empty {ℓ} : {A : Type ℓ} → List A → Bool
is_empty [] = true
is_empty (x ∷ xs) = false

unfoldable pub hides_objects : PropertyAcl → Bool
hides_objects acl =
    not (is_empty acl.hide_kinds)
    || not (is_empty acl.hide_identities)
    || not (is_empty acl.row_filters)

unfoldable pub hides_in_kind : PropertyAcl → Str → Bool
hides_in_kind acl kind =
    contains kind acl.hide_kinds
    || contains_key kind acl.row_filters
    || any (λ (id : Str × Str). str_eq id.0 kind) acl.hide_identities

unfoldable pub omit_denied : PropertyAcl → Str → Map Str Str → Map Str Str
omit_denied acl kind props =
    if is_empty acl.denied
    then props
    else retain (λ (p : Str × Str). not (is_err (check acl kind p.0))) props
