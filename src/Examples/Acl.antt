-- ===== src/Examples/Acl.antt =====
-- Restriction documents.
use mikura.Common.{◌≡◌, refl, ◌&&◌, Option, none, some, List, [], ◌∷◌, ok, err, if◌then◌else◌}
use mikura.Common.Text.{Str, ascii, str_eq}
use mikura.Common.Maps.{get, contains, contains_key, str_key, pair_key}
use mikura.Acl.{
  PropertyAcl, allow_all, deny_property, insert_row_filter, object_visible, omit_denied, check,
  collect_values, malformed, row_filter_on_denied,
}
use mikura.Acl.Bounds.{
  IsValid, build, Insertion, deny, hide_kind, row_filter, apply, build-IsValid, apply-failed,
}
use mikura.Acl.View.{admits, object_visible-apply, get-omit_denied}

-- The second and the last insertion fail.
abbrev insertions : List Insertion
insertions =
    deny (ascii "Shipment") (ascii "amount")
    ∷ row_filter (ascii "Shipment") (ascii "amount") (ascii "10" ∷ [])
    ∷ row_filter (ascii "Shipment") (ascii "region") (ascii "eu" ∷ ascii "us" ∷ [])
    ∷ hide_kind (ascii "")
    ∷ []

build-IsValid_example : IsValid (build allow_all insertions)
build-IsValid_example = build-IsValid insertions

abbrev no_amount : PropertyAcl
no_amount = deny_property (ascii "Shipment") (ascii "amount")

filter_fails :
    (apply no_amount (row_filter (ascii "Shipment") (ascii "amount") (ascii "10" ∷ []))).1
    ≡ err (malformed row_filter_on_denied)
unfolding insert_row_filter check contains deny_property str_eq
filter_fails = refl

apply-failed_example :
    (apply no_amount (row_filter (ascii "Shipment") (ascii "amount") (ascii "10" ∷ []))).0
    ≡ no_amount
apply-failed_example =
    apply-failed no_amount (row_filter (ascii "Shipment") (ascii "amount") (ascii "10" ∷ []))
      (malformed row_filter_on_denied) filter_fails

abbrev by_region : Insertion
by_region = row_filter (ascii "Shipment") (ascii "region") (ascii "eu" ∷ [])

abbrev in_us : Str → Option Str
in_us p = some (ascii "us")

filter_added : (apply no_amount by_region).1 ≡ ok tt
unfolding insert_row_filter check contains deny_property str_eq collect_values get contains_key
filter_added = refl

object_visible-apply_example :
    object_visible (apply no_amount by_region).0 (ascii "Shipment") (ascii "s1") in_us ≡ (
      object_visible no_amount (ascii "Shipment") (ascii "s1") in_us
      && admits by_region (ascii "Shipment") (ascii "s1") in_us)
object_visible-apply_example =
    object_visible-apply no_amount by_region (ascii "Shipment") (ascii "s1") in_us filter_added

get-omit_denied_example :
    get (ascii "amount") (
      omit_denied no_amount
        (ascii "Shipment")
        ((ascii "amount", ascii "10") ∷ (ascii "order", ascii "o1") ∷ []))
    ≡ (if contains (ascii "Shipment", ascii "amount") no_amount.denied
        then none
        else get (ascii "amount") ((ascii "amount", ascii "10") ∷ (ascii "order", ascii "o1") ∷ []))
get-omit_denied_example =
    get-omit_denied no_amount (ascii "Shipment") (ascii "amount")
      ((ascii "amount", ascii "10") ∷ (ascii "order", ascii "o1") ∷ [])
