-- ===== src/Acl/View.antt =====
-- What the insertions of src/acl.rs do to the view of a request, and what a denied property hides.
use mikura.Common.{
  ◌≡◌, refl, sym, ◌∙◌, arith, Bool, true, false, not, Option, none, List, [], ◌∷◌, ◌++◌,
}
use mikura.Common.{
  all, retain, if◌then◌else◌, ◌&&◌, Result, ok, err, Bool-cases, and-true, and-false, inl, inr, ◌⊎◌,
  leb, length, append_assoc, append-nil,
}
use mikura.Common.Text.{Str, str_eq, str_eq_iff}
use mikura.Common.Maps.{
  Map, get, insert, contains_key, contains, get-insert, contains-snoc, add-old, add-new, str_key,
  pair_key, contains_key-empty,
}
use mikura.Acl.{
  PropertyAcl, Terms, Outcome, AclError, insert_deny, insert_hide_kind, insert_hide_identity,
  malformed, insert_row_filter, insert_term, collect_values, filters_on, check, require_token,
  ensure, is_err, terms_or_default, object_visible, is_empty, omit_denied, passes,
  row_filter_without_values, row_filter_kinds_exceeded,
}
use mikura.Acl.Bounds.{Insertion, deny, hide_kind, hide_identity, row_filter, apply}

-- Does an insertion leave the identity in view, on its own?
unfoldable pub admits : Insertion → Str → Str → (Str → Option Str) → Bool
admits (deny kind property) k key prop = true
admits (hide_kind kind) k key prop = not (str_eq kind k)
admits (hide_identity kind id) k key prop = not (str_eq kind k && str_eq id key)
admits (row_filter kind property values) k key prop =
    if str_eq kind k then passes prop (property, values) else true

-- The result of an insertion whose tokens are not empty.
ensured :
    (r : Result AclError (Unit {0})) (acl : PropertyAcl) (out : Outcome)
    → (ensure r acl out).1 ≡ ok tt
    → (ensure r acl out ≡ out) × (out.1 ≡ ok tt)
ensured (ok u) acl out h = (refl, h)
ensured (err e) acl out h = cc

module _ (k key : Str) (prop : Str → Option Str) where
  -- The goal for one insertion with the outcome `out`.
  abbrev Shows : PropertyAcl → Outcome → Bool → Type 0
  Shows acl out b =
      out.1 ≡ ok tt → object_visible out.0 k key prop ≡ (object_visible acl k key prop && b)

  Shows-ensure :
      (r : Result AclError (Unit {0})) (acl : PropertyAcl) (out : Outcome) (b : Bool)
      → Shows acl out b
      → Shows acl (ensure r acl out) b
  Shows-ensure (ok u) acl out b s = s
  Shows-ensure (err e) acl out b s = λ h. cc

  Shows-deny :
      (acl : PropertyAcl) (kind property : Str) → Shows acl (insert_deny acl kind property) true
  unfolding insert_deny object_visible
  Shows-deny acl kind property = Shows-ensure (require_token kind) acl _ true (
      Shows-ensure (require_token property) acl _ true
        (elim (Bool-cases (filters_on acl kind property)) [
          | inl e ↦ rw e (λ h. cc)
          | inr e ↦ rw e (λ h. sym (and-true _))
        ]))

  Shows-hide_kind :
      (acl : PropertyAcl) (kind : Str) → Shows acl (insert_hide_kind acl kind) (not (str_eq kind k))
  unfolding insert_hide_kind object_visible
  Shows-hide_kind acl kind =
      Shows-ensure (require_token kind) acl _ _ (elim (Bool-cases (contains kind acl.hide_kinds)) [
        | inl old ↦ rw (add-old kind acl.hide_kinds old) (rw old (rw and-false (λ h. cc)))
        | inr new ↦
            rw (add-new kind acl.hide_kinds new)
              (rw new (λ h. ground (arith, h, contains-snoc kind k acl.hide_kinds)))
      ])

  Shows-hide_identity :
      (acl : PropertyAcl) (kind id : Str)
      → Shows acl (insert_hide_identity acl kind id) (not (str_eq kind k && str_eq id key))
  unfolding insert_hide_identity object_visible
  Shows-hide_identity acl kind id = Shows-ensure (require_token kind) acl _ _ (
      Shows-ensure (require_token id) acl _ _
        (elim (Bool-cases (contains (kind, id) acl.hide_identities)) [
          | inl old ↦
              rw (add-old (kind, id) acl.hide_identities old) (rw old (rw and-false (λ h. cc)))
          | inr new ↦ rw (add-new (kind, id) acl.hide_identities new) (
              rw new
                (λ h. ground (arith, h, contains-snoc (kind, id) (k, key) acl.hide_identities)))
        ]))

  all-insert :
      (property : Str) (allowed : List Str) (terms : Terms)
      → contains_key property terms ≡ false
      → all (passes prop) (insert property allowed terms)
        ≡ (all (passes prop) terms && passes prop (property, allowed))
  unfolding insert contains_key
  all-insert property allowed [] h = ground arith
  all-insert property allowed ((p, values) ∷ terms) h =
      ground (arith, all-insert property allowed terms)

  collect_values-eq :
      (allowed values out : List Str)
      → collect_values allowed values ≡ ok out
      → out ≡ allowed ++ values
  unfolding collect_values
  collect_values-eq allowed [] out h = rw append-nil (cc)
  collect_values-eq allowed ([] ∷ values) out h = cc
  collect_values-eq allowed ((c ∷ v) ∷ values) out h = ground (
    arith,
    collect_values-eq (allowed ++ ((c ∷ v) ∷ [])) values out,
    append_assoc allowed ((c ∷ v) ∷ []) values,
  )

  Shows-term :
      (acl : PropertyAcl) (kind property : Str) (allowed : List Str)
      → Shows acl
          (insert_term acl kind property allowed)
          (if str_eq kind k then passes prop (property, allowed) else true)
  unfolding insert_term object_visible
  Shows-term acl kind property allowed = λ h. ground (
    arith,
    h,
    str_eq_iff kind k,
    contains_key-empty (List Str) property,
    get-insert kind k (insert property allowed (terms_or_default (get kind acl.row_filters)))
        acl.row_filters,
    all-insert property allowed (terms_or_default (get kind acl.row_filters)),
  )

  Shows-row_filter :
      (acl : PropertyAcl) (kind property : Str) (values : List Str)
      → Shows acl
          (insert_row_filter acl kind property values)
          (if str_eq kind k then passes prop (property, values) else true)
  unfolding insert_row_filter
  Shows-row_filter acl kind property values = Shows-ensure (require_token kind) acl _ _ (
      Shows-ensure (require_token property) acl _ _
        (elim (Bool-cases (is_err (check acl kind property))) [
          | inl e ↦ rw e (λ h. cc)
          | inr e ↦ rw e (collected (collect_values [] values) (collect_values-eq [] values))
        ]))
    where
      collected :
          (r : Result AclError (List Str))
          → ((out : List Str) → r ≡ ok out → out ≡ values)
          → Shows acl
              (elim r [
                | err e ↦ (acl, err e)
                | ok [] ↦ (acl, err (malformed row_filter_without_values))
                | ok (value ∷ rest) ↦
                    if not (contains_key kind acl.row_filters) && leb 256 (length acl.row_filters)
                    then (acl, err (malformed row_filter_kinds_exceeded))
                    else insert_term acl kind property (value ∷ rest)
              ])
              (if str_eq kind k then passes prop (property, values) else true)
      collected (err x) e = λ h. cc
      collected (ok []) e = λ h. cc
      collected (ok (value ∷ rest)) e =
          elim (Bool-cases
            (not (contains_key kind acl.row_filters) && leb 256 (length acl.row_filters))) [
              | inl full ↦ rw full (λ h. cc)
              | inr free ↦
                  rw free
                    (rw (← e (value ∷ rest) refl) (Shows-term acl kind property (value ∷ rest)))
            ]

-- After an insertion that succeeds, an identity is in view exactly when it was before and the
-- insertion admits it: a hidden kind or identity goes, and so does a row of a filtered kind whose
-- stored value is missing or not allowed.
pub object_visible-apply :
    (acl : PropertyAcl) (i : Insertion) (k key : Str) (prop : Str → Option Str)
    → (apply acl i).1 ≡ ok tt
    → object_visible (apply acl i).0 k key prop
      ≡ (object_visible acl k key prop && admits i k key prop)
unfolding admits
object_visible-apply acl (deny kind property) k key prop = Shows-deny k key prop acl kind property
object_visible-apply acl (hide_kind kind) k key prop = Shows-hide_kind k key prop acl kind
object_visible-apply acl (hide_identity kind id) k key prop =
    Shows-hide_identity k key prop acl kind id
object_visible-apply acl (row_filter kind property values) k key prop =
    Shows-row_filter k key prop acl kind property values

get-retain :
    (f : Str → Bool) (p : Str) (props : Map Str Str)
    → get p (retain (λ (q : Str × Str). f q.0) props) ≡ (if f p then get p props else none)
unfolding get
get-retain f p [] = ground arith
get-retain f p ((q, v) ∷ props) = elim (Bool-cases (f q)) [
  | inl t ↦ rw t (ground (arith, str_eq_iff q p, get-retain f p props))
  | inr t ↦ rw t (ground (arith, str_eq_iff q p, get-retain f p props))
]

-- A denied property is absent from what a request sees, and every other property is as it was
-- stored.
pub get-omit_denied :
    (acl : PropertyAcl) (kind p : Str) (props : Map Str Str)
    → get p (omit_denied acl kind props)
      ≡ (if contains (kind, p) acl.denied then none else get p props)
unfolding omit_denied
get-omit_denied acl kind p props = elim (empty-or acl.denied) [
  | inl e ↦ rw e (unfold contains in refl)
  | inr e ↦
      rw e
        (get-retain (λ q. not (is_err (check acl kind q))) p props ∙ unfold check in ground arith)
]
  where
    empty-or : (d : List (Str × Str)) → (d ≡ []) ⊎ (is_empty d ≡ false)
    empty-or [] = inl refl
    empty-or (x ∷ d) = inr refl
