-- ===== src/Acl/Bounds.antt =====
-- The documents that the insertions of src/acl.rs build: their bounds, and what a failure leaves.
use mikura.Common.{
  ◌≤◌, ◌<◌, ◌≡◌, refl, sym, ◌∙◌, arith, true, false, not, Option, none, some, List, [], ◌∷◌, ◌++◌,
}
use mikura.Common.{
  length, length-append, All, leb, if◌then◌else◌, ◌&&◌, Result, ok, err, Bool-cases, and-false,
  and-true, inl, inr,
}
use mikura.Common.Text.{Str, str_eq_iff}
use mikura.Common.Maps.{
  get, insert, contains_key, contains, get-insert, contains-snoc, length-insert, All-insert,
  All-get, insert-same, get-contains_key, contains_key-some, contains_key-insert,
  contains_key-empty, add-old, add-new, str_key, pair_key, pair_eq_iff,
}
use mikura.Acl.{
  PropertyAcl, Terms, Outcome, AclError, allow_all, insert_deny, insert_hide_kind,
  insert_hide_identity, insert_row_filter, insert_term, collect_values, filters_on, check,
  require_token, ensure, terms_or_default, is_err, row_filter_without_values,
  row_filter_kinds_exceeded, malformed, hide_kinds_exceeded, hide_identities_exceeded,
}

abbrev ValuesBounded : List Str → Type 0
ValuesBounded values = (1 ≤ length values) × (length values ≤ 4096)

abbrev TermsBounded : Terms → Type 0
TermsBounded terms = (length terms ≤ 16) × All (λ (t : Str × List Str). ValuesBounded t.1) terms

-- The bounds of the document, and no row filter on a denied property.
pub record IsValid (acl : PropertyAcl) : Type 0 where
  pub kinds : length acl.hide_kinds ≤ 256
  pub identities : length acl.hide_identities ≤ 4096
  pub filters : length acl.row_filters ≤ 256
  pub terms : All (λ (t : Str × Terms). TermsBounded t.1) acl.row_filters
  pub apart :
      (kind property : Str)
      → contains (kind, property) acl.denied ≡ true
      → filters_on acl kind property ≡ false

collect_values-bounded :
    (allowed values out : List Str)
    → length allowed ≤ 4096
    → collect_values allowed values ≡ ok out
    → length out ≤ 4096
unfolding collect_values
collect_values-bounded allowed [] out h e = ground arith
collect_values-bounded allowed ([] ∷ values) out h e = cc
collect_values-bounded allowed ((c ∷ v) ∷ values) out h e = ground (
  arith,
  collect_values-bounded (allowed ++ ((c ∷ v) ∷ [])) values out,
  length-append allowed ((c ∷ v) ∷ []),
)

-- One insertion.
pub data Insertion : Type 0 where
  deny hide_identity : Str → Str → Insertion
  hide_kind : Str → Insertion
  row_filter : Str → Str → List Str → Insertion

abbrev pub apply : PropertyAcl → Insertion → Outcome
apply acl (deny kind property) = insert_deny acl kind property
apply acl (hide_identity kind key) = insert_hide_identity acl kind key
apply acl (hide_kind kind) = insert_hide_kind acl kind
apply acl (row_filter kind property values) = insert_row_filter acl kind property values

-- What an insertion owes: the document stays valid, and an error leaves it as it was.
record Owes (acl : PropertyAcl) (out : Outcome) : Type 0 where
  valid : IsValid acl → IsValid out.0
  kept : (e : AclError) → out.1 ≡ err e → out.0 ≡ acl

same_acl : (acl : PropertyAcl) (r : Result AclError (Unit {0})) → Owes acl (acl, r)
same_acl acl r = record { valid = λ v. v; kept = λ e h. refl }

Owes-ensure :
    (r : Result AclError (Unit {0})) (acl : PropertyAcl) (out : Outcome)
    → Owes acl out
    → Owes acl (ensure r acl out)
Owes-ensure (ok u) acl out h = h
Owes-ensure (err e) acl out h = same_acl acl (err e)

Owes-deny : (acl : PropertyAcl) (kind property : Str) → Owes acl (insert_deny acl kind property)
unfolding insert_deny
Owes-deny acl kind property = Owes-ensure (require_token kind) acl _ (
    Owes-ensure (require_token property) acl _ (elim (Bool-cases (filters_on acl kind property)) [
      | inl e ↦ rw e (same_acl acl _)
      | inr e ↦ rw e (elim (Bool-cases (contains (kind, property) acl.denied)) [
        | inl old ↦ rw (add-old (kind, property) acl.denied old) (same_acl acl _)
        | inr new ↦ rw (add-new (kind, property) acl.denied new) (added e)
      ])
    ]))
  where
    added :
        filters_on acl kind property ≡ false
        → Owes acl (record acl { denied = acl.denied ++ ((kind, property) ∷ []) }, ok tt)
    added e = record {
      valid = λ v. record {
        kinds = v.kinds;
        identities = v.identities;
        filters = v.filters;
        terms = v.terms;
        apart = λ k p h. ground (
          arith,
          contains-snoc (kind, property) (k, p) acl.denied,
          pair_eq_iff (kind, property) (k, p),
          v.apart k p,
        );
      };
      kept = λ x h. cc;
    }

Owes-hide_kind : (acl : PropertyAcl) (kind : Str) → Owes acl (insert_hide_kind acl kind)
unfolding insert_hide_kind filters_on
Owes-hide_kind acl kind =
    Owes-ensure (require_token kind) acl _ (elim (Bool-cases (contains kind acl.hide_kinds)) [
      | inl old ↦ rw (add-old kind acl.hide_kinds old) (rw old (rw and-false (same_acl acl _)))
      | inr new ↦ rw (add-new kind acl.hide_kinds new) (rw new (rw and-true (room new)))
    ])
  where
    room :
        contains kind acl.hide_kinds ≡ false
        → Owes acl (
            if leb 256 (length acl.hide_kinds)
            then (acl, err (malformed hide_kinds_exceeded))
            else (record acl { hide_kinds = acl.hide_kinds ++ (kind ∷ []) }, ok tt))
    room new = elim (Bool-cases (leb 256 (length acl.hide_kinds))) [
      | inl full ↦ rw full (same_acl acl _)
      | inr free ↦ rw free (record {
        valid = λ v. record {
          kinds = ground (arith, length-append acl.hide_kinds (kind ∷ []));
          identities = v.identities;
          filters = v.filters;
          terms = v.terms;
          apart = v.apart;
        };
        kept = λ x h. cc;
      })
    ]

Owes-hide_identity :
    (acl : PropertyAcl) (kind key : Str) → Owes acl (insert_hide_identity acl kind key)
unfolding insert_hide_identity filters_on
Owes-hide_identity acl kind key = Owes-ensure (require_token kind) acl _ (
    Owes-ensure (require_token key) acl _
      (elim (Bool-cases (contains (kind, key) acl.hide_identities)) [
        | inl old ↦
            rw (add-old (kind, key) acl.hide_identities old)
              (rw old (rw and-false (same_acl acl _)))
        | inr new ↦ rw (add-new (kind, key) acl.hide_identities new) (rw new (rw and-true room))
      ]))
  where
    room : Owes acl (
        if leb 4096 (length acl.hide_identities)
        then (acl, err (malformed hide_identities_exceeded))
        else (record acl { hide_identities = acl.hide_identities ++ ((kind, key) ∷ []) }, ok tt))
    room = elim (Bool-cases (leb 4096 (length acl.hide_identities))) [
      | inl full ↦ rw full (same_acl acl _)
      | inr free ↦ rw free (record {
        valid = λ v. record {
          kinds = v.kinds;
          identities = ground (arith, length-append acl.hide_identities ((kind, key) ∷ []));
          filters = v.filters;
          terms = v.terms;
          apart = v.apart;
        };
        kept = λ x h. cc;
      })
    ]

denied_check :
    (acl : PropertyAcl) (kind property : Str)
    → is_err (check acl kind property) ≡ contains (kind, property) acl.denied
unfolding check
denied_check acl kind property = ground arith

-- A new term on a kind whose terms are known.
term-IsValid :
    (acl : PropertyAcl) (kind property : Str) (allowed : List Str) (terms : Terms)
    → contains (kind, property) acl.denied ≡ false
    → ValuesBounded allowed
    → TermsBounded terms
    → terms ≡ terms_or_default (get kind acl.row_filters)
    → length terms < 16
    → length (insert kind (insert property allowed terms) acl.row_filters) ≤ 256
    → IsValid acl
    → IsValid
        (record acl { row_filters = insert kind (insert property allowed terms) acl.row_filters })
unfolding filters_on
term-IsValid acl kind property allowed terms open_pair values bounded e room fits v = record {
  kinds = v.kinds;
  identities = v.identities;
  filters = fits;
  terms = All-insert TermsBounded kind (insert property allowed terms) acl.row_filters v.terms (
    ground (arith, length-insert property allowed terms),
    All-insert ValuesBounded property allowed terms bounded.1 values,
  );
  apart = λ k p h. ground (
    arith,
    get-insert kind k (insert property allowed terms) acl.row_filters,
    contains_key-insert property p allowed terms,
    str_eq_iff kind k,
    str_eq_iff property p,
    v.apart k p h,
    contains_key-empty (List Str) p,
  );
}

Owes-term :
    (acl : PropertyAcl) (kind property : Str) (allowed : List Str)
    → contains (kind, property) acl.denied ≡ false
    → ValuesBounded allowed
    → (contains_key kind acl.row_filters ≡ false → length acl.row_filters < 256)
    → Owes acl (insert_term acl kind property allowed)
unfolding insert_term
Owes-term acl kind property allowed open_pair values room = go (get kind acl.row_filters) refl
  where
    absent : get kind acl.row_filters ≡ none → length acl.row_filters < 256
    absent e = room (get-contains_key kind acl.row_filters e)

    go :
        (found : Option Terms)
        → get kind acl.row_filters ≡ found
        → Owes acl (insert_term acl kind property allowed)
    go none e = rw e (
        rw (contains_key-empty (List Str) property) (record {
          valid = λ v.
              term-IsValid acl kind property allowed [] open_pair values (omega arith, tt)
                (rw e refl) (omega arith)
                (ground (
                  arith,
                  length-insert kind (insert property allowed []) acl.row_filters,
                  absent e,
                ))
                v;
          kept = λ x h. cc;
        }))
    go (some terms) e = rw e (
        rw (insert-same kind terms acl.row_filters e)
          (elim (Bool-cases (contains_key property terms)) [
            | inl old ↦ rw old (same_acl acl _)
            | inr new ↦ rw new (elim (Bool-cases (leb 16 (length terms))) [
              | inl full ↦ rw full (same_acl acl _)
              | inr free ↦ rw free (record {
                valid = λ v.
                    term-IsValid acl kind property allowed terms open_pair values
                      (All-get TermsBounded kind terms acl.row_filters v.terms e) (rw e refl)
                      (ground arith)
                      (ground (
                        arith,
                        length-insert kind (insert property allowed terms) acl.row_filters,
                        contains_key-some kind terms acl.row_filters e,
                        v.filters,
                      ))
                      v;
                kept = λ x h. cc;
              })
            ])
          ]))

Owes-row_filter :
    (acl : PropertyAcl) (kind property : Str) (values : List Str)
    → Owes acl (insert_row_filter acl kind property values)
unfolding insert_row_filter
Owes-row_filter acl kind property values = Owes-ensure (require_token kind) acl _ (
    Owes-ensure (require_token property) acl _
      (elim (Bool-cases (is_err (check acl kind property))) [
        | inl e ↦ rw e (same_acl acl _)
        | inr e ↦
            rw e
              (collected (collect_values [] values) refl (sym (denied_check acl kind property) ∙ e))
      ]))
  where
    collected :
        (r : Result AclError (List Str))
        → collect_values [] values ≡ r
        → contains (kind, property) acl.denied ≡ false
        → Owes acl (elim r [
          | err e ↦ (acl, err e)
          | ok [] ↦ (acl, err (malformed row_filter_without_values))
          | ok (value ∷ rest) ↦
              if not (contains_key kind acl.row_filters) && leb 256 (length acl.row_filters)
              then (acl, err (malformed row_filter_kinds_exceeded))
              else insert_term acl kind property (value ∷ rest)
        ])
    collected (err x) e open_pair = same_acl acl _
    collected (ok []) e open_pair = same_acl acl _
    collected (ok (value ∷ rest)) e open_pair =
        elim (Bool-cases
          (not (contains_key kind acl.row_filters) && leb 256 (length acl.row_filters))) [
            | inl full ↦ rw full (same_acl acl _)
            | inr free ↦ rw free (
                Owes-term acl kind property (value ∷ rest) open_pair
                  (omega arith, collect_values-bounded [] values (value ∷ rest) (omega arith) e)
                  (λ new. ground arith))
          ]

Owes-apply : (acl : PropertyAcl) (i : Insertion) → Owes acl (apply acl i)
Owes-apply acl (deny kind property) = Owes-deny acl kind property
Owes-apply acl (hide_identity kind key) = Owes-hide_identity acl kind key
Owes-apply acl (hide_kind kind) = Owes-hide_kind acl kind
Owes-apply acl (row_filter kind property values) = Owes-row_filter acl kind property values

-- The document after some insertions, those that fail included.
pub build : PropertyAcl → List Insertion → PropertyAcl
build acl [] = acl
build acl (i ∷ is) = build (apply acl i).0 is

build-from : (acl : PropertyAcl) (is : List Insertion) → IsValid acl → IsValid (build acl is)
unfolding build
build-from acl [] v = v
build-from acl (i ∷ is) v = build-from (apply acl i).0 is ((Owes-apply acl i).valid v)

-- Whatever insertions a request makes, failing or not, its document is within every bound and has
-- no row filter on a denied property.
pub build-IsValid : (is : List Insertion) → IsValid (build allow_all is)
unfolding filters_on get
build-IsValid is = build-from allow_all is (record {
  kinds = omega arith;
  identities = omega arith;
  filters = omega arith;
  terms = tt;
  apart = λ k p h. refl;
})

-- An insertion that fails leaves the document as it was.
pub apply-failed :
    (acl : PropertyAcl) (i : Insertion) (e : AclError)
    → (apply acl i).1 ≡ err e
    → (apply acl i).0 ≡ acl
apply-failed acl i e h = (Owes-apply acl i).kept e h
