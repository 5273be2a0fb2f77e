-- ===== src/Store/Loads/Withheld.antt =====
-- What a load never gives away.
use mikura.Common.{
  ℕ, ◌≡◌, refl, sym, ap, subst, ◌∙◌, Bool, true, false, not, ◌&&◌, ◌||◌, Option, none, some, List,
  [], ◌∷◌, any, ltb, ◌==◌, if◌then◌else◌, ok, ok_or, >>=-eq-ok, ok-eq, else-ok, inl, inr, ◌⊎◌,
  if-true,
}
use mikura.Common.Text.{Str}
use mikura.Common.Maps.{get, contains, str_key, pair_key}
use mikura.Errors.{identity_unknown, version_unknown, version_past}
use mikura.Record.{ObjectRecord}
use mikura.Acl.{PropertyAcl, object_visible}
use mikura.Acl.View.{get-omit_denied}
use mikura.Schema.Descriptor.{SchemaDescriptor, effective_version}
use mikura.Schema.Check.Declared.{guard-ok}
use mikura.Store.{identity_key, View, find_live}
use mikura.Store.Schemas.{rows_or_none}
use mikura.Store.Loads.{
  or_version, last_row, live_schema_hidden, unschematized_schema_view, at_version, view_under,
  has_own_view, is_current, apply_schema_view, shown, redacted, loaded, require_known_namespace,
  load_in_view, load_stored, load_at_schema,
}

at_version-kind :
    (history : List SchemaDescriptor) (current target : ℕ) (r s : ObjectRecord)
    → at_version history current target r ≡ ok s
    → s.kind ≡ r.kind
unfolding at_version
at_version-kind history current target r s e =
    let (at_least, rest) = else-ok (target == 0) version_unknown _ e in
    let (at_most, rest) = else-ok (ltb current target) version_past _ rest in
    let (known, rest) =
      else-ok (not (any (λ row. effective_version row == target) history)) version_unknown _ rest in
    sym (ap (λ (t : ObjectRecord). t.kind) (ok-eq _ _ rest))

unschematized-kind :
    (r s : ObjectRecord) (as_of : Option ℕ)
    → unschematized_schema_view r as_of ≡ ok s
    → s.kind ≡ r.kind
unfolding unschematized_schema_view
unschematized-kind r s as_of e = sym (
    ap (λ (t : ObjectRecord). t.kind)
      (ok-eq _ _ (else-ok (not (or_version 1 as_of == 1)) version_unknown _ e).1))

view_under-kind :
    (history : List SchemaDescriptor) (r s : ObjectRecord) (as_of : Option ℕ)
    → view_under history r as_of ≡ ok s
    → s.kind ≡ r.kind
unfolding view_under
view_under-kind [] r s as_of e = unschematized-kind r s as_of e
view_under-kind (row ∷ rows) r s as_of e =
    at_version-kind (row ∷ rows) (effective_version (last_row row rows))
      (or_version (effective_version (last_row row rows)) as_of) r s e

-- A projection keeps the kind of its record.
apply_schema_view-kind :
    (r s : ObjectRecord) (as_of : Option ℕ) (v : View)
    → apply_schema_view r as_of v ≡ ok s
    → s.kind ≡ r.kind
unfolding apply_schema_view
apply_schema_view-kind r s as_of v e =
    chosen (has_own_view r.kind) (is_current as_of && live_schema_hidden r.namespace r.kind v) e
  where
    chosen :
        (own plain : Bool)
        → (if own
            then ok r
            else if plain
            then unschematized_schema_view r as_of
            else view_under (rows_or_none (get (r.namespace, r.kind) v.schema_history)) r as_of)
          ≡ ok s
        → s.kind ≡ r.kind
    chosen true plain h = sym (ap (λ (t : ObjectRecord). t.kind) (ok-eq _ _ h))
    chosen false true h = unschematized-kind r s as_of h
    chosen false false h = view_under-kind _ r s as_of h

-- A record that a request may be given of an identity.
pub record Withholds (acl : PropertyAcl) (kind key : Str) (r : ObjectRecord) : Type 0 where
  pub kind_open : contains kind acl.hide_kinds ≡ false
  pub identity_open : contains (kind, key) acl.hide_identities ≡ false
  pub omitted : (p : Str) → contains (kind, p) acl.denied ≡ true → get p r.props ≡ none

object_visible-open :
    (acl : PropertyAcl) (kind key : Str) (prop : Str → Option Str)
    → object_visible acl kind key prop ≡ true
    → (contains kind acl.hide_kinds ≡ false) × (contains (kind, key) acl.hide_identities ≡ false)
unfolding object_visible
object_visible-open acl kind key prop h =
    both (contains kind acl.hide_kinds) (contains (kind, key) acl.hide_identities) _ h
  where
    both : (a b c : Bool) → (if a || b then false else c) ≡ true → (a ≡ false) × (b ≡ false)
    both true b c e = cc
    both false true c e = cc
    both false false c e = (refl, refl)

shown-Withholds :
    (acl : PropertyAcl) (kind key : Str) (r s : ObjectRecord)
    → r.kind ≡ kind
    → shown acl kind key r ≡ ok s
    → Withholds acl kind key s
unfolding shown
shown-Withholds acl kind key r s same e =
    let (visible, rest) =
      guard-ok (object_visible acl kind key (λ p. get p r.props)) identity_unknown _ e in
    let (kind_open, identity_open) = object_visible-open acl kind key _ visible in
    subst (Withholds acl kind key) (ok-eq _ _ rest) (record {
      kind_open = kind_open;
      identity_open = identity_open;
      omitted = λ p denied.
          get-omit_denied acl r.kind p r.props
          ∙ if-true _ (ap (λ k. contains (k, p) acl.denied) same ∙ denied);
    })

-- A record that load_in_view or load_at_schema gives to a request is of a kind and an identity that
-- the request's restriction does not hide, and it has no property that the restriction denies, at
-- whichever version of its descriptor it is read.
pub load_in_view-Withholds :
    (namespace kind key : Str) (acl : PropertyAcl) (as_of : ℕ) (v : View) (r : ObjectRecord)
    → (load_in_view namespace kind key acl v ≡ ok r)
      ⊎ (load_at_schema namespace kind key acl as_of v ≡ ok r)
    → Withholds acl kind key r
unfolding load_in_view load_at_schema load_stored
load_in_view-Withholds namespace kind key acl as_of v r (inl e) =
    let (known, here, rest) = >>=-eq-ok (require_known_namespace namespace v) _ e in
    let (row, found, rest) =
      >>=-eq-ok (ok_or (find_live known kind key v) identity_unknown) _ rest in
    let (viewed, view, last) =
      >>=-eq-ok (apply_schema_view (loaded known kind key (redacted acl kind row)) none v) _ rest in
    shown-Withholds acl kind key viewed r (apply_schema_view-kind _ viewed none v view) last
load_in_view-Withholds namespace kind key acl as_of v r (inr e) =
    let (stored, load, rest) = >>=-eq-ok (load_stored namespace kind key v) _ e in
    let (viewed, view, last) = >>=-eq-ok (apply_schema_view stored (some as_of) v) _ rest in
    let (known, here, rest) = >>=-eq-ok (require_known_namespace namespace v) _ load in
    let (row, found, made) =
      >>=-eq-ok (ok_or (find_live known kind key v) identity_unknown) _ rest in
    shown-Withholds acl kind key viewed r
      (apply_schema_view-kind stored viewed (some as_of) v view
        ∙ sym (ap (λ (t : ObjectRecord). t.kind) (ok-eq _ _ made)))
      last
