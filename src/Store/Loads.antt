-- ===== src/Store/Loads.antt =====
-- Loads in src/store/mod.rs: what a request is given of a row, at the current version of its kind's
-- descriptor or at a named one. Denied ids are those of denied names that are interned, so that a
-- property is omitted by its name; a set of them that was computed before is the same set.
pub mod Withheld
use mikura.Common.{
  ℕ, ◌≡◌, refl, sym, ap, subst, ◌∙◌, arith, Bool, true, false, not, ◌&&◌, ◌||◌, Option, none, some,
  List, [], ◌∷◌, ◌++◌, length, any, retain, ltb, leb, ◌==◌, if◌then◌else◌, Result, ok, err, ok_or,
  ◌>>=◌, ◌>>◌, guard, >>=-eq-ok, ok-eq, else-ok, Bool-cases, inl, inr, ◌⊎◌, if-true, if-false,
}
use mikura.Common.Text.{Str, ascii, str_eq, contains_str}
use mikura.Common.Strings.{contains_char}
use mikura.Common.Maps.{Map, get, remove, contains, str_key, pair_key}
use mikura.Errors.{
  Error, namespace_required, namespace_unknown, tenant_invalid, identity_unknown, version_unknown,
  version_past, not_visible,
}
use mikura.Record.{Props, ObjectRecord}
use mikura.Acl.{PropertyAcl, object_visible, omit_denied, require_visible}
use mikura.Acl.View.{get-omit_denied}
use mikura.Actions.{change_set_kind}
use mikura.Overlay.Rows.{overlay_kind, source_kind}
use mikura.Schema.Descriptor.{schema_kind, SchemaDescriptor, effective_version}
use mikura.Schema.Migration
use mikura.Schema.Check.Declared.{guard-ok}
use mikura.Store.{Identity, identity_key, Row, View, find_live}
use mikura.Store.Schemas.{rows_or_none}

unfoldable pub require_namespace : Str → Result Error Str
require_namespace namespace = if length namespace == 0 then err namespace_required else ok namespace

unfoldable pub tenant_namespace : Str → Str → Result Error Str
unfolding require_namespace
tenant_namespace tenant namespace =
    if (length tenant == 0) || contains_char 47 tenant
    then err tenant_invalid
    else (require_namespace namespace >>= λ n. ok (tenant ++ (47 ∷ namespace)))

unfoldable pub require_known_namespace : Str → View → Result Error Str
unfolding require_namespace contains
require_known_namespace namespace v = do
  namespace ← require_namespace namespace
  (if contains namespace v.namespaces then ok namespace else err namespace_unknown)

-- The record that is loaded of a row.
abbrev pub loaded : Str → Str → Str → Row → ObjectRecord
loaded namespace kind key row = record {
  gen = row.gen;
  namespace = namespace;
  kind = kind;
  key = key;
  hidden = row.hidden;
  action_id = row.action_id;
  props = row.props;
  schema_version = if row.schema_version == 0 then 1 else row.schema_version;
}

abbrev pub is_hidden : Option Row → Bool
is_hidden none = false
is_hidden (some row) = row.hidden

unfoldable pub live_schema_hidden : Str → Str → View → Bool
unfolding find_live
live_schema_hidden namespace kind v = is_hidden (find_live namespace schema_kind kind v)

abbrev pub or_version : ℕ → Option ℕ → ℕ
or_version version none = version
or_version version (some as_of) = as_of

unfoldable pub unschematized_schema_view : ObjectRecord → Option ℕ → Result Error ObjectRecord
unschematized_schema_view r as_of =
    if not (or_version 1 as_of == 1)
    then err version_unknown
    else ok (record r { schema_version = 1 })

abbrev pub last_row : SchemaDescriptor → List SchemaDescriptor → SchemaDescriptor
last_row d [] = d
last_row d (row ∷ rows) = last_row row rows

abbrev pub backwards : List SchemaDescriptor → List SchemaDescriptor → List SchemaDescriptor
backwards [] behind = behind
backwards (row ∷ rows) behind = backwards rows (row ∷ behind)

-- From the newest row on, the renames of each that is newer than the target are undone.
unfoldable pub undo_newer : ℕ → List SchemaDescriptor → Props → Props
unfolding Migration.reverse
undo_newer target [] props = props
undo_newer target (row ∷ rows) props =
    let older = undo_newer target rows (Migration.reverse row.migration props) in
    if leb (effective_version row) target then props else older

unfoldable pub drop_undeclared_names : SchemaDescriptor → List Str → Props → Props
unfolding remove
drop_undeclared_names d [] props = props
drop_undeclared_names d (name ∷ names) props =
    drop_undeclared_names d names
      (if contains_str name d.properties then props else remove name props)

unfoldable pub drop_declared : SchemaDescriptor → ℕ → List SchemaDescriptor → Props → Props
unfolding drop_undeclared_names
drop_declared d target [] props = props
drop_declared d target (row ∷ rows) props = drop_declared d target rows (
    if leb (effective_version row) target
    then drop_undeclared_names d row.migration.drop props
    else props)

abbrev pub find_version : ℕ → List SchemaDescriptor → Option SchemaDescriptor
find_version target [] = none
find_version target (row ∷ rows) =
    if effective_version row == target then some row else find_version target rows

abbrev pub project : ℕ → ℕ → List SchemaDescriptor → Option SchemaDescriptor → Props → Props
unfolding drop_declared
project current target history none props = props
project current target history (some d) props =
    if ltb target current
    then retain (λ (p : Str × Str). contains_str p.0 d.properties) props
    else drop_declared d target history props

abbrev pub undone : ℕ → ℕ → List SchemaDescriptor → Props → Props
unfolding undo_newer
undone current target history props =
    if ltb target current then undo_newer target (backwards history []) props else props

unfoldable pub at_version : List SchemaDescriptor → ℕ → ℕ → ObjectRecord → Result Error ObjectRecord
unfolding project undone
at_version history current target r =
    if target == 0
    then err version_unknown
    else if ltb current target
    then err version_past
    else if not (any (λ row. effective_version row == target) history)
    then err version_unknown
    else ok (record r {
      props =
          project current target history (find_version target history)
            (undone current target history r.props);
      schema_version = target;
    })

unfoldable pub view_under :
    List SchemaDescriptor → ObjectRecord → Option ℕ → Result Error ObjectRecord
unfolding unschematized_schema_view at_version
view_under [] r as_of = unschematized_schema_view r as_of
view_under (row ∷ rows) r as_of =
    let current : ℕ = effective_version (last_row row rows) in
    at_version (row ∷ rows) current (or_version current as_of) r

abbrev pub has_own_view : Str → Bool
unfolding str_eq
has_own_view kind =
    str_eq kind schema_kind
    || str_eq kind overlay_kind
    || str_eq kind source_kind
    || str_eq kind change_set_kind

abbrev pub is_current : Option ℕ → Bool
is_current none = true
is_current (some as_of) = false

unfoldable pub apply_schema_view : ObjectRecord → Option ℕ → View → Result Error ObjectRecord
unfolding live_schema_hidden unschematized_schema_view view_under get
apply_schema_view r as_of v =
    if has_own_view r.kind
    then ok r
    else if is_current as_of && live_schema_hidden r.namespace r.kind v
    then unschematized_schema_view r as_of
    else view_under (rows_or_none (get (r.namespace, r.kind) v.schema_history)) r as_of

-- What both kinds of load end with.
unfoldable pub shown : PropertyAcl → Str → Str → ObjectRecord → Result Error ObjectRecord
unfolding object_visible omit_denied get
shown acl kind key r =
    guard (object_visible acl kind key (λ p. get p r.props)) identity_unknown
    >> ok (record r { props = omit_denied acl r.kind r.props })

unfoldable pub redacted : PropertyAcl → Str → Row → Row
unfolding omit_denied
redacted acl kind row = record row { props = omit_denied acl kind row.props }

unfoldable pub load_in_view : Str → Str → Str → PropertyAcl → View → Result Error ObjectRecord
unfolding require_known_namespace find_live apply_schema_view redacted shown
load_in_view namespace kind key acl v = do
  namespace ← require_known_namespace namespace v
  row ← ok_or (find_live namespace kind key v) identity_unknown
  r ← apply_schema_view (loaded namespace kind key (redacted acl kind row)) none v
  shown acl kind key r

unfoldable pub load_stored : Str → Str → Str → View → Result Error ObjectRecord
unfolding require_known_namespace find_live
load_stored namespace kind key v = do
  namespace ← require_known_namespace namespace v
  row ← ok_or (find_live namespace kind key v) identity_unknown
  ok (loaded namespace kind key row)

unfoldable pub load_at_schema : Str → Str → Str → PropertyAcl → ℕ → View → Result Error ObjectRecord
unfolding load_stored apply_schema_view shown
load_at_schema namespace kind key acl as_of v = do
  r ← load_stored namespace kind key v
  r ← apply_schema_view r (some as_of) v
  shown acl kind key r

abbrev pub omitted_from : List SchemaDescriptor → Str → Bool
omitted_from [] property = false
omitted_from (row ∷ rows) property =
    not (contains_str property (last_row row rows).properties)
    && any (λ (d : SchemaDescriptor). contains_str property d.migration.drop) (row ∷ rows)

unfoldable pub omits_current_property : Str → Str → Str → View → Bool
unfolding live_schema_hidden get
omits_current_property namespace kind property v =
    not (live_schema_hidden namespace kind v)
    && omitted_from (rows_or_none (get (namespace, kind) v.schema_history)) property

-- The join maps hold no hidden row.
abbrev pub prop_of : Option Row → Str → Option Str
unfolding get
prop_of none property = none
prop_of (some row) property = if row.hidden then none else get property row.props

unfoldable pub require_visible_in_view :
    Str → Str → Str → PropertyAcl → View → Result Error (Unit {0})
unfolding contains require_visible omits_current_property find_live
require_visible_in_view namespace kind key acl v =
    if contains namespace v.namespaces
    then (elim (require_visible acl kind key (λ property.
        if omits_current_property namespace kind property v
        then none
        else prop_of (find_live namespace kind key v) property)) [
          | ok u ↦ ok tt
          | err e ↦ err not_visible
        ])
    else err namespace_unknown
