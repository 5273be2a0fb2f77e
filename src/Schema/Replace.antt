-- ===== src/Schema/Replace.antt =====
-- `SchemaDescriptor::check_replacement` of src/schema.rs: what a new descriptor of a kind may change.
pub mod Equality
pub mod Needs
pub mod Declares
use mikura.Common.{
  ℕ, ◌+◌, ◌%◌, ◌^◌, Bool, true, false, not, ◌&&◌, ◌||◌, Option, none, some, List, [], ◌∷◌, length,
  sort_by, ltb, leb, ◌==◌, if◌then◌else◌, Result, ok, err, ◌>>=◌, ◌>>◌, guard,
}
use mikura.Common.Text.{Str, str_eq, str_lt, sort, contains_str}
use mikura.Common.Maps.{Map, get, contains_key, str_key}
use mikura.Errors.{
  Error, kind_mismatch, version_invalid, rename_duplicate, rename_target_duplicate, rename_lost,
  rename_no_op, rename_source_unknown, rename_target_unknown, rename_target_taken,
  rename_source_kept, drop_not_breaking, drop_undeclared, cast_not_breaking, cast_undeclared,
  retarget_not_breaking, retarget_undeclared,
}
use mikura.Schema.Descriptor.{
  SchemaLink, SchemaMigration, SchemaDescriptor, is_nil, declares, property_type, collect,
  effective_version, type_eq,
}
use mikura.Schema.Check.{check}
use mikura.Value.Types.{PropertyType}

-- `prev_v + 1` of u32.
abbrev pub after : ℕ → ℕ
after v = (v + 1) % 2 ^ 32

abbrev pub next_version : SchemaDescriptor → SchemaDescriptor → ℕ
next_version d next = if next.version == 0 then after (effective_version d) else next.version

unfoldable pub check_targets : List Str → List (Str × Str) → Result Error (Unit {0})
check_targets seen [] = ok tt
check_targets seen ((old, new) ∷ rename) =
    guard (not (contains_str new seen)) rename_target_duplicate >> check_targets (new ∷ seen) rename

abbrev pub or_self : Str → Option Str → Str
or_self name none = name
or_self name (some new) = new

-- The name that a property has behind the renames.
abbrev pub mapped : Map Str Str → Str → Str
unfolding get
mapped rename name = or_self name (get name rename)

pub record Changes : Type 0 where
  pub drop : List Str
  pub cast : List (Str × PropertyType)

abbrev pub dropping : Str → Changes → Changes
dropping name c = record c { drop = name ∷ c.drop }

abbrev pub casting : Str → Option PropertyType → Option PropertyType → Changes → Changes
casting name (some previous) (some replacement) c =
    if type_eq previous replacement then c else record c { cast = (name, replacement) ∷ c.cast }
casting name _ _ c = c

-- The drops and recasts that the new descriptor needs.
unfoldable pub expected_changes :
    SchemaDescriptor → SchemaDescriptor → Map Str Str → List Str → Result Error Changes
unfolding contains_key property_type mapped
expected_changes d next rename [] = ok (record { drop = []; cast = [] })
expected_changes d next rename (name ∷ names) =
    if not (declares next.properties (mapped rename name))
    then (if contains_key name rename
        then err rename_lost
        else (do c ← expected_changes d next rename names; ok (dropping name c)))
    else (do
      c ← expected_changes d next rename names
      ok (
          casting (mapped rename name) (property_type d name)
            (property_type next (mapped rename name)) c))

unfoldable pub check_rename :
    SchemaDescriptor → SchemaDescriptor → List (Str × Str) → Result Error (Unit {0})
check_rename d next [] = ok tt
check_rename d next ((old, new) ∷ rename) = do
  guard (not (str_eq old new)) rename_no_op
  guard (declares d.properties old) rename_source_unknown
  guard (declares next.properties new) rename_target_unknown
  guard (not (declares d.properties new)) rename_target_taken
  guard (not (declares next.properties old)) rename_source_kept
  check_rename d next rename

unfoldable pub same_list : {A : Type 0} → (A → A → Bool) → List A → List A → Bool
same_list eq [] [] = true
same_list eq (x ∷ xs) (y ∷ ys) = eq x y && same_list eq xs ys
same_list eq _ _ = false

unfoldable pub cast_eq : Str × PropertyType → Str × PropertyType → Bool
unfolding str_eq
cast_eq (a, s) (b, t) = str_eq a b && type_eq s t

abbrev pub bool_eq : Bool → Bool → Bool
bool_eq true b = b
bool_eq false b = not b

unfoldable pub link_eq : SchemaLink → SchemaLink → Bool
unfolding str_eq
link_eq a b = str_eq a.name b.name && str_eq a.far_kind b.far_kind && bool_eq a.outgoing b.outgoing

unfoldable pub check_drop : List Str → List Str → Result Error (Unit {0})
unfolding same_list sort
check_drop declared expected =
    if same_list str_eq (sort declared) (sort expected)
    then ok tt
    else err (if is_nil expected then drop_not_breaking else drop_undeclared)

abbrev pub by_name : Str × PropertyType → Str × PropertyType → Bool
unfolding str_lt
by_name a b = str_lt a.0 b.0

unfoldable pub check_cast :
    List (Str × PropertyType) → List (Str × PropertyType) → Result Error (Unit {0})
unfolding same_list cast_eq by_name
check_cast declared expected =
    if same_list cast_eq (sort_by by_name declared) (sort_by by_name expected)
    then ok tt
    else err (if is_nil expected then cast_not_breaking else cast_undeclared)

unfoldable pub find_link : Str → List SchemaLink → Option SchemaLink
unfolding str_eq
find_link name [] = none
find_link name (link ∷ links) = if str_eq link.name name then some link else find_link name links

abbrev pub retargeted : SchemaLink → Option SchemaLink → List SchemaLink → List SchemaLink
unfolding str_eq
retargeted link none links = links
retargeted link (some next) links =
    if not (str_eq next.far_kind link.far_kind) || not (bool_eq next.outgoing link.outgoing)
    then next ∷ links
    else links

unfoldable pub expected_retarget :
    SchemaDescriptor → Map Str Str → List SchemaLink → List SchemaLink
unfolding mapped find_link retargeted
expected_retarget next rename [] = []
expected_retarget next rename (link ∷ links) =
    let rest = expected_retarget next rename links in
    if link.outgoing
    then retargeted link (find_link (mapped rename link.name) next.links) rest
    else rest

abbrev pub link_by_name : SchemaLink → SchemaLink → Bool
unfolding str_lt
link_by_name a b = str_lt a.name b.name

unfoldable pub check_retarget : List SchemaLink → List SchemaLink → Result Error (Unit {0})
unfolding same_list link_eq link_by_name
check_retarget declared expected =
    if same_list link_eq (sort_by link_by_name declared) (sort_by link_by_name expected)
    then ok tt
    else err (if is_nil expected then retarget_not_breaking else retarget_undeclared)

abbrev pub stamped : ℕ → SchemaDescriptor → SchemaDescriptor
stamped version next = record next { version = version }

unfoldable pub check_replacement :
    SchemaDescriptor → SchemaDescriptor → Result Error SchemaDescriptor
unfolding collect check_targets expected_changes check_rename check_drop check_cast
    expected_retarget check_retarget check
check_replacement d next = do
  guard (str_eq d.kind next.kind) kind_mismatch
  guard (next_version d next == after (effective_version d)) version_invalid
  guard (length (collect [] next.migration.rename) == length next.migration.rename) rename_duplicate
  check_targets [] next.migration.rename
  changes ← expected_changes d next (collect [] next.migration.rename) d.properties
  check_rename d next next.migration.rename
  check_drop next.migration.drop changes.drop
  check_cast next.migration.cast changes.cast
  check_retarget next.migration.retarget
      (expected_retarget next (collect [] next.migration.rename) d.links)
  check (stamped (next_version d next) next)
  ok (stamped (next_version d next) next)
