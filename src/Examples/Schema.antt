-- ===== src/Examples/Schema.antt =====
-- Two descriptors of a kind, the second of which replaces the first, and an instance.
use mikura.Common.{ℕ, ◌≡◌, refl, arith, true, false, none, List, [], ◌∷◌, ◌++◌, ok}
use mikura.Common.Text.{Str, ascii, str_eq}
use mikura.Common.Ints.{◌+ℤ◌, ◌-ℤ◌, ◌*ℤ◌}
use mikura.Common.Strings.{show_nat}
use mikura.Record.{Props, ObjectRecord}
use mikura.Schema.Descriptor.{
  effective_version, SchemaLink, SchemaMigration, SchemaDescriptor, no_migration, token,
}
use mikura.Schema.Check.{check}
use mikura.Schema.Check.Declared.{IsWellFormed, check-IsWellFormed}
use mikura.Schema.Migration.{Undone}
use mikura.Schema.Instance.{
  check_known, check_values, canonicalize_instance, canonicalize_instance-stable,
}
use mikura.Schema.Replace.{check_replacement, after, stamped}
use mikura.Schema.Replace.Declares.{Replaces, check_replacement-Replaces, check_replacement-Undone}
use mikura.Schema.Rows.{parse_link, encode_link, parse_version}
use mikura.Schema.Rows.Links.{parse_link-encode_link, parse_version-plus}
use mikura.Value.Types.{PropertyType}
use mikura.Examples.Value.{whole_floats}

abbrev descriptor : List Str → List (Str × PropertyType) → ℕ → SchemaMigration → SchemaDescriptor
descriptor properties types version migration = record {
  kind = ascii "incident";
  properties = properties;
  required = [];
  links = [];
  sums = [];
  indexes = [];
  types = types;
  conflict = none;
  conflict_properties = [];
  conflict_time = none;
  version = version;
  migration = migration;
}

abbrev first_version : SchemaDescriptor
first_version =
    descriptor (ascii "note" ∷ ascii "seen" ∷ []) ((ascii "seen", PropertyType.timestamp) ∷ []) 1
      no_migration

abbrev renamed : SchemaMigration
renamed = record { rename = (ascii "note", ascii "memo") ∷ []; cast = []; drop = []; retarget = [] }

abbrev second_version : SchemaDescriptor
second_version =
    descriptor (ascii "memo" ∷ ascii "seen" ∷ []) ((ascii "seen", PropertyType.timestamp) ∷ []) 0
      renamed

abbrev stamped_version : SchemaDescriptor
stamped_version =
    descriptor (ascii "memo" ∷ ascii "seen" ∷ []) ((ascii "seen", PropertyType.timestamp) ∷ []) 2
      renamed

abbrev instance_props : Props
instance_props = (ascii "note", ascii "down") ∷ (ascii "seen", ascii "2024-01-01T00:00:00Z") ∷ []

abbrev of_props : Props → ObjectRecord
of_props props = record {
  gen = 0;
  namespace = ascii "ns";
  kind = ascii "incident";
  key = ascii "inc-1";
  hidden = false;
  action_id = none;
  props = props;
  schema_version = 1;
}

checked : check first_version ≡ ok tt
unfolding check str_eq
checked = refl

check-IsWellFormed_example : IsWellFormed first_version
check-IsWellFormed_example = check-IsWellFormed first_version checked

accepted : check_replacement first_version second_version ≡ ok stamped_version
unfolding check_replacement str_eq
accepted = refl

-- A next version that drops one property and recasts the other.
abbrev breaking : SchemaMigration
breaking = record {
  rename = [];
  cast = (ascii "seen", PropertyType.string) ∷ [];
  drop = ascii "note" ∷ [];
  retarget = [];
}

abbrev narrow_version : SchemaDescriptor
narrow_version =
    descriptor (ascii "seen" ∷ []) ((ascii "seen", PropertyType.string) ∷ []) 2 breaking

narrowed : check_replacement first_version narrow_version ≡ ok narrow_version
unfolding check_replacement str_eq
narrowed = refl

check_replacement-Replaces_example :
    Replaces first_version narrow_version
    × (narrow_version ≡ stamped (after (effective_version first_version)) narrow_version)
check_replacement-Replaces_example =
    check_replacement-Replaces first_version narrow_version narrow_version narrowed

known : check_known first_version.properties instance_props ≡ ok tt
unfolding check_known str_eq
known = refl

check_replacement-Undone_example : Undone renamed.rename instance_props
check_replacement-Undone_example =
    check_replacement-Undone first_version second_version stamped_version instance_props accepted
      known

abbrev stored_props : Props
stored_props = (ascii "note", ascii "down") ∷ (ascii "seen", ascii "2024-01-01T00:00:00.000Z") ∷ []

stored :
    canonicalize_instance whole_floats first_version (of_props instance_props)
    ≡ ok (of_props stored_props)
unfolding canonicalize_instance str_eq ◌+ℤ◌ ◌-ℤ◌ ◌*ℤ◌
stored = refl

canonicalize_instance-stable_example :
    (canonicalize_instance whole_floats first_version (of_props stored_props)
      ≡ ok (of_props stored_props))
    × (check_values whole_floats first_version stored_props ≡ ok tt)
canonicalize_instance-stable_example =
    canonicalize_instance-stable whole_floats first_version (of_props instance_props)
      (of_props stored_props) stored

abbrev affects : SchemaLink
affects = record { name = ascii "affects"; far_kind = ascii "service"; outgoing = true }

affects_token : token (ascii "affects") ≡ ok tt
unfolding token
affects_token = refl

service_token : token (ascii "service") ≡ ok tt
unfolding token
service_token = refl

parse_link-encode_link_example : parse_link (encode_link affects) ≡ ok affects
parse_link-encode_link_example = parse_link-encode_link affects affects_token service_token

parse_version-plus_example : parse_version (ascii "+" ++ show_nat 3) ≡ ok 3
parse_version-plus_example = parse_version-plus 3 (omega arith) (omega arith)
