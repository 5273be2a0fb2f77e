-- ===== src/Schema/Descriptor.antt =====
-- The descriptor of a kind in src/schema.rs.
use mikura.Common.{
  ℕ, Bool, true, false, not, ◌&&◌, ◌||◌, Option, none, some, List, [], ◌∷◌, all, ltb, leb, ◌==◌,
  if◌then◌else◌, Result, ok, err,
}
use mikura.Common.Text.{Str, ascii, str_eq, contains_str}
use mikura.Common.Maps.{Map, insert, str_key}
use mikura.Errors.{Error, token_empty, token_start, token_invalid}
use mikura.Schema.{ConflictStrategy, user, ConflictPlan}
use mikura.Value.Types.{PropertyType}

abbrev pub schema_kind : Str
schema_kind = ascii "mikura.schema"

pub record SchemaLink : Type 0 where
  pub name : Str
  pub far_kind : Str
  pub outgoing : Bool

pub record SchemaMigration : Type 0 where
  pub rename : List (Str × Str)
  pub cast : List (Str × PropertyType)
  pub drop : List Str
  pub retarget : List SchemaLink

pub record SchemaDescriptor : Type 0 where
  pub kind : Str
  pub properties : List Str
  pub required : List Str
  pub links : List SchemaLink
  pub sums : List Str
  pub indexes : List Str
  pub types : List (Str × PropertyType)
  pub conflict : Option ConflictStrategy
  pub conflict_properties : List (Str × ConflictStrategy)
  pub conflict_time : Option Str
  pub version : ℕ
  pub migration : SchemaMigration

abbrev pub no_migration : SchemaMigration
no_migration = record { rename = []; cast = []; drop = []; retarget = [] }

abbrev pub is_nil {ℓ} : {A : Type ℓ} → List A → Bool
is_nil [] = true
is_nil (x ∷ xs) = false

unfoldable pub is_empty : SchemaMigration → Bool
is_empty m = is_nil m.rename && is_nil m.cast && is_nil m.drop && is_nil m.retarget

-- `iter().any(|prop| prop == name)`.
abbrev pub declares : List Str → Str → Bool
declares names name = contains_str name names

-- `iter().find(..)` of a pair by its first half.
unfoldable pub find_pair : {V : Type 0} → Str → List (Str × V) → Option V
unfolding str_eq
find_pair name [] = none
find_pair name ((prop, v) ∷ pairs) = if str_eq prop name then some v else find_pair name pairs

unfoldable pub property_type : SchemaDescriptor → Str → Option PropertyType
unfolding find_pair
property_type d name =
    if declares d.properties name
    then (elim (find_pair name d.types) [ none ↦ some PropertyType.string | some type ↦ some type ])
    else none

abbrev pub is_some {ℓ} : {A : Type ℓ} → Option A → Bool
is_some none = false
is_some (some a) = true

-- `collect()` into a map: a later pair of one name wins.
unfoldable pub collect : {V : Type 0} → Map Str V → List (Str × V) → Map Str V
unfolding insert
collect m [] = m
collect m ((name, v) ∷ pairs) = collect (insert name v m) pairs

unfoldable pub conflict_plan : SchemaDescriptor → ConflictPlan
unfolding collect
conflict_plan d = record {
  default = elim d.conflict [ none ↦ user | some strategy ↦ strategy ];
  properties = collect [] d.conflict_properties;
  time_property = d.conflict_time;
  record_audit = is_some d.conflict || not (is_nil d.conflict_properties);
}

-- `self.version.max(1)`.
abbrev pub effective_version : SchemaDescriptor → ℕ
effective_version d = if ltb d.version 1 then 1 else d.version

abbrev pub is_ascii_alphabetic : ℕ → Bool
is_ascii_alphabetic b = (leb 65 b && leb b 90) || (leb 97 b && leb b 122)

abbrev pub is_token_char : ℕ → Bool
is_token_char b = is_ascii_alphabetic b || (leb 48 b && leb b 57) || (b == 95) || (b == 46)

-- A name of a schema: a letter, then letters, digits, underscores and dots.
unfoldable pub token : Str → Result Error (Unit {0})
token [] = err token_empty
token (b ∷ s) =
    if not (is_ascii_alphabetic b)
    then err token_start
    else if not (all is_token_char s)
    then err token_invalid
    else ok tt

abbrev pub type_eq : PropertyType → PropertyType → Bool
type_eq PropertyType.string PropertyType.string = true
type_eq PropertyType.boolean PropertyType.boolean = true
type_eq PropertyType.integer PropertyType.integer = true
type_eq PropertyType.timestamp PropertyType.timestamp = true
type_eq PropertyType.time_series PropertyType.time_series = true
type_eq PropertyType.geo_point PropertyType.geo_point = true
type_eq PropertyType.geo_shape PropertyType.geo_shape = true
type_eq PropertyType.media PropertyType.media = true
type_eq (PropertyType.decimal a) (PropertyType.decimal b) = a == b
type_eq (PropertyType.vector a) (PropertyType.vector b) = a == b
type_eq _ _ = false
