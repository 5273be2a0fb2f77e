-- ===== src/Schema/Check.antt =====
-- `SchemaDescriptor::check` of src/schema.rs.
pub mod Declared
use mikura.Common.{
  ℕ, Bool, true, false, not, ◌&&◌, ◌||◌, Option, none, some, List, [], ◌∷◌, ltb, leb, if◌then◌else◌,
  Result, ok, err, ◌>>=◌, ◌>>◌, guard,
}
use mikura.Common.Text.{Str, str_eq, contains_str}
use mikura.Errors.{
  Error, kind_reserved, name_duplicate, name_undeclared, link_reserved, link_undeclared,
  link_not_string, sum_type_invalid, time_not_timestamp, needs_conflict_time, scale_exceeds,
  dim_out_of_range,
}
use mikura.Schema.{ConflictStrategy, uses_newest}
use mikura.Schema.Descriptor.{
  schema_kind, SchemaLink, SchemaDescriptor, find_pair, property_type, conflict_plan, token,
  type_eq,
}
use mikura.Value.Types.{PropertyType, vector_dim_max}

-- The loops over the names of a list: each is a token that `allowed` admits, and new to those `seen`.
unfoldable pub check_names : (Str → Bool) → Error → List Str → List Str → Result Error (Unit {0})
unfolding token
check_names allowed e seen [] = ok tt
check_names allowed e seen (name ∷ names) = do
  token name
  guard (allowed name) e
  guard (not (contains_str name seen)) name_duplicate
  check_names allowed e (name ∷ seen) names

abbrev pub any_name : Str → Bool
any_name name = true

abbrev pub declared : SchemaDescriptor → Str → Bool
declared d name = contains_str name d.properties

unfoldable pub check_links : SchemaDescriptor → List Str → List SchemaLink → Result Error (Unit {0})
unfolding token
check_links d seen [] = ok tt
check_links d seen (link ∷ links) = do
  token link.name
  token link.far_kind
  guard (not (str_eq link.far_kind schema_kind)) link_reserved
  guard (not (contains_str link.name seen)) name_duplicate
  guard (not (link.outgoing && not (declared d link.name))) link_undeclared
  check_links d (link.name ∷ seen) links

abbrev pub check_type : PropertyType → Result Error (Unit {0})
check_type (PropertyType.decimal scale) = guard (not (ltb 18 scale)) scale_exceeds
check_type (PropertyType.vector dim) = guard (leb 1 dim && leb dim vector_dim_max) dim_out_of_range
check_type other = ok tt

unfoldable pub check_types :
    SchemaDescriptor → List Str → List (Str × PropertyType) → Result Error (Unit {0})
unfolding token
check_types d seen [] = ok tt
check_types d seen ((name, type) ∷ types) = do
  token name
  guard (declared d name) name_undeclared
  guard (not (contains_str name seen)) name_duplicate
  check_type type
  check_types d (name ∷ seen) types

abbrev pub is_summed : PropertyType → Bool
is_summed PropertyType.string = true
is_summed PropertyType.integer = true
is_summed (PropertyType.decimal scale) = true
is_summed other = false

unfoldable pub check_sum_types : SchemaDescriptor → List Str → Result Error (Unit {0})
unfolding property_type
check_sum_types d [] = ok tt
check_sum_types d (name ∷ sums) = do
  guard (elim (property_type d name) [ none ↦ true | some type ↦ is_summed type ]) sum_type_invalid
  check_sum_types d sums

abbrev pub keeps_string : SchemaDescriptor → SchemaLink → Bool
unfolding find_pair
keeps_string d link = elim (find_pair link.name d.types) [
  | none ↦ true
  | some type ↦ type_eq type PropertyType.string
]

unfoldable pub check_link_types : SchemaDescriptor → List SchemaLink → Result Error (Unit {0})
unfolding keeps_string
check_link_types d [] = ok tt
check_link_types d (link ∷ links) = do
  guard (not link.outgoing || keeps_string d link) link_not_string
  check_link_types d links

abbrev pub firsts : {V : Type 0} → List (Str × V) → List Str
firsts [] = []
firsts ((name, v) ∷ pairs) = name ∷ firsts pairs

abbrev pub is_timestamp : Option PropertyType → Bool
is_timestamp none = false
is_timestamp (some type) = type_eq type PropertyType.timestamp

unfoldable pub check_conflict_time : SchemaDescriptor → Option Str → Result Error (Unit {0})
unfolding token property_type
check_conflict_time d none = ok tt
check_conflict_time d (some name) = do
  token name
  guard (declared d name) name_undeclared
  guard (is_timestamp (property_type d name)) time_not_timestamp

abbrev pub is_none : Option Str → Bool
is_none none = true
is_none (some s) = false

unfoldable pub check : SchemaDescriptor → Result Error (Unit {0})
unfolding token check_names check_links check_types check_sum_types check_link_types
    check_conflict_time uses_newest conflict_plan
check d = do
  token d.kind
  guard (not (str_eq d.kind schema_kind)) kind_reserved
  check_names any_name name_undeclared [] d.properties
  check_names (declared d) name_undeclared [] d.required
  check_links d [] d.links
  check_names (declared d) name_undeclared [] d.sums
  check_names (declared d) name_undeclared [] d.indexes
  check_types d [] d.types
  check_sum_types d d.sums
  check_link_types d d.links
  check_names (declared d) name_undeclared [] (firsts d.conflict_properties)
  check_conflict_time d d.conflict_time
  guard (not (uses_newest (conflict_plan d) && is_none d.conflict_time)) needs_conflict_time
