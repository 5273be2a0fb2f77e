-- ===== src/Schema/Check/Declared.antt =====
-- What a descriptor that passes its check is like.
use mikura.Common.{
  ◌≡◌, refl, ap, subst, arith, Bool, true, false, not, ◌&&◌, ◌||◌, Option, none, some, List, [],
  ◌∷◌, All, Result, ok, err, ◌>>◌, guard,
}
use mikura.Common.Text.{Str, str_eq, contains_str, str_eq_iff}
use mikura.Errors.{
  Error, kind_reserved, name_undeclared, link_undeclared, link_reserved, name_duplicate,
  link_not_string, needs_conflict_time, time_not_timestamp,
}
use mikura.Schema.{uses_newest}
use mikura.Schema.Descriptor.{
  schema_kind, SchemaLink, SchemaDescriptor, property_type, conflict_plan, token, type_eq,
}
use mikura.Schema.Check.{
  check_names, any_name, declared, check_links, check_type, check_types, check_sum_types,
  keeps_string, check_link_types, firsts, is_timestamp, check_conflict_time, is_none, check,
}
use mikura.Value.Types.{PropertyType, IsAdmitted}

-- Names of which none stands twice.
abbrev pub Once : List Str → Type 0
Once [] = Unit {0}
Once (name ∷ names) = (contains_str name names ≡ false) × Once names

abbrev Fresh : List Str → List Str → Type 0
Fresh seen names = All (λ name. contains_str name seen ≡ false) names

pub record AreNames (allowed : Str → Bool) (names : List Str) : Type 0 where
  pub tokens : All (λ name. token name ≡ ok tt) names
  pub admitted : All (λ name. allowed name ≡ true) names
  pub once : Once names

pub guard-ok :
    (b : Bool) (e : Error) {A : Type 0} (r : Result Error A) {out : A}
    → (guard b e >> r) ≡ ok out
    → (b ≡ true) × (r ≡ ok out)
guard-ok true e r h = (refl, h)
guard-ok false e r h = cc

pub unit-ok :
    (m : Result Error (Unit {0})) {A : Type 0} (r : Result Error A) {out : A}
    → (m >> r) ≡ ok out
    → (m ≡ ok tt) × (r ≡ ok out)
unit-ok (ok tt) r h = (refl, h)
unit-ok (err e) r h = cc

contains_tail :
    (name : Str) (names seen : List Str)
    → Fresh (name ∷ seen) names
    → (contains_str name names ≡ false) × Fresh seen names
contains_tail name [] seen h = (refl, tt)
contains_tail name (other ∷ names) seen (f, h) =
    let (apart, fresh) = contains_tail name names seen h in
    (ground (arith, str_eq_iff name other, str_eq_iff other name), (ground arith, fresh))

names_of :
    (allowed : Str → Bool) (e : Error) (seen names : List Str)
    → check_names allowed e seen names ≡ ok tt
    → AreNames allowed names × Fresh seen names
unfolding check_names
names_of allowed e seen [] h = (record { tokens = tt; admitted = tt; once = tt }, tt)
names_of allowed e seen (name ∷ names) h =
    let (is_token, rest) = unit-ok (token name) _ h in
    let (allows, rest) = guard-ok (allowed name) e _ rest in
    let (new, rest) = guard-ok (not (contains_str name seen)) name_duplicate _ rest in
    let (others, fresh) = names_of allowed e (name ∷ seen) names rest in
    let (apart, old) = contains_tail name names seen fresh in
    (
      record {
        tokens = (is_token, others.tokens);
        admitted = (allows, others.admitted);
        once = (apart, others.once);
      },
      (ground arith, old),
    )

pub check_names-AreNames :
    (allowed : Str → Bool) (e : Error) (names : List Str)
    → check_names allowed e [] names ≡ ok tt
    → AreNames allowed names
check_names-AreNames allowed e names h = (names_of allowed e [] names h).0

-- A link, by what the check asks of it.
pub record IsLink (d : SchemaDescriptor) (link : SchemaLink) : Type 0 where
  pub not_schema : str_eq link.far_kind schema_kind ≡ false
  pub on_property : link.outgoing ≡ true → declared d link.name ≡ true

links_of :
    (d : SchemaDescriptor) (seen : List Str) (links : List SchemaLink)
    → check_links d seen links ≡ ok tt
    → All (IsLink d) links
unfolding check_links
links_of d seen [] h = tt
links_of d seen (link ∷ links) h =
    let (t, rest) = unit-ok (token link.name) _ h in
    let (u, rest) = unit-ok (token link.far_kind) _ rest in
    let (plain, rest) = guard-ok (not (str_eq link.far_kind schema_kind)) link_reserved _ rest in
    let (new, rest) = guard-ok (not (contains_str link.name seen)) name_duplicate _ rest in
    let (on, rest) =
      guard-ok (not (link.outgoing && not (declared d link.name))) link_undeclared _ rest in
    (
      record { not_schema = ground arith; on_property = λ out. ground arith },
      links_of d (link.name ∷ seen) links rest,
    )

-- The type of a property, by what the check asks of it.
abbrev pub IsTyped : SchemaDescriptor → Str × PropertyType → Type 0
IsTyped d (name, type) = (declared d name ≡ true) × IsAdmitted type

check_type-IsAdmitted : (type : PropertyType) → check_type type ≡ ok tt → IsAdmitted type
check_type-IsAdmitted (PropertyType.decimal scale) h = ground arith
check_type-IsAdmitted (PropertyType.vector dim) h = ground arith
check_type-IsAdmitted PropertyType.string h = tt
check_type-IsAdmitted PropertyType.boolean h = tt
check_type-IsAdmitted PropertyType.integer h = tt
check_type-IsAdmitted PropertyType.timestamp h = tt
check_type-IsAdmitted PropertyType.time_series h = tt
check_type-IsAdmitted PropertyType.geo_point h = tt
check_type-IsAdmitted PropertyType.geo_shape h = tt
check_type-IsAdmitted PropertyType.media h = tt

types_of :
    (d : SchemaDescriptor) (seen : List Str) (types : List (Str × PropertyType))
    → check_types d seen types ≡ ok tt
    → All (IsTyped d) types × (Once (firsts types) × Fresh seen (firsts types))
unfolding check_types
types_of d seen [] h = (tt, (tt, tt))
types_of d seen ((name, type) ∷ types) h =
    let (t, rest) = unit-ok (token name) _ h in
    let (on, rest) = guard-ok (declared d name) name_undeclared _ rest in
    let (new, rest) = guard-ok (not (contains_str name seen)) name_duplicate _ rest in
    let (sound, rest) = unit-ok (check_type type) _ rest in
    let (others, (once, fresh)) = types_of d (name ∷ seen) types rest in
    let (apart, old) = contains_tail name (firsts types) seen fresh in
    (((on, check_type-IsAdmitted type sound), others), ((apart, once), (ground arith, old)))

link_types_of :
    (d : SchemaDescriptor) (links : List SchemaLink)
    → check_link_types d links ≡ ok tt
    → All (λ (link : SchemaLink). link.outgoing ≡ true → keeps_string d link ≡ true) links
unfolding check_link_types
link_types_of d [] h = tt
link_types_of d (link ∷ links) h =
    let (keeps, rest) = guard-ok (not link.outgoing || keeps_string d link) link_not_string _ h in
    (λ out. ground arith, link_types_of d links rest)

-- A descriptor that can stand: names that are declared once, typed and linked as its kind allows.
pub record IsWellFormed (d : SchemaDescriptor) : Type 0 where
  pub kind_token : token d.kind ≡ ok tt
  pub kind_free : str_eq d.kind schema_kind ≡ false
  pub properties : AreNames any_name d.properties
  pub required : AreNames (declared d) d.required
  pub sums : AreNames (declared d) d.sums
  pub indexes : AreNames (declared d) d.indexes
  pub overrides : AreNames (declared d) (firsts d.conflict_properties)
  pub links : All (IsLink d) d.links
  pub link_types :
      All (λ (link : SchemaLink). link.outgoing ≡ true → keeps_string d link ≡ true) d.links
  pub types : All (IsTyped d) d.types
  pub types_once : Once (firsts d.types)
  pub timed : uses_newest (conflict_plan d) ≡ true → is_none d.conflict_time ≡ false
  pub clock :
      (name : Str)
      → d.conflict_time ≡ some name
      → property_type d name ≡ some PropertyType.timestamp

type_eq-timestamp :
    (t : PropertyType) → type_eq t PropertyType.timestamp ≡ true → t ≡ PropertyType.timestamp
type_eq-timestamp PropertyType.timestamp h = refl
type_eq-timestamp PropertyType.string h = cc
type_eq-timestamp PropertyType.boolean h = cc
type_eq-timestamp PropertyType.integer h = cc
type_eq-timestamp PropertyType.time_series h = cc
type_eq-timestamp PropertyType.geo_point h = cc
type_eq-timestamp PropertyType.geo_shape h = cc
type_eq-timestamp PropertyType.media h = cc
type_eq-timestamp (PropertyType.decimal a) h = cc
type_eq-timestamp (PropertyType.vector a) h = cc

guard-true :
    (b : Bool) (e : Error) → (let r : Result Error (Unit {0}) = guard b e in r) ≡ ok tt → b ≡ true
guard-true true e h = refl
guard-true false e h = cc

timestamp_type : (t : Option PropertyType) → is_timestamp t ≡ true → t ≡ some PropertyType.timestamp
timestamp_type none h = cc
timestamp_type (some type) h = ap some (type_eq-timestamp type h)

clock_of :
    (d : SchemaDescriptor) (time : Option Str)
    → check_conflict_time d time ≡ ok tt
    → (name : Str) → time ≡ some name
    → property_type d name ≡ some PropertyType.timestamp
unfolding check_conflict_time
clock_of d none h name e = cc
clock_of d (some other) h name e =
    let (t, rest) = unit-ok (token other) _ h in
    let (on, rest) =
      guard-ok (declared d other) name_undeclared
        (guard (is_timestamp (property_type d other)) time_not_timestamp) rest in
    let same : other ≡ name = cc in
    subst (λ n. property_type d n ≡ some PropertyType.timestamp) same
      (timestamp_type (property_type d other) (guard-true _ _ rest))

-- A descriptor that passes the check is well formed: its kind is a token and not the reserved one;
-- properties, required names, sums, indexes and conflict overrides are tokens without a repetition,
-- and all of these but the properties are declared properties; the far kind of a link is not the
-- reserved one, and an outgoing link is a declared property whose type, if it has one, is string;
-- typed names are declared, none twice, with types within their bounds; a plan that uses newest has
-- a time, and a time is a property of type timestamp.
pub check-IsWellFormed : (d : SchemaDescriptor) → check d ≡ ok tt → IsWellFormed d
unfolding check
check-IsWellFormed d h =
    let (kind_token, rest) = unit-ok (token d.kind) _ h in
    let (kind_free, rest) = guard-ok (not (str_eq d.kind schema_kind)) kind_reserved _ rest in
    let (properties, rest) =
      unit-ok (check_names any_name name_undeclared [] d.properties) _ rest in
    let (required, rest) =
      unit-ok (check_names (declared d) name_undeclared [] d.required) _ rest in
    let (links, rest) = unit-ok (check_links d [] d.links) _ rest in
    let (sums, rest) = unit-ok (check_names (declared d) name_undeclared [] d.sums) _ rest in
    let (indexes, rest) = unit-ok (check_names (declared d) name_undeclared [] d.indexes) _ rest in
    let (types, rest) = unit-ok (check_types d [] d.types) _ rest in
    let (sum_types, rest) = unit-ok (check_sum_types d d.sums) _ rest in
    let (link_types, rest) = unit-ok (check_link_types d d.links) _ rest in
    let (overrides, rest) =
      unit-ok (check_names (declared d) name_undeclared [] (firsts d.conflict_properties)) _ rest in
    let (clock, rest) = unit-ok (check_conflict_time d d.conflict_time) _ rest in
    let timed =
      guard-true (not (uses_newest (conflict_plan d) && is_none d.conflict_time))
        needs_conflict_time rest in
    let (typed, (once, fresh)) = types_of d [] d.types types in
    record {
      kind_token = kind_token;
      kind_free = ground arith;
      properties = check_names-AreNames any_name name_undeclared d.properties properties;
      required = check_names-AreNames (declared d) name_undeclared d.required required;
      sums = check_names-AreNames (declared d) name_undeclared d.sums sums;
      indexes = check_names-AreNames (declared d) name_undeclared d.indexes indexes;
      overrides =
          check_names-AreNames (declared d) name_undeclared (firsts d.conflict_properties)
            overrides;
      links = links_of d [] d.links links;
      link_types = link_types_of d d.links link_types;
      types = typed;
      types_once = once;
      timed = λ newest.
          newest_timed (uses_newest (conflict_plan d)) (is_none d.conflict_time) timed newest;
      clock = clock_of d d.conflict_time clock;
    }
  where
    newest_timed : (a b : Bool) → not (a && b) ≡ true → a ≡ true → b ≡ false
    newest_timed a b p q = ground arith
