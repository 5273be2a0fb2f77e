-- ===== src/Schema/Replace/Equality.antt =====
-- What `==` of the derived `PartialEq` decides on the types and links of a descriptor.
use mikura.Common.{◌≡◌, refl, sym, ap, ◌∙◌, Bool, true, false, ◌&&◌, ==→eq}
use mikura.Common.Text.{Str, str_eq, str_eq_iff}
use mikura.Schema.Descriptor.{SchemaLink, type_eq}
use mikura.Schema.Replace.{cast_eq, bool_eq, link_eq}
use mikura.Value.Types.{PropertyType}

type_eq_sound : (s t : PropertyType) → type_eq s t ≡ true → s ≡ t
type_eq_sound PropertyType.string PropertyType.string h = refl
type_eq_sound PropertyType.string PropertyType.boolean h = cc
type_eq_sound PropertyType.string PropertyType.integer h = cc
type_eq_sound PropertyType.string PropertyType.timestamp h = cc
type_eq_sound PropertyType.string PropertyType.time_series h = cc
type_eq_sound PropertyType.string PropertyType.geo_point h = cc
type_eq_sound PropertyType.string PropertyType.geo_shape h = cc
type_eq_sound PropertyType.string PropertyType.media h = cc
type_eq_sound PropertyType.string (PropertyType.decimal b) h = cc
type_eq_sound PropertyType.string (PropertyType.vector b) h = cc
type_eq_sound PropertyType.boolean PropertyType.string h = cc
type_eq_sound PropertyType.boolean PropertyType.boolean h = refl
type_eq_sound PropertyType.boolean PropertyType.integer h = cc
type_eq_sound PropertyType.boolean PropertyType.timestamp h = cc
type_eq_sound PropertyType.boolean PropertyType.time_series h = cc
type_eq_sound PropertyType.boolean PropertyType.geo_point h = cc
type_eq_sound PropertyType.boolean PropertyType.geo_shape h = cc
type_eq_sound PropertyType.boolean PropertyType.media h = cc
type_eq_sound PropertyType.boolean (PropertyType.decimal b) h = cc
type_eq_sound PropertyType.boolean (PropertyType.vector b) h = cc
type_eq_sound PropertyType.integer PropertyType.string h = cc
type_eq_sound PropertyType.integer PropertyType.boolean h = cc
type_eq_sound PropertyType.integer PropertyType.integer h = refl
type_eq_sound PropertyType.integer PropertyType.timestamp h = cc
type_eq_sound PropertyType.integer PropertyType.time_series h = cc
type_eq_sound PropertyType.integer PropertyType.geo_point h = cc
type_eq_sound PropertyType.integer PropertyType.geo_shape h = cc
type_eq_sound PropertyType.integer PropertyType.media h = cc
type_eq_sound PropertyType.integer (PropertyType.decimal b) h = cc
type_eq_sound PropertyType.integer (PropertyType.vector b) h = cc
type_eq_sound PropertyType.timestamp PropertyType.string h = cc
type_eq_sound PropertyType.timestamp PropertyType.boolean h = cc
type_eq_sound PropertyType.timestamp PropertyType.integer h = cc
type_eq_sound PropertyType.timestamp PropertyType.timestamp h = refl
type_eq_sound PropertyType.timestamp PropertyType.time_series h = cc
type_eq_sound PropertyType.timestamp PropertyType.geo_point h = cc
type_eq_sound PropertyType.timestamp PropertyType.geo_shape h = cc
type_eq_sound PropertyType.timestamp PropertyType.media h = cc
type_eq_sound PropertyType.timestamp (PropertyType.decimal b) h = cc
type_eq_sound PropertyType.timestamp (PropertyType.vector b) h = cc
type_eq_sound PropertyType.time_series PropertyType.string h = cc
type_eq_sound PropertyType.time_series PropertyType.boolean h = cc
type_eq_sound PropertyType.time_series PropertyType.integer h = cc
type_eq_sound PropertyType.time_series PropertyType.timestamp h = cc
type_eq_sound PropertyType.time_series PropertyType.time_series h = refl
type_eq_sound PropertyType.time_series PropertyType.geo_point h = cc
type_eq_sound PropertyType.time_series PropertyType.geo_shape h = cc
type_eq_sound PropertyType.time_series PropertyType.media h = cc
type_eq_sound PropertyType.time_series (PropertyType.decimal b) h = cc
type_eq_sound PropertyType.time_series (PropertyType.vector b) h = cc
type_eq_sound PropertyType.geo_point PropertyType.string h = cc
type_eq_sound PropertyType.geo_point PropertyType.boolean h = cc
type_eq_sound PropertyType.geo_point PropertyType.integer h = cc
type_eq_sound PropertyType.geo_point PropertyType.timestamp h = cc
type_eq_sound PropertyType.geo_point PropertyType.time_series h = cc
type_eq_sound PropertyType.geo_point PropertyType.geo_point h = refl
type_eq_sound PropertyType.geo_point PropertyType.geo_shape h = cc
type_eq_sound PropertyType.geo_point PropertyType.media h = cc
type_eq_sound PropertyType.geo_point (PropertyType.decimal b) h = cc
type_eq_sound PropertyType.geo_point (PropertyType.vector b) h = cc
type_eq_sound PropertyType.geo_shape PropertyType.string h = cc
type_eq_sound PropertyType.geo_shape PropertyType.boolean h = cc
type_eq_sound PropertyType.geo_shape PropertyType.integer h = cc
type_eq_sound PropertyType.geo_shape PropertyType.timestamp h = cc
type_eq_sound PropertyType.geo_shape PropertyType.time_series h = cc
type_eq_sound PropertyType.geo_shape PropertyType.geo_point h = cc
type_eq_sound PropertyType.geo_shape PropertyType.geo_shape h = refl
type_eq_sound PropertyType.geo_shape PropertyType.media h = cc
type_eq_sound PropertyType.geo_shape (PropertyType.decimal b) h = cc
type_eq_sound PropertyType.geo_shape (PropertyType.vector b) h = cc
type_eq_sound PropertyType.media PropertyType.string h = cc
type_eq_sound PropertyType.media PropertyType.boolean h = cc
type_eq_sound PropertyType.media PropertyType.integer h = cc
type_eq_sound PropertyType.media PropertyType.timestamp h = cc
type_eq_sound PropertyType.media PropertyType.time_series h = cc
type_eq_sound PropertyType.media PropertyType.geo_point h = cc
type_eq_sound PropertyType.media PropertyType.geo_shape h = cc
type_eq_sound PropertyType.media PropertyType.media h = refl
type_eq_sound PropertyType.media (PropertyType.decimal b) h = cc
type_eq_sound PropertyType.media (PropertyType.vector b) h = cc
type_eq_sound (PropertyType.decimal a) PropertyType.string h = cc
type_eq_sound (PropertyType.decimal a) PropertyType.boolean h = cc
type_eq_sound (PropertyType.decimal a) PropertyType.integer h = cc
type_eq_sound (PropertyType.decimal a) PropertyType.timestamp h = cc
type_eq_sound (PropertyType.decimal a) PropertyType.time_series h = cc
type_eq_sound (PropertyType.decimal a) PropertyType.geo_point h = cc
type_eq_sound (PropertyType.decimal a) PropertyType.geo_shape h = cc
type_eq_sound (PropertyType.decimal a) PropertyType.media h = cc
type_eq_sound (PropertyType.decimal a) (PropertyType.decimal b) h =
    ap PropertyType.decimal (==→eq a b h)
type_eq_sound (PropertyType.decimal a) (PropertyType.vector b) h = cc
type_eq_sound (PropertyType.vector a) PropertyType.string h = cc
type_eq_sound (PropertyType.vector a) PropertyType.boolean h = cc
type_eq_sound (PropertyType.vector a) PropertyType.integer h = cc
type_eq_sound (PropertyType.vector a) PropertyType.timestamp h = cc
type_eq_sound (PropertyType.vector a) PropertyType.time_series h = cc
type_eq_sound (PropertyType.vector a) PropertyType.geo_point h = cc
type_eq_sound (PropertyType.vector a) PropertyType.geo_shape h = cc
type_eq_sound (PropertyType.vector a) PropertyType.media h = cc
type_eq_sound (PropertyType.vector a) (PropertyType.decimal b) h = cc
type_eq_sound (PropertyType.vector a) (PropertyType.vector b) h =
    ap PropertyType.vector (==→eq a b h)

both : (a b : Bool) → (a && b) ≡ true → (a ≡ true) × (b ≡ true)
both true b h = (refl, h)
both false b h = cc

pub cast_eq_sound : (a b : Str × PropertyType) → cast_eq a b ≡ true → a ≡ b
unfolding cast_eq
cast_eq_sound (a, s) (b, t) h =
    let (names, types) = both (str_eq a b) (type_eq s t) h in
    ap (λ n. (n, s)) ((str_eq_iff a b).0 names) ∙ ap (λ u. (b, u)) (type_eq_sound s t types)

bool_eq_sound : (a b : Bool) → bool_eq a b ≡ true → a ≡ b
bool_eq_sound true b h = sym h
bool_eq_sound false true h = cc
bool_eq_sound false false h = refl

link_of : Str → Str → Bool → SchemaLink
link_of name far_kind outgoing = record { name = name; far_kind = far_kind; outgoing = outgoing }

pub link_eq_sound : (a b : SchemaLink) → link_eq a b ≡ true → a ≡ b
unfolding link_eq link_of
link_eq_sound a b h =
    let (texts, ways) =
      both (str_eq a.name b.name && str_eq a.far_kind b.far_kind) (bool_eq a.outgoing b.outgoing)
        h in
    let (names, kinds) = both (str_eq a.name b.name) (str_eq a.far_kind b.far_kind) texts in
    ap (λ n. link_of n a.far_kind a.outgoing) ((str_eq_iff a.name b.name).0 names)
    ∙ ap (λ k. link_of b.name k a.outgoing) ((str_eq_iff a.far_kind b.far_kind).0 kinds)
    ∙ ap (link_of b.name b.far_kind) (bool_eq_sound a.outgoing b.outgoing ways)
