-- ===== src/Value/Types.antt =====
-- The logical types of src/value.rs and their tokens in a schema descriptor.
pub mod Tokens
use mikura.Common.{ℕ, ◌+◌, ◌≤◌, Bool, true, false, not, ◌&&◌, ◌||◌}
use mikura.Common.{
  List, [], ◌∷◌, ◌++◌, Option, none, some, length, ltb, leb, if◌then◌else◌, Result, ok, err, ok_or,
  ◌>>=◌,
}
use mikura.Common.Text.{Str, ascii, str_eq}
use mikura.Common.Ints.{ℤ}
use mikura.Common.Strings.{strip_prefix, starts_with, parse_unsigned, show_nat}
use mikura.Errors.{
  Error, unknown_type, scale_not_canonical, scale_not_integer, scale_exceeds, dim_not_canonical,
  dim_not_integer, dim_out_of_range,
}

abbrev pub vector_dim_max : ℕ
vector_dim_max = 1024

pub data PropertyType : Type 0 where
  string boolean integer timestamp time_series geo_point geo_shape media : PropertyType
  decimal : ℕ → PropertyType
  vector : ℕ → PropertyType

pub data PropertyValue : Type 0 where
  string timestamp decimal vector time_series geo_point geo_shape media : Str → PropertyValue
  boolean : Bool → PropertyValue
  integer : ℤ → PropertyValue

unfoldable pub parse_vector_dim : Str → Result Error ℕ
unfolding parse_unsigned strip_prefix
parse_vector_dim raw =
    if ltb 1 (length raw) && starts_with (ascii "0") raw then err dim_not_canonical else (do
      dim ← ok_or (parse_unsigned 65535 raw) dim_not_integer
      (if not (leb 1 dim && leb dim vector_dim_max) then err dim_out_of_range else ok dim))

-- The scale behind `decimal:`.
unfoldable pub parse_scale : Str → Result Error ℕ
unfolding parse_unsigned strip_prefix
parse_scale raw =
    if ltb 1 (length raw) && starts_with (ascii "0") raw then err scale_not_canonical else (do
      scale ← ok_or (parse_unsigned 255 raw) scale_not_integer
      (if ltb 18 scale then err scale_exceeds else ok scale))

abbrev pub to_vector : Result Error ℕ → Result Error PropertyType
to_vector r = r >>= λ dim. ok (PropertyType.vector dim)

abbrev pub to_decimal : Result Error ℕ → Result Error PropertyType
to_decimal r = r >>= λ scale. ok (PropertyType.decimal scale)

unfoldable pub from_token : Str → Result Error PropertyType
unfolding str_eq strip_prefix parse_vector_dim parse_scale
from_token token =
    if str_eq token (ascii "string")
    then ok PropertyType.string
    else if str_eq token (ascii "boolean")
    then ok PropertyType.boolean
    else if str_eq token (ascii "integer")
    then ok PropertyType.integer
    else if str_eq token (ascii "timestamp")
    then ok PropertyType.timestamp
    else if str_eq token (ascii "tsref")
    then ok PropertyType.time_series
    else if str_eq token (ascii "geo:point")
    then ok PropertyType.geo_point
    else if str_eq token (ascii "geo:shape")
    then ok PropertyType.geo_shape
    else if str_eq token (ascii "media")
    then ok PropertyType.media
    else (elim (strip_prefix (ascii "vector:") token) [
      | some dim ↦ to_vector (parse_vector_dim dim)
      | none ↦ (elim (strip_prefix (ascii "decimal:") token) [
        | none ↦ err unknown_type
        | some scale ↦ to_decimal (parse_scale scale)
      ])
    ])

unfoldable pub token : PropertyType → Str
token PropertyType.string = ascii "string"
token PropertyType.boolean = ascii "boolean"
token PropertyType.integer = ascii "integer"
token PropertyType.timestamp = ascii "timestamp"
token (PropertyType.decimal scale) = ascii "decimal:" ++ show_nat scale
token (PropertyType.vector dim) = ascii "vector:" ++ show_nat dim
token PropertyType.time_series = ascii "tsref"
token PropertyType.geo_point = ascii "geo:point"
token PropertyType.geo_shape = ascii "geo:shape"
token PropertyType.media = ascii "media"

-- The scales and dimensions that are admitted.
abbrev pub IsAdmitted : PropertyType → Type 0
IsAdmitted (PropertyType.decimal scale) = scale ≤ 18
IsAdmitted (PropertyType.vector dim) = (1 ≤ dim) × (dim ≤ vector_dim_max)
IsAdmitted other = Unit {0}
