-- ===== src/Value/Forms.antt =====
-- The canonical forms of src/value.rs over all types: reading one, writing one, their order, ranges and
-- boxes.
pub mod Stable
pub mod Order
use Prim.Native.Nat.{Ordering, compare}
use mikura.Common.{ℕ, ◌+◌, Bool, true, false, not, ◌&&◌, ◌||◌}
use mikura.Common.{
  List, [], ◌∷◌, Option, none, some, length, ltb, leb, ◌==◌, if◌then◌else◌, Result, ok, err, ok_or,
  ◌>>=◌, ◌>>◌, guard,
}
use mikura.Common.Text.{Str, ascii, str_eq, str_lt}
use mikura.Common.Ints.{ℤ, above, below, show_int}
use mikura.Common.Strings.{show_nat}
use mikura.Errors.{
  Error, not_canonical, mixed_types, range_undefined, bbox_reversed, bbox_undefined,
}
use mikura.Value.Types.{PropertyType, PropertyValue}
use mikura.Value.Timestamp.{parse_timestamp_millis, format_utc_millis}
use mikura.Value.Numbers.{parse_boolean, parse_integer, parse_decimal, decimal_units}
use mikura.Value.References.{parse_media, check_timestamp, parse_time_series, time_series_overlaps}
use mikura.Value.Geo
use mikura.Value.Geo.{Floats, Envelope}

-- The text that a value was read from, or stands for.
unfoldable pub canonical : PropertyValue → Str
unfolding show_nat
canonical (PropertyValue.string value) = value
canonical (PropertyValue.timestamp value) = value
canonical (PropertyValue.decimal value) = value
canonical (PropertyValue.vector value) = value
canonical (PropertyValue.time_series value) = value
canonical (PropertyValue.geo_point value) = value
canonical (PropertyValue.geo_shape value) = value
canonical (PropertyValue.media value) = value
canonical (PropertyValue.boolean true) = ascii "true"
canonical (PropertyValue.boolean false) = ascii "false"
canonical (PropertyValue.integer value) = show_int show_nat value

-- `a.cmp(b)` of texts, of integers and of Booleans.
abbrev pub cmp_str : Str → Str → Ordering
unfolding str_lt str_eq
cmp_str a b = if str_lt a b then Ordering.lt else if str_eq a b then Ordering.eq else Ordering.gt

abbrev pub cmp_int : ℤ → ℤ → Ordering
cmp_int a b = compare (above a + below b) (below a + above b)

abbrev pub cmp_bool : Bool → Bool → Ordering
cmp_bool false true = Ordering.lt
cmp_bool true false = Ordering.gt
cmp_bool a b = Ordering.eq

abbrev pub cmp_units : Str → Str → Result Error Ordering
unfolding decimal_units
cmp_units a b = do left ← decimal_units a; right ← decimal_units b; ok (cmp_int left right)

unfoldable pub cmp_values : PropertyType → PropertyValue → PropertyValue → Result Error Ordering
unfolding cmp_str cmp_units
cmp_values PropertyType.string (PropertyValue.string a) (PropertyValue.string b) = ok (cmp_str a b)
cmp_values PropertyType.timestamp (PropertyValue.timestamp a) (PropertyValue.timestamp b) =
    ok (cmp_str a b)
cmp_values PropertyType.integer (PropertyValue.integer a) (PropertyValue.integer b) =
    ok (cmp_int a b)
cmp_values PropertyType.boolean (PropertyValue.boolean a) (PropertyValue.boolean b) =
    ok (cmp_bool a b)
cmp_values (PropertyType.decimal scale) (PropertyValue.decimal a) (PropertyValue.decimal b) =
    cmp_units a b
cmp_values PropertyType.time_series (PropertyValue.time_series a) (PropertyValue.time_series b) =
    ok (cmp_str a b)
cmp_values PropertyType.geo_point (PropertyValue.geo_point a) (PropertyValue.geo_point b) =
    ok (cmp_str a b)
cmp_values PropertyType.geo_shape (PropertyValue.geo_shape a) (PropertyValue.geo_shape b) =
    ok (cmp_str a b)
cmp_values PropertyType.media (PropertyValue.media a) (PropertyValue.media b) = ok (cmp_str a b)
cmp_values (PropertyType.vector dim) (PropertyValue.vector a) (PropertyValue.vector b) =
    ok (cmp_str a b)
cmp_values type left right = err mixed_types

abbrev pub is_less : Ordering → Bool
is_less Ordering.lt = true
is_less other = false

abbrev pub is_greater : Ordering → Bool
is_greater Ordering.gt = true
is_greater other = false

module _ (f : Floats) where
  unfoldable pub parse_canonical : PropertyType → Str → Result Error PropertyValue
  unfolding parse_boolean parse_integer check_timestamp parse_decimal Geo.parse_vector
      parse_time_series Geo.parse_geo_point Geo.parse_geo_shape parse_media
  parse_canonical PropertyType.string raw = ok (PropertyValue.string raw)
  parse_canonical PropertyType.boolean raw = parse_boolean raw
  parse_canonical PropertyType.integer raw = parse_integer raw
  parse_canonical PropertyType.timestamp raw =
      check_timestamp raw >> ok (PropertyValue.timestamp raw)
  parse_canonical (PropertyType.decimal scale) raw = parse_decimal raw scale
  parse_canonical (PropertyType.vector dim) raw = Geo.parse_vector f raw dim
  parse_canonical PropertyType.time_series raw = parse_time_series raw
  parse_canonical PropertyType.geo_point raw = Geo.parse_geo_point f raw
  parse_canonical PropertyType.geo_shape raw = Geo.parse_geo_shape f raw
  parse_canonical PropertyType.media raw = parse_media raw

  unfoldable pub canonicalize_write : PropertyType → Str → Result Error Str
  unfolding parse_timestamp_millis format_utc_millis parse_canonical canonical
  canonicalize_write PropertyType.timestamp raw = parse_timestamp_millis raw >>= format_utc_millis
  canonicalize_write other raw = parse_canonical other raw >>= λ value. ok (canonical value)

  unfoldable pub cmp_canonical : PropertyType → Str → Str → Result Error Ordering
  unfolding parse_canonical cmp_values
  cmp_canonical type left right = do
    left ← parse_canonical type left
    right ← parse_canonical type right
    cmp_values type left right

  -- A bound of a range: the value is on the wrong side of it.
  abbrev pub beyond :
      (Ordering → Bool) → PropertyType → PropertyValue → Option Str → Result Error Bool
  unfolding parse_canonical cmp_values
  beyond wrong type value none = ok false
  beyond wrong type value (some bound) = do
    bound ← parse_canonical type bound
    order ← cmp_values type value bound
    ok (wrong order)

  unfoldable pub value_in_range :
      PropertyType → PropertyValue → Option Str → Option Str → Result Error Bool
  unfolding beyond
  value_in_range type value min max = do
    below_min ← beyond is_less type value min
    (if below_min
        then ok false
        else (do above_max ← beyond is_greater type value max; ok (not above_max)))

  -- The types with an order of their own.
  unfoldable pub ordered_in_range : PropertyType → Str → Option Str → Option Str → Result Error Bool
  unfolding parse_canonical value_in_range
  ordered_in_range type stored min max = elim (parse_canonical type stored) [
    | err e ↦ ok false
    | ok value ↦ value_in_range type value min max
  ]

  unfoldable pub in_range : PropertyType → Str → Option Str → Option Str → Result Error Bool
  unfolding ordered_in_range time_series_overlaps
  in_range PropertyType.boolean stored min max = err range_undefined
  in_range (PropertyType.vector dim) stored min max = err range_undefined
  in_range PropertyType.geo_point stored min max = err range_undefined
  in_range PropertyType.geo_shape stored min max = err range_undefined
  in_range PropertyType.media stored min max = err range_undefined
  in_range PropertyType.time_series stored min max = time_series_overlaps stored min max
  in_range type stored min max = ordered_in_range type stored min max

  abbrev pub inside : Envelope f → f.F × f.F → Bool
  inside box (lat, lon) =
      f.le box.min_lat lat && f.le lat box.max_lat && f.le box.min_lon lon && f.le lon box.max_lon

  abbrev pub meets : Envelope f → Envelope f → Bool
  meets box shape =
      f.le shape.min_lat box.max_lat
      && f.le box.min_lat shape.max_lat
      && f.le shape.min_lon box.max_lon
      && f.le box.min_lon shape.max_lon

  abbrev pub in_box : PropertyType → Str → Envelope f → Result Error Bool
  unfolding Geo.geo_point_parts Geo.geo_shape_parts
  in_box PropertyType.geo_point stored box = elim (Geo.geo_point_parts f stored) [
    | err e ↦ ok false
    | ok point ↦ ok (inside box point)
  ]
  in_box PropertyType.geo_shape stored box = elim (Geo.geo_shape_parts f stored) [
    | err e ↦ ok false
    | ok (uri, shape) ↦ ok (meets box shape)
  ]
  in_box other stored box = err bbox_undefined

  unfoldable pub in_bbox : PropertyType → Str → Str → Str → Str → Str → Result Error Bool
  unfolding Geo.parse_geo_coord in_box
  in_bbox type stored min_lat min_lon max_lat max_lon = do
    min_lat ← Geo.parse_lat f min_lat
    min_lon ← Geo.parse_lon f min_lon
    max_lat ← Geo.parse_lat f max_lat
    max_lon ← Geo.parse_lon f max_lon
    (if f.lt max_lat min_lat || f.lt max_lon min_lon
        then err bbox_reversed
        else in_box type stored
            (record { min_lat = min_lat; min_lon = min_lon; max_lat = max_lat; max_lon = max_lon }))
