-- ===== src/Value/Geo.antt =====
-- The vectors, points and shapes of src/value.rs. Their numbers are of the type f64, which is not the
-- program's: `Floats` names its operations.
use mikura.Common.{ℕ, Bool, true, false, not, ◌||◌}
use mikura.Common.{
  List, [], ◌∷◌, Option, none, some, length, ◌==◌, if◌then◌else◌, Result, ok, err, ok_or, ◌>>=◌,
  ◌>>◌,
}
use mikura.Common.Text.{Str}
use mikura.Common.Strings.{split_char, split_once, contains_char}
use mikura.Errors.{
  Error, vector_length, component_invalid, component_not_finite, distance_not_finite, needs_vector,
  coordinate_invalid, coordinate_out_of_range, not_canonical, point_malformed, shape_malformed,
  shape_reversed,
}
use mikura.Value.Types.{PropertyType, PropertyValue}
use mikura.Value.Numbers.{is_canonical_number}
use mikura.Value.References.{parse_ref_token}

pub record Floats : Type 1 where
  pub F : Type 0
  pub parse : Str → Option F
  pub is_finite : F → Bool
  pub lt : F → F → Bool
  pub le : F → F → Bool
  pub sub : F → F → F
  pub mul : F → F → F
  pub sum : List F → F
  pub of_int : Bool → ℕ → F

module _ (f : Floats) where
  open f use {F}

  abbrev pub component : Str → Result Error F
  unfolding is_canonical_number
  component part = if not (is_canonical_number part) then err not_canonical else (do
    n ← ok_or (f.parse part) component_invalid
    (if not (f.is_finite n) then err component_not_finite else ok n))

  unfoldable pub components : List Str → Result Error (List F)
  unfolding component
  components [] = ok []
  components (part ∷ parts) = do n ← component part; rest ← components parts; ok (n ∷ rest)

  unfoldable pub vector_components : Str → ℕ → Result Error (List F)
  unfolding split_char components
  vector_components raw dim =
      if not (length (split_char 44 raw) == dim)
      then err vector_length
      else components (split_char 44 raw)

  unfoldable pub parse_vector : Str → ℕ → Result Error PropertyValue
  unfolding vector_components
  parse_vector raw dim = vector_components raw dim >>= λ parts. ok (PropertyValue.vector raw)

  -- The squares of the differences, as far as both vectors go.
  unfoldable pub squares : List F → List F → List F
  squares [] right = []
  squares (a ∷ left) [] = []
  squares (a ∷ left) (b ∷ right) = f.mul (f.sub a b) (f.sub a b) ∷ squares left right

  unfoldable pub vector_distance : PropertyType → Str → Str → Result Error F
  unfolding vector_components squares
  vector_distance (PropertyType.vector dim) stored query = do
    left ← vector_components stored dim
    right ← vector_components query dim
    (if not (f.is_finite (f.sum (squares left right)))
        then err distance_not_finite
        else ok (f.sum (squares left right)))
  vector_distance other stored query = err needs_vector

  -- A coordinate between -most and most.
  unfoldable pub parse_geo_coord : Str → ℕ → Result Error F
  unfolding is_canonical_number
  parse_geo_coord raw most = if not (is_canonical_number raw) then err not_canonical else (do
    value ← ok_or (f.parse raw) coordinate_invalid
    (if f.lt value (f.of_int true most) || f.lt (f.of_int false most) value
        then err coordinate_out_of_range
        else ok value))

  abbrev pub parse_lat : Str → Result Error F
  unfolding parse_geo_coord
  parse_lat raw = parse_geo_coord raw 90

  abbrev pub parse_lon : Str → Result Error F
  unfolding parse_geo_coord
  parse_lon raw = parse_geo_coord raw 180

  unfoldable pub geo_point_parts : Str → Result Error (F × F)
  unfolding split_once parse_lat parse_lon
  geo_point_parts raw = elim (split_once 44 raw) [
    | none ↦ err point_malformed
    | some (lat, lon) ↦
        if contains_char 44 lat || contains_char 44 lon
        then err point_malformed
        else (do lat ← parse_lat lat; lon ← parse_lon lon; ok (lat, lon))
  ]

  unfoldable pub parse_geo_point : Str → Result Error PropertyValue
  unfolding geo_point_parts
  parse_geo_point raw = geo_point_parts raw >>= λ parts. ok (PropertyValue.geo_point raw)

  pub record Envelope : Type 0 where
    pub min_lat : F
    pub min_lon : F
    pub max_lat : F
    pub max_lon : F

  -- The four numbers of an envelope.
  unfoldable pub envelope_of : List Str → Result Error Envelope
  unfolding parse_lat parse_lon
  envelope_of (a ∷ b ∷ c ∷ d ∷ []) = do
    min_lat ← parse_lat a
    min_lon ← parse_lon b
    max_lat ← parse_lat c
    max_lon ← parse_lon d
    (if f.lt max_lat min_lat || f.lt max_lon min_lon
        then err shape_reversed
        else ok
            (record { min_lat = min_lat; min_lon = min_lon; max_lat = max_lat; max_lon = max_lon }))
  envelope_of other = err shape_malformed

  unfoldable pub geo_shape_parts : Str → Result Error (Str × Envelope)
  unfolding split_once parse_ref_token split_char envelope_of
  geo_shape_parts raw = elim (split_once 32 raw) [
    | none ↦ err shape_malformed
    | some (uri, envelope) ↦ (do
      parse_ref_token uri
      box ← envelope_of (split_char 44 envelope)
      ok (uri, box))
  ]

  unfoldable pub parse_geo_shape : Str → Result Error PropertyValue
  unfolding geo_shape_parts
  parse_geo_shape raw = geo_shape_parts raw >>= λ parts. ok (PropertyValue.geo_shape raw)
