-- ===== src/Value/Forms/Stable.antt =====
-- What is stored on a write can be read, stands for its own text, and is left as it is by the next write.
use mikura.Common.{ℕ, ◌≡◌, refl, sym, ap, subst, ◌∙◌, arith, not, ◌&&◌}
use mikura.Common.{List, [], ◌∷◌, length, retain, leb, Result, ok, ◌>>=◌, >>=-eq-ok, else-ok, ok-eq}
use mikura.Common.Text.{Str, ascii, str_lt, str_eq_iff}
use mikura.Common.Ints.{show_int}
use mikura.Common.Strings.{show_nat, split_char, is_digit}
use mikura.Errors.{Error}
use mikura.Value.Types.{PropertyType, PropertyValue}
use mikura.Value.Timestamp.{parse_timestamp_millis}
use mikura.Value.Timestamp.RoundTrip.{format_utc_millis-parse_timestamp_millis}
use mikura.Value.Numbers.{parse_boolean, parse_integer, parse_decimal, is_canonical_decimal}
use mikura.Value.Numbers.Integers.{parse_integer-show_int, parse_integer-IsInteger}
use mikura.Value.References.{
  parse_media, parse_ref_token, check_timestamp, parse_time_series, series_of,
}
use mikura.Value.Geo
use mikura.Value.Geo.{Floats}
use mikura.Value.Forms.{canonical, parse_canonical, canonicalize_write}

-- Readers that keep the text.
abbrev Keeps : (Str → Result Error PropertyValue) → Type 0
Keeps reader = (raw : Str) (v : PropertyValue) → reader raw ≡ ok v → canonical v ≡ raw

parse_boolean-Keeps : Keeps parse_boolean
unfolding parse_boolean canonical
parse_boolean-Keeps raw v e =
    ground (arith, str_eq_iff raw (ascii "true"), str_eq_iff raw (ascii "false"))

parse_decimal-Keeps : (scale : ℕ) → Keeps (λ raw. parse_decimal raw scale)
unfolding parse_decimal canonical
parse_decimal-Keeps scale raw v e =
    let (form, rest) = else-ok (not (is_canonical_decimal raw scale)) _ _ e in
    let (count, last) =
      else-ok (not (leb 1 (length (retain is_digit raw)) && leb (length (retain is_digit raw)) 38))
        _ _ rest in
    let same : PropertyValue.decimal raw ≡ v = cc in subst (λ w. canonical w ≡ raw) same refl

parse_media-Keeps : Keeps parse_media
unfolding parse_media canonical
parse_media-Keeps raw v e =
    let (done, ref, rest) = >>=-eq-ok (parse_ref_token raw) _ e in
    let same : PropertyValue.media raw ≡ v = cc in subst (λ w. canonical w ≡ raw) same refl

series_of-Keeps :
    (raw : Str) (words : List Str) (v : PropertyValue)
    → series_of raw words ≡ ok v
    → canonical v ≡ raw
unfolding series_of canonical
series_of-Keeps raw [] v e = cc
series_of-Keeps raw (a ∷ []) v e = cc
series_of-Keeps raw (a ∷ b ∷ []) v e = cc
series_of-Keeps raw (a ∷ b ∷ c ∷ d ∷ words) v e = cc
series_of-Keeps raw (uri ∷ start ∷ end ∷ []) v e =
    let (u, p, rest) = >>=-eq-ok (parse_ref_token uri) _ e in
    let (s, q, rest) = >>=-eq-ok (check_timestamp start) _ rest in
    let (t, r, rest) = >>=-eq-ok (check_timestamp end) _ rest in
    let (ordered, rest) = else-ok (str_lt end start) _ _ rest in
    let same : PropertyValue.time_series raw ≡ v = ok-eq _ _ rest in
    subst (λ w. canonical w ≡ raw) same refl

parse_time_series-Keeps : Keeps parse_time_series
unfolding parse_time_series
parse_time_series-Keeps raw v e = series_of-Keeps raw (split_char 32 raw) v e

module _ (f : Floats) where
  parse_vector-Keeps : (dim : ℕ) → Keeps (λ raw. Geo.parse_vector f raw dim)
  unfolding Geo.parse_vector canonical
  parse_vector-Keeps dim raw v e =
      let (parts, p, rest) = >>=-eq-ok (Geo.vector_components f raw dim) _ e in
      let same : PropertyValue.vector raw ≡ v = cc in subst (λ w. canonical w ≡ raw) same refl

  parse_geo_point-Keeps : Keeps (Geo.parse_geo_point f)
  unfolding Geo.parse_geo_point canonical
  parse_geo_point-Keeps raw v e =
      let (parts, p, rest) = >>=-eq-ok (Geo.geo_point_parts f raw) _ e in
      let same : PropertyValue.geo_point raw ≡ v = cc in subst (λ w. canonical w ≡ raw) same refl

  parse_geo_shape-Keeps : Keeps (Geo.parse_geo_shape f)
  unfolding Geo.parse_geo_shape canonical
  parse_geo_shape-Keeps raw v e =
      let (parts, p, rest) = >>=-eq-ok (Geo.geo_shape_parts f raw) _ e in
      let same : PropertyValue.geo_shape raw ≡ v = cc in subst (λ w. canonical w ≡ raw) same refl

  -- A stored text: it is read as a value that it is the text of, and a write leaves it.
  pub record IsStored (type : PropertyType) (s : Str) : Type 0 where
    pub value : PropertyValue
    pub read : parse_canonical f type s ≡ ok value
    pub shown : canonical value ≡ s
    pub again : canonicalize_write f type s ≡ ok s

  -- A reader that keeps the text, and the write that goes through it.
  IsStored-Keeps :
      (type : PropertyType) (raw s : Str)
      → Keeps (parse_canonical f type)
      → ((t : Str)
          → canonicalize_write f type t
            ≡ (parse_canonical f type t >>= λ value. ok (canonical value)))
      → canonicalize_write f type raw ≡ ok s
      → IsStored type s
  IsStored-Keeps type raw s keeps by_read e =
      let (v, read, rest) = >>=-eq-ok (parse_canonical f type raw) _ (sym (by_read raw) ∙ e) in
      let shown : canonical v ≡ s = ok-eq _ _ rest in
      let same : raw ≡ s = sym (keeps raw v read) ∙ shown in
      subst (IsStored type) same (record {
        value = v;
        read = read;
        shown = keeps raw v read;
        again =
            by_read raw
            ∙ ap (λ r. r >>= λ value. ok (canonical value)) read
            ∙ ap ok (keeps raw v read);
      })

  IsStored-integer :
      (raw s : Str)
      → canonicalize_write f PropertyType.integer raw ≡ ok s
      → IsStored PropertyType.integer s
  unfolding canonicalize_write parse_canonical canonical
  IsStored-integer raw s e =
      let (v, read, rest) = >>=-eq-ok (parse_integer raw) _ e in
      let i = parse_integer-IsInteger raw v read in
      let shown : show_int show_nat i.value ≡ s = ap canonical (sym i.eq) ∙ ok-eq _ _ rest in
      let back = parse_integer-show_int i.value i.range in
      subst (IsStored PropertyType.integer) shown (record {
        value = PropertyValue.integer i.value;
        read = back;
        shown = refl;
        again = ap (λ r. r >>= λ value. ok (canonical value)) back;
      })

  IsStored-timestamp :
      (raw s : Str)
      → canonicalize_write f PropertyType.timestamp raw ≡ ok s
      → IsStored PropertyType.timestamp s
  unfolding canonicalize_write parse_canonical check_timestamp canonical
  IsStored-timestamp raw s e =
      let (z, read, shown) = >>=-eq-ok (parse_timestamp_millis raw) _ e in
      let (form, back) = format_utc_millis-parse_timestamp_millis z s shown in
      record {
        value = PropertyValue.timestamp s;
        read = rw form (rw back refl);
        shown = refl;
        again = rw back shown;
      }

  -- For every type and whatever the floats are: a text that canonicalize_write stores is read by
  -- parse_canonical as a value whose canonical form is that text, and a second canonicalize_write
  -- returns it as it is.
  pub canonicalize_write-IsStored :
      (type : PropertyType) (raw s : Str) → canonicalize_write f type raw ≡ ok s → IsStored type s
  unfolding canonicalize_write parse_canonical canonical
  canonicalize_write-IsStored PropertyType.timestamp raw s e = IsStored-timestamp raw s e
  canonicalize_write-IsStored PropertyType.integer raw s e = IsStored-integer raw s e
  canonicalize_write-IsStored PropertyType.string raw s e =
      IsStored-Keeps PropertyType.string raw s (λ t v p. cc) (λ t. refl) e
  canonicalize_write-IsStored PropertyType.boolean raw s e =
      IsStored-Keeps PropertyType.boolean raw s parse_boolean-Keeps (λ t. refl) e
  canonicalize_write-IsStored (PropertyType.decimal scale) raw s e =
      IsStored-Keeps (PropertyType.decimal scale) raw s (parse_decimal-Keeps scale) (λ t. refl) e
  canonicalize_write-IsStored (PropertyType.vector dim) raw s e =
      IsStored-Keeps (PropertyType.vector dim) raw s (parse_vector-Keeps dim) (λ t. refl) e
  canonicalize_write-IsStored PropertyType.time_series raw s e =
      IsStored-Keeps PropertyType.time_series raw s parse_time_series-Keeps (λ t. refl) e
  canonicalize_write-IsStored PropertyType.geo_point raw s e =
      IsStored-Keeps PropertyType.geo_point raw s parse_geo_point-Keeps (λ t. refl) e
  canonicalize_write-IsStored PropertyType.geo_shape raw s e =
      IsStored-Keeps PropertyType.geo_shape raw s parse_geo_shape-Keeps (λ t. refl) e
  canonicalize_write-IsStored PropertyType.media raw s e =
      IsStored-Keeps PropertyType.media raw s parse_media-Keeps (λ t. refl) e
