-- ===== src/Value/References.antt =====
-- The references of src/value.rs to media and to time series.
use mikura.Common.{ℕ, Bool, true, false, not, ◌&&◌, ◌||◌}
use mikura.Common.{
  List, [], ◌∷◌, Option, none, some, any, length, ltb, ◌==◌, if◌then◌else◌, Result, ok, err, ◌>>=◌,
  ◌>>◌, guard,
}
use mikura.Common.Text.{Str, str_lt}
use mikura.Common.Strings.{split_char}
use mikura.Errors.{
  Error, ref_empty, ref_too_long, ref_invalid, series_malformed, series_reversed, not_canonical,
  panic,
}
use mikura.Value.Types.{PropertyValue}
use mikura.Value.Timestamp.{is_canonical_timestamp, parse_timestamp_millis}

abbrev pub is_ascii_whitespace : ℕ → Bool
is_ascii_whitespace b = (b == 32) || (b == 9) || (b == 10) || (b == 12) || (b == 13)

unfoldable pub parse_ref_token : Str → Result Error (Unit {0})
parse_ref_token raw =
    if length raw == 0
    then err ref_empty
    else if ltb 2048 (length raw)
    then err ref_too_long
    else if any (λ b. (b == 44) || is_ascii_whitespace b) raw
    then err ref_invalid
    else ok tt

unfoldable pub parse_media : Str → Result Error PropertyValue
unfolding parse_ref_token
parse_media raw = parse_ref_token raw >> ok (PropertyValue.media raw)

-- A timestamp in its canonical form that names an instant.
unfoldable pub check_timestamp : Str → Result Error (Unit {0})
unfolding is_canonical_timestamp parse_timestamp_millis
check_timestamp raw =
    guard (is_canonical_timestamp raw) not_canonical
    >> (parse_timestamp_millis raw >>= λ millis. ok tt)

-- The words of a series.
unfoldable pub series_of : Str → List Str → Result Error PropertyValue
unfolding parse_ref_token check_timestamp str_lt
series_of raw (uri ∷ start ∷ end ∷ []) = do
  parse_ref_token uri
  check_timestamp start
  check_timestamp end
  (if str_lt end start then err series_reversed else ok (PropertyValue.time_series raw))
series_of raw other = err series_malformed

unfoldable pub parse_time_series : Str → Result Error PropertyValue
unfolding split_char series_of
parse_time_series raw = series_of raw (split_char 32 raw)

abbrev pub check_bound : Option Str → Result Error (Unit {0})
unfolding check_timestamp
check_bound none = ok tt
check_bound (some bound) = check_timestamp bound

abbrev pub bounds_reversed : Option Str → Option Str → Bool
unfolding str_lt
bounds_reversed (some min) (some max) = str_lt max min
bounds_reversed _ _ = false

-- `start` and `end` of the words of a canonical series; its parser has seen to it that they are there.
unfoldable pub overlaps : List Str → Option Str → Option Str → Result Error Bool
unfolding check_bound bounds_reversed str_lt
overlaps (uri ∷ start ∷ end ∷ rest) min max = do
  check_bound min
  check_bound max
  ok (
      not (bounds_reversed min max)
      && (elim min [ none ↦ true | some bound ↦ not (str_lt end bound) ])
      && (elim max [ none ↦ true | some bound ↦ not (str_lt bound start) ]))
overlaps other min max = err panic

unfoldable pub time_series_overlaps : Str → Option Str → Option Str → Result Error Bool
unfolding parse_time_series split_char overlaps
time_series_overlaps stored min max = elim (parse_time_series stored) [
  | err e ↦ ok false
  | ok value ↦ overlaps (split_char 32 stored) min max
]
