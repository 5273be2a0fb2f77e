-- ===== src/Log/Body.antt =====
-- The body of a record in the log, and its frame: `encode_body`, `framed_record` and `decode_body`.
pub mod Bytes
use mikura.Common.{ℕ, zero, suc, ◌+◌, ◌^◌, Bool, true, false, not, Option, none, some}
use mikura.Common.{List, [], ◌∷◌, ◌++◌, map, length, ltb, ◌==◌, if◌then◌else◌}
use mikura.Common.{Result, ok, err, ◌>>=◌, ok_or}
use mikura.Common.Words.{to_le, of_le}
use mikura.Common.Text.{Str, sort}
use mikura.Common.Maps.{Map, get, insert, str_key}
use mikura.Common.Reader.{Reader, pure, fail, peek}
use mikura.Codec.{write_str, take_bytes, read_str, read_le}
use mikura.Record.{ObjectRecord, Props, nonempty, effective}
use mikura.Errors.{
  Error, namespace_required, too_many_props, record_too_large, zero_schema_version,
  trailing_body_bytes, panic,
}

abbrev pub is_empty {ℓ} : {A : Type ℓ} → List A → Bool
is_empty [] = true
is_empty (x ∷ xs) = false

-- `u16::try_from(n)`, here as the two bytes that are written next.
abbrev pub u16_le : ℕ → Error → Result Error (List ℕ)
u16_le n e = if ltb n (2 ^ 16) then ok (to_le 2 n) else err e

abbrev pub bool_byte : Bool → ℕ
bool_byte b = if b then 1 else 0

unfoldable pub framed_record : List ℕ → Result Error (List ℕ)
framed_record body = do len ← u16_le (length body) record_too_large; ok (len ++ body)

-- The loop over the sorted keys; `expect("prop")` panics on a key that the map lacks.
unfoldable pub write_props : List ℕ → List Str → Props → Result Error (List ℕ)
write_props body [] props = ok body
write_props body (k ∷ ks) props = do
  body ← write_str body k
  v ← ok_or (get k props) panic
  body ← write_str body v
  write_props body ks props

unfoldable pub or_empty : Option Str → Str
or_empty none = []
or_empty (some id) = id

-- The Action id and the schema version, where they are not the defaults.
unfoldable pub write_trailer : List ℕ → Option Str → ℕ → Result Error (List ℕ)
unfolding or_empty
write_trailer body action_id version =
    if ltb 1 version
    then (do body ← write_str body (or_empty action_id); ok (body ++ to_le 4 version))
    else elim action_id [ some id ↦ write_str body id | none ↦ ok body ]

abbrev pub keys_of : Props → List Str
keys_of [] = []
keys_of ((k, v) ∷ m) = k ∷ keys_of m

unfoldable pub encode_body : ObjectRecord → Result Error (List ℕ)
encode_body r = if is_empty r.namespace then err namespace_required else do
  body ← write_str (to_le 8 r.gen ++ (bool_byte r.hidden ∷ [])) r.namespace
  body ← write_str body r.kind
  body ← write_str body r.key
  nprops ← u16_le (length r.props) too_many_props
  body ← write_props (body ++ nprops) (sort (keys_of r.props)) r.props
  write_trailer body (nonempty r.action_id) (effective r.schema_version)
