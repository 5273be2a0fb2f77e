-- ===== src/Log/Decode.antt =====
-- `decode_body` of src/log.rs.
pub mod RoundTrip
use mikura.Common.{ℕ, zero, suc, Bool, true, false, not, Option, none, some}
use mikura.Common.{List, [], ◌∷◌, length, ◌==◌, if◌then◌else◌, Result, ok, err}
use mikura.Common.Words.{of_le}
use mikura.Common.Text.{Str}
use mikura.Common.Maps.{insert, str_key}
use mikura.Common.Reader.{Reader, pure, fail, peek, ◌>>=◌}
use mikura.Codec.{take_bytes, read_str, read_le}
use mikura.Record.{ObjectRecord, Props, nonempty}
use mikura.Log.Body.{is_empty}
use mikura.Errors.{Error, namespace_required, zero_schema_version, trailing_body_bytes}

-- A `MIKURAV1` body has no namespace: the caller supplies it.
unfoldable pub read_namespace : Option Str → Reader Error Str
read_namespace (some namespace) = pure namespace
read_namespace none = read_str

unfoldable pub read_props : ℕ → Props → Reader Error Props
read_props zero props = pure props
read_props (suc n) props = do k ← read_str; v ← read_str; read_props n (insert k v props)

-- A version after the Action id, if bytes are left.
unfoldable pub read_version : Reader Error ℕ
read_version = do
  cur ← peek
  if is_empty cur
      then pure 1
      else if length cur == 4
      then (do version ← read_le 4; if version == 0 then fail zero_schema_version else pure version)
      else fail trailing_body_bytes

unfoldable pub read_trailer : Reader Error (Option Str × ℕ)
read_trailer = do
  cur ← peek
  if is_empty cur
      then pure (none, 1)
      else (do id ← read_str; version ← read_version; pure (nonempty (some id), version))

unfoldable pub read_body : Option Str → Reader Error ObjectRecord
read_body v1_namespace = do
  gen ← read_le 8
  flag ← take_bytes 1
  namespace ← read_namespace v1_namespace
  if is_empty namespace then fail namespace_required else do
    kind ← read_str
    key ← read_str
    nprops ← read_le 2
    props ← read_props nprops []
    trailer ← read_trailer
    pure (record {
      gen = gen;
      namespace = namespace;
      kind = kind;
      key = key;
      hidden = not (of_le flag == 0);
      action_id = trailer.0;
      props = props;
      schema_version = trailer.1;
    })

unfoldable pub decode_body : List ℕ → Option Str → Result Error ObjectRecord
decode_body body v1_namespace = elim (read_body v1_namespace body) [
  | ok (r, rest) ↦ ok r
  | err e ↦ err e
]
