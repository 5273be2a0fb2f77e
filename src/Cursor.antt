-- ===== src/Cursor.antt =====
-- src/page.rs: the opaque cursor of a snapshot page. It binds the restriction, the query and the stamp
-- of the live writer (committed pages, written pages, bytes used in the current page). The body is in
-- hexadecimal (Cursor/Hex), and the query is bound by its fingerprint (Cursor/Fingerprint).
pub mod Fingerprint
pub mod Hex
pub mod RoundTrip
use mikura.Common.{ℕ, zero, suc, ◌+◌, ◌^◌, Bool, true, false, not, Option, none, some}
use mikura.Common.{
  List, [], ◌∷◌, ◌++◌, length, take, drop, ltb, ◌==◌, if◌then◌else◌, ◌&&◌, ◌||◌, Result, ok, err,
}
use mikura.Common.Words.{to_le, of_le}
use mikura.Common.Strings.{strip_prefix}
use mikura.Common.Text.{Str, str_eq, is_utf8, ascii}
use mikura.Common.Reader.{Reader, pure, fail, peek, ◌>>=◌}
use mikura.Request.{EvaluateRequest}
use mikura.Log.Body.{bool_byte, is_empty}
use Fingerprint.{query_fingerprint, write_bytes, write_str}
use Hex.{hex_encode, hex_decode}
use mikura.Errors.{
  Error, cursor_not_token, cursor_malformed, cursor_version, cursor_truncated, cursor_stale,
  cursor_mismatch,
}

abbrev pub cursor_prefix : Str
cursor_prefix = ascii "mkc1:"

-- Per sort key, whether the value is missing, and the stored value.
abbrev pub Position : Type 0
Position = Bool × Str

pub record PageCursor : Type 0 where
  pub after_key : Str
  pub after : List Position

pub record Stamp : Type 0 where
  pub committed : ℕ
  pub written : ℕ
  pub used : ℕ

unfoldable pub write_positions : List ℕ → List Position → List ℕ
write_positions body [] = body
write_positions body ((missing, value) ∷ after) =
    write_positions (write_str (body ++ (bool_byte missing ∷ [])) value) after

-- `after.len() as u8`
unfoldable pub encode_cursor : EvaluateRequest → Stamp → Str → List Position → Str
encode_cursor request stamp after_key after =
    let body : List ℕ =
      (((2 ∷ []) ++ to_le 4 stamp.committed) ++ to_le 4 stamp.written) ++ to_le 4 stamp.used in
    let body : List ℕ = write_str (write_bytes body (query_fingerprint request)) after_key in
    cursor_prefix ++ hex_encode (write_positions (body ++ to_le 1 (length after)) after)

unfoldable pub read_u8 : Reader Error ℕ
read_u8 [] = err cursor_truncated
read_u8 (b ∷ rest) = ok (b, rest)

unfoldable pub split : ℕ → Reader Error (List ℕ)
split n cur = if ltb (length cur) n then err cursor_truncated else ok (take n cur, drop n cur)

unfoldable pub read_u32 : Reader Error ℕ
unfolding split
read_u32 = do head ← split 4; pure (of_le head)

unfoldable pub read_bytes : Reader Error (List ℕ)
unfolding read_u32 split
read_bytes = do len ← read_u32; split len

unfoldable pub as_text : List ℕ → Reader Error Str
as_text bytes = if is_utf8 bytes then pure bytes else fail cursor_malformed

unfoldable pub read_str : Reader Error Str
unfolding read_bytes as_text
read_str = do bytes ← read_bytes; as_text bytes

unfoldable pub flag : ℕ → Reader Error Bool
flag zero = pure false
flag (suc zero) = pure true
flag (suc (suc n)) = fail cursor_malformed

unfoldable pub read_positions : ℕ → Reader Error (List Position)
unfolding flag
read_positions zero = pure []
read_positions (suc n) = do
  byte ← read_u8
  missing ← flag byte
  value ← read_str
  rest ← read_positions n
  pure ((missing, value) ∷ rest)

-- A version 1 token holds one position and no count.
unfoldable pub read_parts : ℕ → Reader Error ℕ
read_parts version = if version == 1 then pure 1 else read_u8

abbrev pub same_stamp : Stamp → Stamp → Bool
same_stamp s t = (s.committed == t.committed) && (s.written == t.written) && (s.used == t.used)

-- The tests at the end of `decode_cursor`.
unfoldable pub accept :
    EvaluateRequest → Stamp → Stamp → List ℕ → PageCursor → Result Error PageCursor
accept request stamp found fingerprint cursor =
    if not (same_stamp found stamp)
    then err cursor_stale
    else if not (str_eq fingerprint (query_fingerprint request))
    then err cursor_mismatch
    else ok cursor

unfoldable pub read_cursor : EvaluateRequest → Stamp → Reader Error PageCursor
unfolding accept
read_cursor request stamp = do
  version ← read_u8
  if not (version == 1) && not (version == 2) then fail cursor_version else do
    committed ← read_u32
    written ← read_u32
    used ← read_u32
    fingerprint ← read_bytes
    after_key ← read_str
    parts ← read_parts version
    after ← read_positions parts
    cur ← peek
    if is_empty cur
        then (λ cur.
            elim (accept request stamp
              (record { committed = committed; written = written; used = used }) fingerprint
              (record { after_key = after_key; after = after })) [
                | ok c ↦ ok (c, cur)
                | err e ↦ err e
              ])
        else fail cursor_malformed

unfoldable pub decode_cursor : Str → EvaluateRequest → Stamp → Result Error PageCursor
decode_cursor token request stamp = elim (strip_prefix cursor_prefix token) [
  | none ↦ err cursor_not_token
  | some hex ↦ elim (hex_decode hex) [
    | err e ↦ err e
    | ok body ↦ elim (read_cursor request stamp body) [ ok (c, cur) ↦ ok c | err e ↦ err e ]
  ]
]
