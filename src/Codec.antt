-- ===== src/Codec.antt =====
-- src/codec.rs: length-prefixed strings and little-endian integers. A writer takes the `Vec<u8>` so
-- far and returns it extended; a reader works on a cursor (Common/Reader).
pub mod Laws
pub mod Csv
use mikura.Common.{ℕ, ◌^◌, List, ◌++◌, length, take, drop}
use mikura.Common.{ltb, if◌then◌else◌, Result, ok, err}
use mikura.Common.Words.{to_le, of_le}
use mikura.Common.Text.{Str, is_utf8}
use mikura.Common.Reader.{Reader, pure, ◌>>=◌}
use mikura.Errors.{Error, string_too_long, short_string, not_utf8, short_body}

-- `u16::try_from(value.len())` refuses 2^16 and more.
unfoldable pub write_str : List ℕ → Str → Result Error (List ℕ)
write_str body value =
    if ltb (length value) (2 ^ 16)
    then ok (body ++ (to_le 2 (length value) ++ value))
    else err string_too_long

-- `take::<N>`
unfoldable pub take_bytes : ℕ → Reader Error (List ℕ)
take_bytes n cur = if ltb (length cur) n then err short_body else ok (take n cur, drop n cur)

-- The bytes of a string whose length is known, and their validity.
unfoldable pub read_text : ℕ → Reader Error Str
read_text len cur =
    if ltb (length cur) len
    then err short_string
    else if is_utf8 (take len cur)
    then ok (take len cur, drop len cur)
    else err not_utf8

unfoldable pub read_str : Reader Error Str
unfolding take_bytes read_text
read_str = do raw ← take_bytes 2; read_text (of_le raw)

unfoldable pub read_le : ℕ → Reader Error ℕ
unfolding take_bytes
read_le n = do raw ← take_bytes n; pure (of_le raw)

unfoldable pub read_u32 : Reader Error ℕ
unfolding read_le
read_u32 = read_le 4

unfoldable pub read_u64 : Reader Error ℕ
unfolding read_le
read_u64 = read_le 8
