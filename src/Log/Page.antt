-- ===== src/Log/Page.antt =====
-- Pages of the log (src/log.rs): 4096 bytes, the checksum of the rest in the first four. A data page
-- holds the number of bytes used and the framed records; page 0 is the superblock.
-- The checksum is that of the crate crc32fast, a parameter here: all that is used of it is that it is
-- a function into the u32s.
pub mod Frames
pub mod Grammar
pub mod Slices
pub mod Superblock
use mikura.Common.{ℕ, zero, suc, ◌+◌, ◌*◌, ◌^◌, ◌<◌, Bool, true, false, not, Option, none, some}
use mikura.Common.{
  List, [], ◌∷◌, ◌++◌, length, take, drop, replicate, ltb, ◌==◌, if◌then◌else◌, ◌||◌, ◌&&◌,
}
use mikura.Common.{Result, ok, err, ◌>>=◌, ◌>>◌, guard}
use mikura.Common.Words.{to_le, of_le, add_u32}
use mikura.Common.Text.{Str, str_eq, ascii}
use mikura.Record.{ObjectRecord}
use mikura.Log.Body.{is_empty}
use mikura.Log.Decode.{decode_body}
use mikura.Errors.{
  Error, short_page, checksum_mismatch, bad_magic, unmigrated, already_namespaced, used_past_page,
  short_record_len, short_record_body, panic,
}

pub record Crc : Type 0 where
  pub hash : List ℕ → ℕ
  pub hash_u32 : (bytes : List ℕ) → hash bytes < 2 ^ 32

abbrev pub page_len : ℕ
page_len = 4096

-- `PAGE as u64 * u64::from(1 + pages)`: the end of this many pages behind the superblock, whose sum is
-- one of u32, as a release build computes it.
abbrev pub pages_end : ℕ → ℕ
pages_end pages = page_len * add_u32 1 pages

abbrev pub crc_len : ℕ
crc_len = 4

abbrev pub page_hdr : ℕ
page_hdr = 6

abbrev pub super_commit_off : ℕ
super_commit_off = 14

abbrev pub magic : Str
magic = ascii "MIKURAV2"

abbrev pub v3_magic : Str
v3_magic = ascii "MIKURAV3"

abbrev pub v1_magic : Str
v1_magic = ascii "MIKURAV1"

-- `page[start..start + bytes.len()].copy_from_slice(bytes)`, where the range lies in the page.
unfoldable pub write_at : ℕ → List ℕ → List ℕ → List ℕ
write_at zero bytes page = bytes ++ drop (length bytes) page
write_at (suc start) bytes [] = []
write_at (suc start) bytes (b ∷ page) = b ∷ write_at start bytes page

-- `page[start..start + n]`
unfoldable pub slice : ℕ → ℕ → List ℕ → List ℕ
slice start n page = take n (drop start page)

-- `vec![0u8; PAGE]`
unfoldable pub zero_page : List ℕ
zero_page = replicate page_len 0

unfoldable pub page_crc : List ℕ → ℕ
page_crc page = of_le (take crc_len page)

unfoldable pub superblock_commit : List ℕ → ℕ
unfolding slice
superblock_commit superblock = of_le (slice super_commit_off 4 superblock)

-- The formats that a store opens.
unfoldable pub require_magic : Str → Result Error (Unit {0})
require_magic found =
    if str_eq found v1_magic
    then err unmigrated
    else if not (str_eq found magic) && not (str_eq found v3_magic)
    then err bad_magic
    else ok tt

module _ (c : Crc) where
  unfoldable pub seal_page : List ℕ → List ℕ
  seal_page page = to_le 4 (c.hash (drop crc_len page)) ++ drop crc_len page

  unfoldable pub verify_page : List ℕ → Result Error (Unit {0})
  unfolding page_crc
  verify_page page =
      if not (length page == page_len)
      then err short_page
      else if not (c.hash (drop crc_len page) == page_crc page)
      then err checksum_mismatch
      else ok tt

  -- `seal_page_bytes` of a log without keys; `used as u16` is cut to two bytes by `to_le`.
  unfoldable pub seal_page_bytes : List ℕ → ℕ → List ℕ
  seal_page_bytes page used = seal_page (write_at crc_len (to_le 2 used) page)

  unfoldable pub superblock_page : ℕ → List ℕ
  superblock_page committed = seal_page (
      write_at super_commit_off (to_le 4 committed)
        (write_at 12 (to_le 2 page_len) (write_at crc_len magic zero_page)))

  -- The copy that a backup publishes.
  unfoldable pub superblock_with_committed : List ℕ → ℕ → Result Error (List ℕ)
  superblock_with_committed page committed = do
    verify_page page
    ok (seal_page (write_at super_commit_off (to_le 4 committed) page))

  unfoldable pub superblock_magic : List ℕ → Result Error Str
  superblock_magic superblock = do verify_page superblock; ok (slice crc_len 8 superblock)

  unfoldable pub parse_superblock : List ℕ → Result Error ℕ
  parse_superblock superblock = do
    found ← superblock_magic superblock
    require_magic found
    ok (superblock_commit superblock)

  unfoldable pub parse_v1_superblock : List ℕ → Result Error ℕ
  parse_v1_superblock superblock = do
    found ← superblock_magic superblock
    if str_eq found magic
        then err already_namespaced
        else if not (str_eq found v1_magic)
        then err bad_magic
        else ok (superblock_commit superblock)

-- The loop over the frames of a page. Each round takes two bytes at least, so a fuel of the number
-- of bytes is enough.
unfoldable pub decode_frames : ℕ → List ℕ → Option Str → Result Error (List ObjectRecord)
decode_frames fuel [] v1_namespace = ok []
decode_frames zero (b ∷ cur) v1_namespace = err panic
decode_frames (suc fuel) (b ∷ []) v1_namespace = err short_record_len
decode_frames (suc fuel) (b ∷ d ∷ cur) v1_namespace =
    let len = of_le (b ∷ d ∷ []) in
    let next = (do
      r ← decode_body (take len cur) v1_namespace
      rs ← decode_frames fuel (drop len cur) v1_namespace
      ok (r ∷ rs)) in
    if ltb (length cur) len then err short_record_body else next

unfoldable pub decode_data_page : List ℕ → Option Str → Result Error (List ObjectRecord)
decode_data_page page v1_namespace =
    let used = of_le (slice crc_len 2 page) in
    if ltb page_len (page_hdr + used)
    then err used_past_page
    else decode_frames used (slice page_hdr used page) v1_namespace
