-- ===== src/Log/Read.antt =====
-- Reading the committed pages of a log back (src/log.rs), for a log without keys: the superblock gives
-- the pages that count, and each of them is checked and decoded.
use mikura.Common.{ℕ, zero, suc, ◌+◌, ◌-◌, ◌*◌, not, Option, none, some}
use mikura.Common.{
  List, [], ◌++◌, length, take, drop, ltb, if◌then◌else◌, Result, ok, err, ◌>>=◌, ◌>>◌, guard,
}
use mikura.Common.Text.{Str, str_eq}
use mikura.Record.{ObjectRecord}
use mikura.Log.Body.{is_empty}
use mikura.Log.Page.{
  Crc, page_len, pages_end, v3_magic, verify_page, decode_data_page, parse_superblock,
  parse_v1_superblock, superblock_magic,
}
use mikura.Errors.{
  Error, missing_superblock, short_read, committed_missing, past_committed, no_keys,
  namespace_required,
}

module _ (c : Crc) where
  -- The loop over `count` pages, on the bytes from the first of them on.
  unfoldable pub visit_pages : ℕ → List ℕ → Option Str → Result Error (List ObjectRecord)
  visit_pages zero rest v1_namespace = ok []
  visit_pages (suc count) rest v1_namespace = do
    guard (not (ltb (length rest) page_len)) short_read
    verify_page c (take page_len rest)
    records ← decode_data_page (take page_len rest) v1_namespace
    later ← visit_pages count (drop page_len rest) v1_namespace
    ok (records ++ later)

  abbrev pub parse : List ℕ → Option Str → Result Error ℕ
  parse superblock none = parse_superblock c superblock
  parse superblock (some namespace) = parse_v1_superblock c superblock

  -- Only an encrypted log needs keys; a version 1 reader does not look at the magic again.
  abbrev pub without_keys : List ℕ → Option Str → Result Error (Unit {0})
  without_keys superblock (some namespace) = ok tt
  without_keys superblock none = do
    found ← superblock_magic c superblock
    guard (not (str_eq found v3_magic)) no_keys

  unfoldable pub read_committed_records : List ℕ → Option Str → ℕ → Result Error (List ObjectRecord)
  unfolding visit_pages
  read_committed_records content v1_namespace after_page = do
    guard (not (ltb (length content) page_len)) missing_superblock
    committed ← parse (take page_len content) v1_namespace
    without_keys (take page_len content) v1_namespace
    guard (not (ltb (length content) (pages_end committed))) committed_missing
    guard (not (ltb committed after_page)) past_committed
    visit_pages (committed - after_page) (drop (page_len * (after_page + 1)) content) v1_namespace

  abbrev pub read_records : List ℕ → Result Error (List ObjectRecord)
  read_records content = read_committed_records content none 0

  abbrev pub read_records_after : List ℕ → ℕ → Result Error (List ObjectRecord)
  read_records_after content after_page = read_committed_records content none after_page

  unfoldable pub read_v1_records : List ℕ → Str → Result Error (List ObjectRecord)
  unfolding read_committed_records
  read_v1_records content namespace =
      if is_empty namespace
      then err namespace_required
      else read_committed_records content (some namespace) 0
