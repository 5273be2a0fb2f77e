-- ===== src/Log/Writer.antt =====
-- `LogWriter` of src/log.rs, for a log without keys: the page being filled, the counts of pages, and
-- the commit point in the superblock.
--
-- The file is its bytes and its position. A call on the file may fail: `faults` says for each call to
-- come whether it fails, and how many bytes of a write land before it does; with none left, calls
-- succeed. The position after a failed write is behind the bytes that landed.
pub mod Commits
pub mod Files
pub mod Holds
pub mod Poison
pub mod Records
pub mod Recovery
pub mod Session
pub mod Stage
pub mod Turn
use mikura.Common.{ℕ, ◌+◌, ◌-◌, ◌*◌, Bool, true, false, not, Option, none, some, ◌≡◌, ◌^◌}
use mikura.Common.{
  List, [], ◌∷◌, ◌++◌, length, take, drop, replicate, ltb, leb, ◌==◌, if◌then◌else◌, ◌||◌, ◌&&◌,
}
use mikura.Common.{Result, ok, err}
use mikura.Common.Words.{to_le, add_u32, sub_u32}
use mikura.Common.Steps.{Step, pure, fail, look, modify, ◌>>=◌, ◌>>◌}
use mikura.Common.Text.{str_eq}
use mikura.Record.{ObjectRecord}
use mikura.Log.Body.{encode_body, framed_record}
use mikura.Log.Page.{
  Crc, page_len, pages_end, page_hdr, crc_len, magic, v1_magic, v3_magic, write_at, zero_page,
  seal_page, seal_page_bytes, superblock_page, superblock_magic, superblock_commit, slice,
}
use mikura.Errors.{
  Error, uncertain_commit, io_error, record_larger_than_page, unmigrated, bad_magic, no_keys,
  missing_superblock,
}

pub record File : Type 0 where
  pub content : List ℕ
  pub position : ℕ

-- `write_all` at the position: over what is there, with zeros up to a position past the end.
unfoldable pub wrote : List ℕ → File → File
wrote bytes f =
    let old : List ℕ = f.content ++ replicate (f.position - length f.content) 0 in
    record {
      content = take f.position old ++ (bytes ++ drop (f.position + length bytes) old);
      position = f.position + length bytes;
    }

unfoldable pub cut : ℕ → File → File
cut n f = record f { content = take n f.content ++ replicate (n - length f.content) 0 }

pub data SyncPolicy : Type 0 where
  sync_none sync_page : SyncPolicy
  sync_group : ℕ → SyncPolicy

unfoldable pub durable : SyncPolicy → Bool
durable sync_none = false
durable sync_page = true
durable (sync_group n) = true

unfoldable pub group_size : SyncPolicy → ℕ
group_size sync_none = 2 ^ 32 - 1
group_size sync_page = 1
group_size (sync_group n) = n

abbrev pub is_none : SyncPolicy → Bool
is_none sync_none = true
is_none sync_page = false
is_none (sync_group n) = false

pub record LogWriter : Type 0 where
  pub file : File
  pub page : List ℕ
  pub used : ℕ
  pub written : ℕ
  pub committed : ℕ
  pub sync : SyncPolicy
  pub fsync_count : ℕ
  pub hold_commits : Bool
  pub synced : ℕ
  pub failed : Bool
  -- The calls to come that fail, with the bytes that land.
  pub faults : List (Option ℕ)

abbrev pub Log : Type 0 → Type 0
Log A = Step LogWriter Error A

-- One call on the file.
unfoldable pub call : (File → File) → (ℕ → File → File) → Log (Unit {0})
call done torn w = elim w.faults [
  | [] ↦ (record w { file = done w.file }, ok tt)
  | none ∷ faults ↦ (record w { file = done w.file; faults = faults }, ok tt)
  | some n ∷ faults ↦ (record w { file = torn n w.file; faults = faults }, err io_error)
]

abbrev pub unchanged : ℕ → File → File
unchanged n f = f

abbrev pub seek : ℕ → Log (Unit {0})
seek to = call (λ f. record f { position = to }) unchanged

abbrev pub write_all : List ℕ → Log (Unit {0})
write_all bytes = call (wrote bytes) (λ n. wrote (take n bytes))

abbrev pub set_len : ℕ → Log (Unit {0})
set_len n = call (cut n) unchanged

-- A call that leaves the file as it is: `sync_data`, `flush`, `stream_position`.
abbrev pub quiet : Log (Unit {0})
quiet = call (λ f. f) unchanged

unfoldable pub blank : File → SyncPolicy → ℕ → List (Option ℕ) → LogWriter
blank file sync committed faults = record {
  file = file;
  page = zero_page;
  used = 0;
  written = committed;
  committed = committed;
  sync = sync;
  fsync_count = 0;
  hold_commits = false;
  synced = committed;
  failed = false;
  faults = faults;
}

unfoldable pub poison : LogWriter → LogWriter
poison w = record w { failed = true }

unfoldable pub ensure_usable : Log (Unit {0})
ensure_usable w = (w, if w.failed then err uncertain_commit else ok tt)

unfoldable pub has_pending : LogWriter → Bool
has_pending w = ltb 0 w.used || ltb w.committed w.written

unfoldable pub hold_commits : Bool → LogWriter → LogWriter
hold_commits hold w = record w { hold_commits = hold; synced = w.committed }

unfoldable pub sync_data : Log (Unit {0})
unfolding durable
sync_data w =
    if durable w.sync
    then (do quiet; modify (λ w. record w { fsync_count = w.fsync_count + 1 })) w
    else (w, ok tt)

unfoldable pub discard_pending : Log (Unit {0})
unfolding ensure_usable
discard_pending = do
  ensure_usable
  modify (λ w. record w { page = zero_page; used = 0; written = w.committed; synced = w.committed })
  w ← look
  set_len (pages_end w.committed)
  seek (pages_end w.committed)

unfoldable pub page_capacity : ℕ
page_capacity = page_len - page_hdr

unfoldable pub frame : ObjectRecord → Result Error (List ℕ)
unfolding page_capacity
frame r = elim (encode_body r) [
  | err e ↦ err e
  | ok body ↦ elim (framed_record body) [
    | err e ↦ err e
    | ok framed ↦
        if ltb page_capacity (length framed) then err record_larger_than_page else ok framed
  ]
]

unfoldable pub starts_new_page : ℕ → ℕ → Bool
unfolding page_capacity
starts_new_page used len = ltb 0 used && ltb page_capacity (used + len)

-- The end of `append_record`: the frame is copied into the page.
unfoldable pub copy_in : List ℕ → LogWriter → LogWriter
copy_in framed w = record w {
  page = write_at (page_hdr + w.used) framed w.page;
  used = w.used + length framed;
}

abbrev pub lift : {A : Type 0} → Result Error A → Log A
lift r w = (w, r)

module _ (c : Crc) where
  unfoldable pub write_superblock_body : Log (Unit {0})
  unfolding sync_data
  write_superblock_body = do
    w ← look
    quiet
    seek 0
    write_all (superblock_page c w.committed)
    sync_data
    seek (if ltb w.file.position page_len then page_len else w.file.position)

  -- A failed write of the superblock poisons the writer.
  abbrev pub or_poison : LogWriter × Result Error (Unit {0}) → LogWriter × Result Error (Unit {0})
  or_poison (w, ok u) = (w, ok u)
  or_poison (w, err e) = (poison w, err uncertain_commit)

  unfoldable pub write_superblock : Log (Unit {0})
  unfolding write_superblock_body
  write_superblock w = or_poison (write_superblock_body w)

  unfoldable pub commit_pending : Log (Unit {0})
  unfolding sync_data write_superblock
  commit_pending w =
      if w.written == w.committed
      then (w, ok tt)
      else (do sync_data; modify (λ w. record w { committed = w.written }); write_superblock) w

  -- `flush_page`, from the page that was written on.
  unfoldable pub page_written : Log (Unit {0})
  unfolding sync_data write_superblock commit_pending group_size durable
  page_written w =
      if w.hold_commits
      then (if durable w.sync && leb (group_size w.sync) (sub_u32 w.written w.synced)
          then (do sync_data; modify (λ w. record w { synced = w.written })) w
          else (w, ok tt))
      else if is_none w.sync
      then write_superblock (record w { committed = w.written })
      else if leb (group_size w.sync) (sub_u32 w.written w.committed)
      then commit_pending w
      else (w, ok tt)

  unfoldable pub flush_page : Log (Unit {0})
  unfolding page_written
  flush_page w =
      if w.used == 0
      then (w, ok tt)
      else (do
        w ← look
        modify (λ w. record w { page = write_at crc_len (to_le 2 w.used) w.page })
        write_all (seal_page_bytes c w.page w.used)
        modify (λ w. record w { written = add_u32 w.written 1; page = zero_page; used = 0 })
        page_written)
          w

  unfoldable pub flush : Log (Unit {0})
  unfolding flush_page commit_pending ensure_usable
  flush = do ensure_usable; flush_page; commit_pending; quiet

  unfoldable pub append_record : ObjectRecord → Log (Unit {0})
  unfolding frame starts_new_page flush_page copy_in ensure_usable
  append_record r = do
    ensure_usable
    framed ← lift (frame r)
    w ← look
    if starts_new_page w.used (length framed) then flush_page else pure tt
    modify (copy_in framed)

  unfoldable pub create : SyncPolicy → List (Option ℕ) → LogWriter × Result Error (Unit {0})
  unfolding write_superblock
  create sync faults =
      write_superblock (blank (record { content = []; position = 0 }) sync 0 faults)

  -- `open_inner` without keys, on the bytes of the file. The calls on the file succeed.
  unfoldable pub open_log : List ℕ → SyncPolicy → Result Error LogWriter
  open_log content sync =
      if ltb (length content) page_len
      then err missing_superblock
      else elim (superblock_magic c (take page_len content)) [
        | err e ↦ err e
        | ok found ↦
            if str_eq found v1_magic
            then err unmigrated
            else if not (str_eq found magic) && not (str_eq found v3_magic)
            then err bad_magic
            else if str_eq found v3_magic
            then err no_keys
            else (let committed = superblock_commit (take page_len content) in
                ok (
                  blank (record { content = content; position = pages_end committed }) sync
                    committed []))
      ]
