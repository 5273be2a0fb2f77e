-- ===== src/Log/Writer/Stage.antt =====
-- Commits that are staged through a shared writer (src/log.rs): `stage` seals the pages and the
-- superblock of a commit, `write_staged` puts them on the file, and `adopt_staged` moves the writer.
use mikura.Common.{
  ℕ, zero, suc, ◌+◌, ◌/◌, Bool, Option, none, some, List, [], ◌∷◌, ◌++◌, length, take, drop, map,
}
use mikura.Common.{ltb, leb, if◌then◌else◌, ◌||◌, ◌&&◌, retain, Result, ok, err}
use mikura.Common.Words.{add_u32, sub_u32}
use mikura.Common.Steps.{pure, look, ◌>>=◌, ◌>>◌}
use mikura.Record.{ObjectRecord}
use mikura.Log.Body.{is_empty}
use mikura.Log.Page.{
  Crc, page_len, pages_end, page_hdr, write_at, zero_page, seal_page_bytes, superblock_page,
  verify_page, decode_data_page,
}
use mikura.Log.Writer.{
  LogWriter, Log, has_pending, ensure_usable, frame, starts_new_page, durable, group_size, seek,
  write_all, set_len, quiet, poison,
}
use mikura.Errors.{Error, uncertain_commit, committed_missing, short_read}

pub record StagedCommit : Type 0 where
  pub pages : List (List ℕ)
  pub superblock : List ℕ
  pub committed : ℕ
  pub fsyncs : ℕ

-- The pages that are sealed, the page being filled and the bytes used of it.
abbrev pub Filling : Type 0
Filling = List (List ℕ) × List ℕ × ℕ

unfoldable pub adopt_staged : StagedCommit → LogWriter → LogWriter
adopt_staged staged w = record w {
  written = staged.committed;
  committed = staged.committed;
  synced = staged.committed;
  fsync_count = w.fsync_count + staged.fsyncs;
}

-- The loop over the pages: a sync for each group. The result is the number of syncs.
unfoldable pub write_pages : List (List ℕ) → ℕ → ℕ → ℕ → Log ℕ
unfolding durable group_size
write_pages [] written synced fsyncs w = (w, ok fsyncs)
write_pages (page ∷ pages) written synced fsyncs w =
    let written = add_u32 written 1 in
    let full = durable w.sync && leb (group_size w.sync) (sub_u32 written synced) in
    (do
      write_all page
      if full then quiet else pure tt
      write_pages pages written (if full then written else synced)
          (if full then fsyncs + 1 else fsyncs))
      w

-- A sync, where the policy has any.
abbrev pub last_sync : ℕ → Log ℕ
last_sync fsyncs w = if durable w.sync then (do quiet; pure (fsyncs + 1)) w else (w, ok fsyncs)

-- The new pages are cut off again after an error.
abbrev pub after_cut : Error → LogWriter × Result Error (Unit {0}) → LogWriter × Result Error ℕ
after_cut e (w, ok u) = (w, err e)
after_cut e (w, err uncut) = (poison w, err uncertain_commit)

abbrev pub or_cut : ℕ → LogWriter × Result Error ℕ → LogWriter × Result Error ℕ
or_cut start (w, ok fsyncs) = (w, ok fsyncs)
or_cut start (w, err e) = after_cut e ((do set_len start; seek start) w)

abbrev pub or_uncertain : LogWriter × Result Error ℕ → LogWriter × Result Error ℕ
or_uncertain (w, ok fsyncs) = (w, ok fsyncs)
or_uncertain (w, err e) = (poison w, err uncertain_commit)

unfoldable pub write_staged : StagedCommit → Log StagedCommit
unfolding write_pages ensure_usable
write_staged staged = do
  ensure_usable
  w ← look
  fsyncs ← (λ w. or_cut (pages_end w.written) (
      (do
        seek (pages_end w.written)
        fsyncs ← write_pages staged.pages w.written w.committed 0
        last_sync fsyncs)
        w))
  fsyncs ← (λ w. or_uncertain (
      (do
        seek 0
        write_all (take (page_len / 2) staged.superblock)
        write_all (drop (page_len / 2) staged.superblock)
        fsyncs ← last_sync fsyncs
        seek (pages_end staged.committed)
        pure fsyncs)
        w))
  pure (record staged { fsyncs = fsyncs })

module _ (c : Crc) where
  -- One round of the loop of `stage`.
  unfoldable pub place : Filling → List ℕ → Filling
  unfolding starts_new_page
  place (pages, page, used) framed =
      if starts_new_page used (length framed)
      then (
        pages ++ (seal_page_bytes c page used ∷ []),
        write_at page_hdr framed zero_page,
        length framed,
      )
      else (pages, write_at (page_hdr + used) framed page, used + length framed)

  unfoldable pub place_all : Filling → List ObjectRecord → Option Filling
  unfolding place frame
  place_all filling [] = some filling
  place_all filling (r ∷ rs) = elim (frame r) [
    | err e ↦ none
    | ok framed ↦ place_all (place filling framed) rs
  ]

  unfoldable pub stage : List ObjectRecord → LogWriter → Option StagedCommit
  unfolding place_all has_pending
  stage records w =
      if w.failed || has_pending w || w.hold_commits || is_empty records
      then none
      else elim (place_all ([], zero_page, 0) records) [
        | none ↦ none
        | some (pages, page, used) ↦
            (let pages = pages ++ (seal_page_bytes c page used ∷ []) in
              let committed = add_u32 w.written (length pages) in
              some (record {
                pages = pages;
                superblock = superblock_page c committed;
                committed = committed;
                fsyncs = 0;
              }))
      ]

  -- The records of the pages that a writer committed, with the page of each; `index` is the page
  -- before the first that is left.
  unfoldable pub applied_pages :
      ℕ → ℕ → List ℕ → (ObjectRecord → Bool) → Result Error (List (ℕ × ObjectRecord))
  applied_pages zero index rest keep = ok []
  applied_pages (suc count) index rest keep =
      if ltb (length rest) page_len
      then err short_read
      else elim (verify_page c (take page_len rest)) [
        | err e ↦ err e
        | ok u ↦ elim (decode_data_page (take page_len rest) none) [
          | err e ↦ err e
          | ok records ↦ elim (applied_pages count (index + 1) (drop page_len rest) keep) [
            | err e ↦ err e
            | ok later ↦
                ok (map (λ (r : ObjectRecord). (index + 1, r)) (retain keep records) ++ later)
          ]
        ]
      ]

  unfoldable pub read_applied_pages :
      LogWriter → (ObjectRecord → Bool) → Result Error (List (ℕ × ObjectRecord))
  unfolding applied_pages
  read_applied_pages w keep =
      if ltb (length w.file.content) (pages_end w.committed)
      then err committed_missing
      else applied_pages w.committed 0 (drop page_len w.file.content) keep
