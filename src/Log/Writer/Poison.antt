-- ===== src/Log/Writer/Poison.antt =====
-- A writer of src/log.rs whose superblock could not be written.
use mikura.Common.{
  ◌||◌, ◌≡◌, refl, sym, if-true, ap, true, List, none, Result, ok, err, if◌then◌else◌,
}
use mikura.Common.Steps.{>>=-err}
use mikura.Errors.{Error, uncertain_commit}
use mikura.Log.Body.{is_empty}
use mikura.Record.{ObjectRecord}
use mikura.Log.Page.{Crc}
use mikura.Log.Writer.{
  LogWriter, append_record, flush, discard_pending, has_pending, ensure_usable, write_superblock,
  write_superblock_body, or_poison, poison,
}
use mikura.Log.Writer.Stage.{StagedCommit, stage, write_staged}

refused : (w : LogWriter) → w.failed ≡ true → ensure_usable w ≡ (w, err uncertain_commit)
unfolding ensure_usable
refused w e = ap (λ b. (w, if b then err uncertain_commit else ok tt)) e

or_poison-failed :
    (c : Crc) (out : LogWriter × Result Error (Unit {0})) (w' : LogWriter) (e : Error)
    → or_poison c out ≡ (w', err e)
    → w'.failed ≡ true
unfolding poison
or_poison-failed c (w, ok u) w' e h = cc
or_poison-failed c (w, err d) w' e h = sym (ap (λ out. out.0.failed) h)

module _ (c : Crc) where
  -- After a write of the superblock that failed, whichever call on the file failed, append_record,
  -- flush, discard_pending and write_staged refuse with the uncertain commit and leave the writer
  -- and its file as they are, and nothing is staged.
  pub write_superblock-refuses :
      (w w' : LogWriter) (e : Error) (r : ObjectRecord) (records : List ObjectRecord)
      (staged : StagedCommit)
      → write_superblock c w ≡ (w', err e)
      → (append_record c r w' ≡ (w', err uncertain_commit))
        × (flush c w' ≡ (w', err uncertain_commit))
        × (discard_pending w' ≡ (w', err uncertain_commit))
        × (stage c records w' ≡ none)
        × (write_staged staged w' ≡ (w', err uncertain_commit))
  unfolding write_superblock append_record flush discard_pending stage write_staged
  write_superblock-refuses w w' e r records staged h =
      let failed : w'.failed ≡ true = or_poison-failed c (write_superblock_body c w) w' e h in
      let no : ensure_usable w' ≡ (w', err uncertain_commit) = refused w' failed in
      (
        >>=-err ensure_usable _ w' w' uncertain_commit no,
        >>=-err ensure_usable _ w' w' uncertain_commit no,
        >>=-err ensure_usable _ w' w' uncertain_commit no,
        if-true {b = ((w'.failed || has_pending w') || w'.hold_commits) || is_empty records} _
            (rw failed refl),
        >>=-err ensure_usable _ w' w' uncertain_commit no,
      )
