-- ===== src/Examples/Writer.antt =====
-- A log of one record, from its creation to the reading of its file.
use mikura.Errors.{uncertain_commit}
use mikura.Common.{none, some, err, refl}
use mikura.Log.Writer.{write_superblock, write_superblock_body, call}
use mikura.Log.Writer.Stage.{StagedCommit, stage, write_staged}
use mikura.Log.Writer.Poison.{write_superblock-refuses}
use mikura.Common.{◌+◌, ◌≤◌, ◌≡◌, arith, List, [], ◌∷◌, ◌++◌, map, length, drop, ok}
use mikura.Common.Steps.{continue}
use mikura.Record.{ObjectRecord}
use mikura.Log.Decode.RoundTrip.{stored}
use mikura.Log.Read.{read_records, read_records_after}
use mikura.Log.Writer.{
  LogWriter, sync_page, sync_group, open_log, discard_pending, append_record, flush,
}
use mikura.Log.Writer.Holds.{Group, joined, Holds}
use mikura.Log.Writer.Turn.{held}
use mikura.Log.Writer.Records.{append_record-held, flush-held}
use mikura.Log.Writer.Recovery.{
  create-empty, read_records_after-committed, open_log-committed, discard_pending-committed,
}
use mikura.Log.Writer.Session.{session, flushed_session, crashed_session}
use mikura.Examples.Log.{sums, sample, sample-IsFramable}

-- A new log, and the same with one record in its buffer, and with that record flushed.
abbrev fresh : LogWriter
fresh = (create-empty sums sync_page).0

fresh-Holds : Holds sums fresh [] [] []
fresh-Holds = (create-empty sums sync_page).2

append_record-held_example :
    (w' : LogWriter) × (more : List Group) × (pending' : List Group) × (last' : Group)
    × (append_record sums sample fresh ≡ (w', ok tt))
    × Holds sums w' more pending' last'
    × (held more pending' last' ≡ sample ∷ [])
    × (length more + length pending' ≤ 1)
append_record-held_example =
    append_record-held sums fresh [] [] [] sample fresh-Holds sample-IsFramable (omega arith)

flush-held_example :
    (w' : LogWriter) × (more : List Group) × (flush sums fresh ≡ (w', ok tt))
    × Holds sums w' more [] []
    × (joined more ≡ [])
flush-held_example = flush-held sums fresh [] [] [] fresh-Holds (omega arith)

appended :
    (w' : LogWriter) × (more : List Group) × (pending' : List Group) × (last' : Group)
    × (append_record sums sample fresh ≡ (w', ok tt))
    × Holds sums w' more pending' last'
    × (held more pending' last' ≡ sample ∷ [])
    × (length more + length pending' ≤ 1)
appended = append_record-held sums fresh [] [] [] sample fresh-Holds sample-IsFramable (omega arith)

-- The log with the record flushed.
flushed :
    (w' : LogWriter) × (more : List Group) × (flush sums appended.0 ≡ (w', ok tt))
    × Holds sums w' (appended.1 ++ more) [] []
    × (joined (appended.1 ++ more) ≡ held appended.1 appended.2 appended.3)
flushed =
    flush-held sums appended.0 appended.1 appended.2 appended.3 appended.5
      (omega (arith, appended.7))

abbrev groups : List Group
groups = appended.1 ++ flushed.1

read_records_after-committed_example :
    read_records_after sums flushed.0.file.content 0 ≡ ok (map stored (joined (drop 0 groups)))
read_records_after-committed_example =
    read_records_after-committed sums flushed.0 groups [] [] flushed.3 0 (omega arith)

open_log-committed_example :
    (w' : LogWriter) × (open_log sums appended.0.file.content sync_page ≡ ok w')
    × Holds sums w' appended.1 [] []
open_log-committed_example =
    open_log-committed sums appended.0 appended.1 appended.2 appended.3 appended.5 sync_page
      (omega (arith, appended.7))

discard_pending-committed_example :
    (w' : LogWriter) × (discard_pending appended.0 ≡ (w', ok tt)) × Holds sums w' appended.1 [] []
discard_pending-committed_example =
    discard_pending-committed sums appended.0 appended.1 appended.2 appended.3 appended.5
      (omega (arith, appended.7))

flushed_session_example :
    (w : LogWriter) × (continue
        (session sums (sync_group 2) (sample ∷ sample ∷ []))
        (λ u. flush sums)
      ≡ (w, ok tt))
    × (read_records sums w.file.content ≡ ok (map stored (sample ∷ sample ∷ [])))
flushed_session_example =
    flushed_session sums (sync_group 2) (sample ∷ sample ∷ [])
      (sample-IsFramable, (sample-IsFramable, tt)) (omega arith)

crashed_session_example :
    (w : LogWriter) × (kept : List ObjectRecord) × (lost : List ObjectRecord) × (session sums
        sync_page
        (sample ∷ [])
      ≡ (w, ok tt))
    × (kept ++ lost ≡ sample ∷ [])
    × (read_records sums w.file.content ≡ ok (map stored kept))
crashed_session_example =
    crashed_session sums sync_page (sample ∷ []) (sample-IsFramable, tt) (omega arith)

-- A writer whose next write of the superblock stops after ten bytes.
abbrev torn : LogWriter
torn = record fresh { faults = none ∷ none ∷ some 10 ∷ [] }

abbrev poisoned : LogWriter
poisoned = (write_superblock sums torn).0

torn-poisoned : write_superblock sums torn ≡ (poisoned, err uncertain_commit)
unfolding write_superblock write_superblock_body call
torn-poisoned = refl

abbrev nothing_staged : StagedCommit
nothing_staged = record { pages = []; superblock = []; committed = 0; fsyncs = 0 }

write_superblock-refuses_example :
    (append_record sums sample poisoned ≡ (poisoned, err uncertain_commit))
    × (flush sums poisoned ≡ (poisoned, err uncertain_commit))
    × (discard_pending poisoned ≡ (poisoned, err uncertain_commit))
    × (stage sums (sample ∷ []) poisoned ≡ none)
    × (write_staged nothing_staged poisoned ≡ (poisoned, err uncertain_commit))
write_superblock-refuses_example =
    write_superblock-refuses sums torn poisoned uncertain_commit sample (sample ∷ []) nothing_staged
      torn-poisoned
