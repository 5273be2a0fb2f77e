-- ===== src/Log/Writer/Session.antt =====
-- A log from its creation on: what a reader finds after a number of appends, with and without a flush
-- at the end. Every call on the file succeeds.
use mikura.Common.{ℕ, ◌+◌, ◌^◌, ◌<◌, ◌≤◌, ◌≡◌, refl, sym, ap, ◌∙◌, arith, List, [], ◌∷◌, ◌++◌, map}
use mikura.Common.{length, All, append_assoc, append-nil, Result, ok}
use mikura.Common.Steps.{continue, ◌>>◌, >>=-ok, pure}
use mikura.Errors.{Error}
use mikura.Record.{ObjectRecord}
use mikura.Log.Decode.RoundTrip.{stored}
use mikura.Log.Page.{Crc}
use mikura.Log.Page.Frames.{IsFramable}
use mikura.Log.Read.{read_records}
use mikura.Log.Writer.{LogWriter, Log, SyncPolicy, create, append_record, flush}
use mikura.Log.Writer.Holds.{Group, joined, joined-append, Holds}
use mikura.Log.Writer.Turn.{held}
use mikura.Log.Writer.Records.{append_record-held, flush-held}
use mikura.Log.Writer.Recovery.{create-empty, read_records_after-committed}

module _ (c : Crc) where
  -- One append after the other, up to the first that fails.
  unfoldable pub append_all : List ObjectRecord → Log (Unit {0})
  append_all [] = pure tt
  append_all (r ∷ rs) = do append_record c r; append_all rs

  -- A new log with the records appended.
  abbrev pub session : SyncPolicy → List ObjectRecord → LogWriter × Result Error (Unit {0})
  session sync rs = continue (create c sync []) (λ u. append_all rs)

  record Appended (out : LogWriter × Result Error (Unit {0})) (rs : List ObjectRecord) (most : ℕ)
      : Type 0 where
    pub w' : LogWriter
    pub done' : List Group
    pub pending' : List Group
    pub last' : Group
    pub result : out ≡ (w', ok tt)
    pub holds : Holds c w' done' pending' last'
    pub all_held : held done' pending' last' ≡ rs
    pub few_pages : length done' + length pending' ≤ most

  append_all-held :
      (w : LogWriter) (done pending : List Group) (last : Group) (rs : List ObjectRecord)
      → Holds c w done pending last
      → All IsFramable rs
      → length done + length pending + length rs < 2 ^ 32
      → Appended
          (append_all rs w)
          (held done pending last ++ rs)
          (length done + length pending + length rs)
  unfolding append_all
  append_all-held w done pending last [] h k room = record {
    w' = w;
    done' = done;
    pending' = pending;
    last' = last;
    result = refl;
    holds = h;
    all_held = sym (append-nil (held done pending last));
    few_pages = omega arith;
  }
  append_all-held w done pending last (r ∷ rs) h (k, ks) room =
      let (w', more, pending', last', e, h', same, few) =
        append_record-held c w done pending last r h k (omega (arith, room)) in
      let next =
        append_all-held w' (done ++ more) pending' last' rs h' ks (omega (arith, room, few)) in
      record {
        w' = next.w';
        done' = next.done';
        pending' = next.pending';
        last' = next.last';
        result = >>=-ok (append_record c r) (λ u. append_all rs) w w' tt e ∙ next.result;
        holds = next.holds;
        all_held =
            next.all_held
            ∙ ap (λ g. g ++ rs) same
            ∙ append_assoc (held done pending last) (r ∷ []) rs;
        few_pages = omega (arith, next.few_pages, few);
      }

  session-Appended :
      (sync : SyncPolicy) (rs : List ObjectRecord)
      → All IsFramable rs
      → length rs < 2 ^ 32
      → Appended (session sync rs) rs (length rs)
  session-Appended sync rs h few =
      let (w, e, k) = create-empty c sync in
      let a = append_all-held w [] [] [] rs k h (omega (arith, few)) in
      record {
        w' = a.w';
        done' = a.done';
        pending' = a.pending';
        last' = a.last';
        result = ap (λ out. continue out (λ u. append_all rs)) e ∙ a.result;
        holds = a.holds;
        all_held = a.all_held;
        few_pages = omega (arith, a.few_pages);
      }

  -- For any sync policy, a new log to which fewer than 2 ^ 32 - 1 records that fit were appended
  -- and that was then flushed succeeds at every step, and a reader of its file finds exactly these
  -- records, in order and as the log stores them, where no call on the file fails.
  pub flushed_session :
      (sync : SyncPolicy) (rs : List ObjectRecord)
      → All IsFramable rs
      → length rs + 1 < 2 ^ 32
      → (w : LogWriter) × (continue (session sync rs) (λ u. flush c) ≡ (w, ok tt))
        × (read_records c w.file.content ≡ ok (map stored rs))
  flushed_session sync rs h few =
      let a = session-Appended sync rs h (omega (arith, few)) in
      let (w, more, e, k, same) =
        flush-held c a.w' a.done' a.pending' a.last' a.holds (omega (arith, a.few_pages, few)) in
      (
        w,
        ap (λ out. continue out (λ u. flush c)) a.result ∙ e,
        read_records_after-committed c w (a.done' ++ more) [] [] k 0 (omega arith)
            ∙ ap (λ rs. ok (map stored rs)) (same ∙ a.all_held),
      )

  -- For any sync policy, a reader of the file of a new log to which fewer than 2 ^ 32 records that
  -- fit were appended, and that was not flushed, finds a prefix of these records, as the log stores
  -- them, where no call on the file fails.
  pub crashed_session :
      (sync : SyncPolicy) (rs : List ObjectRecord)
      → All IsFramable rs
      → length rs < 2 ^ 32
      → (w : LogWriter) × (kept : List ObjectRecord) × (lost : List ObjectRecord) × (session sync rs
          ≡ (w, ok tt))
        × (kept ++ lost ≡ rs)
        × (read_records c w.file.content ≡ ok (map stored kept))
  crashed_session sync rs h few =
      let a = session-Appended sync rs h few in
      (
        a.w',
        joined a.done',
        joined a.pending' ++ a.last',
        a.result,
        sym (append_assoc (joined a.done') (joined a.pending') a.last')
            ∙ ap (λ g. g ++ a.last') (sym (joined-append a.done' a.pending'))
            ∙ a.all_held,
        read_records_after-committed c a.w' a.done' a.pending' a.last' a.holds 0 (omega arith),
      )
