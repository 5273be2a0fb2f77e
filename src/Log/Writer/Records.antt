-- ===== src/Log/Writer/Records.antt =====
-- The records that a writer holds, through `append_record`, `flush` and `discard_pending`. Every call
-- on the file succeeds.
use mikura.Common.{
  ℕ, ◌+◌, ◌^◌, ◌<◌, ◌≤◌, ◌≡◌, sym, ap, subst, ◌∙◌, arith, false, List, [], ◌∷◌, ◌++◌,
}
use mikura.Common.{
  length, length-append, append_assoc, append-nil, ok, inl, inr, Bool-cases, if◌then◌else◌, if-true,
  if-false, ltb, le→ltb,
}
use mikura.Common.Steps.{>>=-ok, modify, pure}
use mikura.Record.{ObjectRecord}
use mikura.Log.Body.Bytes.{encode_body-bytes}
use mikura.Log.Page.{Crc}
use mikura.Log.Page.Frames.{
  IsFramable, frame_bytes, frames_bytes, framed_record-bytes, length-frame_bytes,
}
use mikura.Log.Writer.{
  LogWriter, page_capacity, copy_in, flush_page, flush, append_record, ensure_usable,
  commit_pending, Log, lift, frame, starts_new_page, unchanged,
}
use mikura.Log.Writer.Files.{call-calm}
use mikura.Log.Writer.Holds.{Group, joined, Holds, Holds-copy_in}
use mikura.Log.Writer.Commits.{closed, Leaves, Holds-commit_pending}
use mikura.Log.Writer.Turn.{held, held-closed, length-closed, usable-ok, Leaves-flush_page}

module _ (c : Crc) where
  frame-bytes : (r : ObjectRecord) → IsFramable r → frame r ≡ ok (frame_bytes r)
  unfolding frame page_capacity
  frame-bytes r h =
      rw (encode_body-bytes r h.storable, frame) (rw (framed_record-bytes r h) (if-false _ fits))
    where
      fits : ltb 4090 (length (frame_bytes r)) ≡ false
      fits = le→ltb 4090 (length (frame_bytes r)) (omega (arith, length-frame_bytes r, h.fits))

  -- The frame goes into the buffer, on a new page where it does not fit.
  abbrev placed : ℕ → ObjectRecord → Log (Unit {0})
  placed used r = if starts_new_page used (length (frame_bytes r)) then flush_page c else pure tt

  append_record-placed :
      (w w' : LogWriter) (r : ObjectRecord)
      → w.failed ≡ false
      → IsFramable r
      → placed w.used r w ≡ (w', ok tt)
      → append_record c r w ≡ (copy_in (frame_bytes r) w', ok tt)
  unfolding append_record
  append_record-placed w w' r usable h e =
      >>=-ok ensure_usable _ w w tt (usable-ok w usable)
      ∙ >>=-ok (lift (frame r)) _ w w (frame_bytes r) (ap (λ f. (w, f)) (frame-bytes r h))
      ∙ >>=-ok (placed w.used r) (λ u. modify (copy_in (frame_bytes r))) w w' tt e

  -- Where no call on the file fails and there is room for one page more, an append of a record that
  -- fits succeeds; the record is held behind those that were held before, every page that was
  -- committed stays so, and one page more is written at most.
  pub append_record-held :
      (w : LogWriter) (done pending : List Group) (last : Group) (r : ObjectRecord)
      → Holds c w done pending last
      → IsFramable r
      → length done + length pending + 1 < 2 ^ 32
      → (w' : LogWriter) × (more : List Group) × (pending' : List Group) × (last' : Group)
        × (append_record c r w ≡ (w', ok tt))
        × Holds c w' (done ++ more) pending' last'
        × (held (done ++ more) pending' last' ≡ held done pending last ++ (r ∷ []))
        × (length (done ++ more) + length pending' ≤ length done + length pending + 1)
  append_record-held w done pending last r h k room =
      elim (Bool-cases (starts_new_page w.used (length (frame_bytes r)))) [
        | inl new ↦
            (let l = Leaves-flush_page c w done pending last h room in
              (
                copy_in (frame_bytes r) l.w',
                l.more,
                l.pending',
                r ∷ [],
                append_record-placed w l.w' r h.usable k (at_front (if-true _ new) ∙ l.result),
                subst (λ gs. Holds c (copy_in (frame_bytes r) l.w') gs l.pending' (r ∷ [])) l.grown
                    (Holds-copy_in c l.w' l.done' l.pending' [] r l.holds k
                      (unfold frames_bytes in omega (arith, length-frame_bytes r, k.fits))),
                ap (λ gs. joined (gs ++ l.pending') ++ (r ∷ [])) (sym l.grown)
                    ∙ ap (λ gs. joined gs ++ (r ∷ [])) l.kept
                    ∙ ap (λ rs. rs ++ (r ∷ [])) (held-closed done pending last),
                omega (
                  arith,
                  ap length l.grown,
                  ap length l.kept,
                  length-append l.done' l.pending',
                  length-append done (closed pending last),
                  length-closed pending last,
                ),
              ))
        | inr stays ↦ (
          copy_in (frame_bytes r) w,
          [],
          pending,
          last ++ (r ∷ []),
          append_record-placed w w r h.usable k (at_front (if-false _ stays)),
          subst (λ gs. Holds c (copy_in (frame_bytes r) w) gs pending (last ++ (r ∷ [])))
              (sym (append-nil done)) (Holds-copy_in c w done pending last r h k (fits stays)),
          ap (λ gs. joined (gs ++ pending) ++ (last ++ (r ∷ []))) (append-nil done)
              ∙ sym (append_assoc (joined (done ++ pending)) last (r ∷ [])),
          omega (arith, length-append done []),
        )
      ]
    where
      at_front : {a b : Log (Unit {0})} → a ≡ b → a w ≡ b w
      at_front e = ap (λ m. m w) e

      fits :
          starts_new_page w.used (length (frame_bytes r)) ≡ false
          → length (frames_bytes last) + length (frame_bytes r) ≤ 4090
      fits e =
          unfold starts_new_page page_capacity in
          ground (arith, e, h.used, length-frame_bytes r, k.fits)

  -- Where no call on the file fails and there is room for one page more, a flush succeeds and
  -- commits everything that is held, behind what was committed.
  pub flush-held :
      (w : LogWriter) (done pending : List Group) (last : Group)
      → Holds c w done pending last
      → length done + length pending + 1 < 2 ^ 32
      → (w' : LogWriter) × (more : List Group) × (flush c w ≡ (w', ok tt))
        × Holds c w' (done ++ more) [] []
        × (joined (done ++ more) ≡ held done pending last)
  unfolding flush
  flush-held w done pending last h room =
      let l = Leaves-flush_page c w done pending last h room in
      let (w', e, k) = Holds-commit_pending c l.w' l.done' l.pending' [] l.holds in
      (
        w',
        l.more ++ l.pending',
        >>=-ok ensure_usable _ w w tt (usable-ok w h.usable)
            ∙ >>=-ok (flush_page c) _ w l.w' tt l.result
            ∙ >>=-ok (commit_pending c) _ l.w' w' tt e
            ∙ call-calm (λ f. f) unchanged w' k.calm,
        subst (λ gs. Holds c w' gs [] []) (grown l) k,
        ap joined (sym (grown l) ∙ l.kept) ∙ held-closed done pending last,
      )
    where
      grown :
          (l : Leaves c (flush_page c w) done (closed pending last))
          → l.done' ++ l.pending' ≡ done ++ (l.more ++ l.pending')
      grown l = ap (λ gs. gs ++ l.pending') l.grown ∙ append_assoc done l.more l.pending'
