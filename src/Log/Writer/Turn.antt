-- ===== src/Log/Writer/Turn.antt =====
-- Closing the page that is being filled: `flush_page`. Every call on the file succeeds.
use mikura.Common.{
  ℕ, ◌+◌, ◌*◌, ◌^◌, ◌<◌, ◌≤◌, ◌≡◌, refl, sym, ap, ◌∙◌, arith, true, false, List, [], ◌∷◌, ◌++◌,
}
use mikura.Common.{
  length, length-append, take, drop, All-append, append_assoc, append-nil, ok, err, ◌==◌,
  if◌then◌else◌, if-true, if-false,
}
use mikura.Common.Words.{to_le, add_u32}
use mikura.Common.Steps.{>>=-ok}
use mikura.Errors.{uncertain_commit}
use mikura.Record.{ObjectRecord}
use mikura.Log.Page.{Crc, page_len, superblock_page, seal_page_bytes, write_at, zero_page}
use mikura.Log.Page.Frames.{frame_bytes, frames_bytes, filled, length-frame_bytes}
use mikura.Log.Page.Superblock.{length-superblock_page}
use mikura.Log.Writer.{LogWriter, File, flush_page, page_written, ensure_usable, write_all, wrote}
use mikura.Log.Writer.Files.{call-calm, wrote-at}
use mikura.Log.Writer.Holds.{
  Group, joined, joined-append, Fits, page_of, length-page_of, pages_of, pages_of-append,
  length-pages_of, Holds,
}
use mikura.Log.Writer.Commits.{
  filled-nil, Fits-nil, closed, Leaves, held-Leaves, Leaves-page_written,
}

-- What is written and what waits, in the order it was appended.
abbrev pub held : List Group → List Group → Group → List ObjectRecord
held done pending last = joined (done ++ pending) ++ last

pub length-closed :
    (pending : List Group) (last : Group) → length (closed pending last) ≤ length pending + 1
length-closed pending [] = omega arith
length-closed pending (r ∷ rs) = omega (arith, length-append pending ((r ∷ rs) ∷ []))

pub held-closed :
    (done pending : List Group) (last : Group)
    → joined (done ++ closed pending last) ≡ held done pending last
held-closed done pending [] = sym (append-nil (joined (done ++ pending)))
held-closed done pending (r ∷ rs) =
    ap joined (sym (append_assoc done pending ((r ∷ rs) ∷ [])))
    ∙ joined-append (done ++ pending) ((r ∷ rs) ∷ [])
    ∙ ap (λ g. joined (done ++ pending) ++ g) (append-nil (r ∷ rs))

regroup : (a b c s d : List ℕ) → (a ++ (b ++ c)) ++ (s ++ d) ≡ a ++ (b ++ ((c ++ s) ++ d))
regroup a b c s d =
    append_assoc a (b ++ c) (s ++ d)
    ∙ ap (λ r. a ++ r) (append_assoc b c (s ++ d) ∙ ap (λ r. b ++ r) (sym (append_assoc c s d)))

pub usable-ok : (w : LogWriter) → w.failed ≡ false → ensure_usable w ≡ (w, ok tt)
unfolding ensure_usable
usable-ok w e = ap (λ b. (w, if b then err uncertain_commit else ok tt)) e

none_used : (n : ℕ) → n ≡ 0 → (n == 0) ≡ true
none_used n e = ground arith

some_used : (n : ℕ) → 0 < n → (n == 0) ≡ false
some_used n e = ground arith

module _ (c : Crc) where
  module _ (w : LogWriter) (done pending : List Group) (r : ObjectRecord) (rs : List ObjectRecord)
      (h : Holds c w done pending (r ∷ rs)) (room : length done + length pending + 1 < 2 ^ 32) where
    sealed : List ℕ
    sealed = seal_page_bytes c w.page w.used

    sealed_eq : sealed ≡ page_of c (r ∷ rs)
    unfolding sealed page_of
    sealed_eq =
        ap (λ p. seal_page_bytes c p w.used) h.page
        ∙ ap (λ n. seal_page_bytes c (filled (r ∷ rs)) n) h.used

    front : List ℕ
    front = superblock_page c (length done) ++ (pages_of c done ++ pages_of c pending)

    front_tail : w.file.content ≡ front ++ h.tail
    unfolding front
    front_tail =
        h.content
        ∙ ap (λ rest. superblock_page c (length done) ++ rest)
            (sym (append_assoc (pages_of c done) (pages_of c pending) h.tail))
        ∙ sym (
            append_assoc (superblock_page c (length done)) (pages_of c done ++ pages_of c pending)
              h.tail)

    length-front : length front ≡ page_len * (1 + (length done + length pending))
    unfolding front
    length-front = omega (
      arith,
      length-append (superblock_page c (length done)) (pages_of c done ++ pages_of c pending),
      length-append (pages_of c done) (pages_of c pending),
      length-superblock_page c (length done),
      length-pages_of c done h.done_fit,
      length-pages_of c pending h.pending_fit,
    )

    -- The file once the page is on it, and the writer with an empty buffer.
    after : File
    after = record {
      content = front ++ (sealed ++ drop (length sealed) h.tail);
      position = length front + length sealed;
    }

    turned : LogWriter
    turned = record w { file = after; written = add_u32 w.written 1; page = zero_page; used = 0 }

    Holds-turned : Holds c turned done (pending ++ ((r ∷ rs) ∷ [])) []
    unfolding turned after front pages_of frames_bytes
    Holds-turned = record {
      tail = drop (length sealed) h.tail;
      content =
          regroup (superblock_page c (length done)) (pages_of c done) (pages_of c pending) sealed
            (drop (length sealed) h.tail)
          ∙ ap
              (λ p.
                superblock_page c (length done)
                ++ (pages_of c done ++ (p ++ drop (length sealed) h.tail)))
              one_more;
      position = omega (
        arith,
        length-front,
        length-append pending ((r ∷ rs) ∷ []),
        ap length sealed_eq,
        length-page_of c (r ∷ rs) h.last_fits,
      );
      committed = h.committed;
      written = omega (arith, h.written, room, length-append pending ((r ∷ rs) ∷ []));
      page = sym filled-nil;
      used = refl;
      done_fit = h.done_fit;
      pending_fit = All-append Fits pending ((r ∷ rs) ∷ []) h.pending_fit (h.last_fits, tt);
      last_fits = Fits-nil;
      u32 = omega (arith, room, length-append pending ((r ∷ rs) ∷ []));
      usable = h.usable;
      calm = h.calm;
    }
      where
        one_more : pages_of c pending ++ sealed ≡ pages_of c (pending ++ ((r ∷ rs) ∷ []))
        one_more =
            ap (λ p. pages_of c pending ++ p) (sealed_eq ∙ sym (append-nil (page_of c (r ∷ rs))))
            ∙ sym (pages_of-append c pending ((r ∷ rs) ∷ []))

    flush_page-turned : flush_page c w ≡ page_written c turned
    unfolding flush_page turned after write_at sealed
    flush_page-turned =
        if-false _ filled_some
        ∙ >>=-ok (write_all sealed) _ headed (record headed { file = after }) tt
            (call-calm (wrote sealed) (λ n. wrote (take n sealed)) headed h.calm
              ∙ ap (λ f. (record headed { file = f }, ok tt))
                  (wrote-at front h.tail sealed w.file front_tail (h.position ∙ sym length-front)))
      where
        headed : LogWriter
        headed = record w { page = write_at 4 (to_le 2 w.used) w.page }

        filled_some : (w.used == 0) ≡ false
        filled_some = some_used w.used (
            unfold frames_bytes in
            omega (
              arith,
              h.used,
              length-append (frame_bytes r) (frames_bytes rs),
              length-frame_bytes r,
            ))

  pub Leaves-flush_page :
      (w : LogWriter) (done pending : List Group) (last : Group)
      → Holds c w done pending last
      → length done + length pending + 1 < 2 ^ 32
      → Leaves c (flush_page c w) done (closed pending last)
  Leaves-flush_page w done pending [] h room =
      held-Leaves c (flush_page c w) done pending w
        (unfold flush_page in if-true _ (none_used w.used (h.used ∙ unfold frames_bytes in refl))) h
  Leaves-flush_page w done pending (r ∷ rs) h room =
      let k =
        Leaves-page_written c (turned w done pending r rs h room) done (pending ++ ((r ∷ rs) ∷ []))
          (Holds-turned w done pending r rs h room) in
      record {
        w' = k.w';
        done' = k.done';
        pending' = k.pending';
        more = k.more;
        result = flush_page-turned w done pending r rs h room ∙ k.result;
        holds = k.holds;
        grown = k.grown;
        kept = k.kept;
      }
