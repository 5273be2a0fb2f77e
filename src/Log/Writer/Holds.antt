-- ===== src/Log/Writer/Holds.antt =====
-- What a writer and its file stand for: the records on the committed pages, those on pages that are
-- written and not committed, and those in the page being filled. Every call on the file succeeds.
use mikura.Common.{
  ℕ, zero, suc, ◌+◌, ◌*◌, ◌^◌, ◌<◌, ◌≤◌, ◌≡◌, refl, sym, ap, ◌∙◌, arith, false, List, [], ◌∷◌, ◌++◌,
}
use mikura.Common.{length, length-append, drop, All, All-append, append_assoc, append-nil, ok}
use mikura.Common.Words.{to_le}
use mikura.Record.{ObjectRecord}
use mikura.Log.Page.{Crc, page_len, page_hdr, superblock_page, seal_page_bytes, write_at, zero_page}
use mikura.Log.Page.Frames.{IsFramable, frame_bytes, frames_bytes, frames_bytes-append, filled}
use mikura.Log.Page.Slices.{length-write_at, length-seal_page, length-zero_page}
use mikura.Log.Page.Superblock.{length-superblock_page}
use mikura.Log.Writer.{LogWriter, write_superblock, copy_in}
use mikura.Log.Writer.Files.{write_superblock-calm}

-- The records of one page.
abbrev pub Group : Type 0
Group = List ObjectRecord

abbrev pub joined : List Group → List ObjectRecord
joined [] = []
joined (g ∷ gs) = g ++ joined gs

pub joined-append : (gs hs : List Group) → joined (gs ++ hs) ≡ joined gs ++ joined hs
joined-append [] hs = refl
joined-append (g ∷ gs) hs = rw (joined-append gs hs) (sym (append_assoc g (joined gs) (joined hs)))

pub record Fits (g : Group) : Type 0 where
  pub framable : All IsFramable g
  pub fits : length (frames_bytes g) ≤ 4090

drop-none : (n : ℕ) → drop {A = ℕ} n [] ≡ []
drop-none zero = refl
drop-none (suc n) = refl

-- A second range is written right behind a first.
write_at-append :
    (start : ℕ) (xs ys page : List ℕ)
    → start + (length xs + length ys) ≤ length page
    → write_at (start + length xs) ys (write_at start xs page) ≡ write_at start (xs ++ ys) page
unfolding write_at
write_at-append zero xs ys page h =
    ap (λ n. write_at n ys (xs ++ drop (length xs) page)) (zero_plus (length xs))
    ∙ behind xs (drop (length xs) page)
    ∙ rest
  where
    zero_plus : (n : ℕ) → 0 + n ≡ n
    zero_plus n = omega arith

    behind :
        (xs rest : List ℕ)
        → write_at (length xs) ys (xs ++ rest) ≡ xs ++ (ys ++ drop (length ys) rest)
    behind [] rest = refl
    behind (x ∷ xs) rest = λ i. x ∷ behind xs rest i

    further : (n m : ℕ) (page : List ℕ) → drop m (drop n page) ≡ drop (n + m) page
    further zero m page = ap (λ k. drop k page) (sym (zero_plus m))
    further (suc n) m [] = drop-none m ∙ sym (drop-none (suc n + m))
    further (suc n) m (b ∷ page) = further n m page ∙ ap (λ k. drop k (b ∷ page)) (one n m)
      where
        one : (n m : ℕ) → suc (n + m) ≡ suc n + m
        one n m = omega arith

    rest :
        xs ++ (ys ++ drop (length ys) (drop (length xs) page))
        ≡ (xs ++ ys) ++ drop (length (xs ++ ys)) page
    rest = sym (
        append_assoc xs ys (drop (length (xs ++ ys)) page)
        ∙ ap (λ n. xs ++ (ys ++ drop n page)) (length-append xs ys)
        ∙ ap (λ r. xs ++ (ys ++ r)) (sym (further (length xs) (length ys) page)))
write_at-append (suc start) xs ys [] h = absurd (omega arith)
write_at-append (suc start) xs ys (b ∷ page) h =
    ap (λ n. write_at n ys (b ∷ write_at start xs page)) (one start (length xs))
    ∙ (λ i. b ∷ write_at-append start xs ys page (omega arith) i)
  where
    one : (n m : ℕ) → suc n + m ≡ suc (n + m)
    one n m = omega arith

pub filled-snoc :
    (g : Group) (r : ObjectRecord)
    → length (frames_bytes g) + length (frame_bytes r) ≤ 4090
    → write_at (page_hdr + length (frames_bytes g)) (frame_bytes r) (filled g)
      ≡ filled (g ++ (r ∷ []))
unfolding filled frames_bytes
filled-snoc g r h =
    write_at-append page_hdr (frames_bytes g) (frame_bytes r) zero_page
      (omega (arith, length-zero_page))
    ∙ ap (λ bytes. write_at page_hdr bytes zero_page)
        (ap (λ bytes. frames_bytes g ++ bytes) (sym (append-nil (frame_bytes r)))
          ∙ sym (frames_bytes-append g (r ∷ [])))

-- The buffer with the count of its bytes.
pub length-headed :
    (g : Group)
    → Fits g
    → length (write_at 4 (to_le 2 (length (frames_bytes g))) (filled g)) ≡ page_len
unfolding filled
length-headed g h =
    length-write_at 4 (to_le 2 (length (frames_bytes g))) (filled g) (omega (arith, whole)) ∙ whole
  where
    whole : length (filled g) ≡ page_len
    whole =
        length-write_at page_hdr (frames_bytes g) zero_page
          (omega (arith, length-zero_page, h.fits))
        ∙ length-zero_page

module _ (c : Crc) where
  unfoldable pub page_of : Group → List ℕ
  page_of g = seal_page_bytes c (filled g) (length (frames_bytes g))

  pub length-page_of : (g : Group) → Fits g → length (page_of g) ≡ page_len
  unfolding page_of seal_page_bytes
  length-page_of g h =
      length-seal_page c (write_at 4 (to_le 2 (length (frames_bytes g))) (filled g))
        (omega (arith, length-headed g h))
      ∙ length-headed g h

  unfoldable pub pages_of : List Group → List ℕ
  pages_of [] = []
  pages_of (g ∷ gs) = page_of g ++ pages_of gs

  pub pages_of-append : (gs hs : List Group) → pages_of (gs ++ hs) ≡ pages_of gs ++ pages_of hs
  unfolding pages_of
  pages_of-append [] hs = refl
  pages_of-append (g ∷ gs) hs =
      rw (pages_of-append gs hs) (sym (append_assoc (page_of g) (pages_of gs) (pages_of hs)))

  pub length-pages_of :
      (gs : List Group) → All Fits gs → length (pages_of gs) ≡ page_len * length gs
  unfolding pages_of
  length-pages_of [] h = refl
  length-pages_of (g ∷ gs) (h, k) =
      omega
        (arith, length-append (page_of g) (pages_of gs), length-page_of g h, length-pages_of gs k)

  -- The groups `done` are committed, `pending` are written behind them and `last` is in the buffer.
  pub record Holds (w : LogWriter) (done pending : List Group) (last : Group) : Type 0 where
    pub tail : List ℕ
    pub content :
        w.file.content
        ≡ superblock_page c (length done) ++ (pages_of done ++ (pages_of pending ++ tail))
    pub position : w.file.position ≡ page_len * (1 + (length done + length pending))
    pub committed : w.committed ≡ length done
    pub written : w.written ≡ length done + length pending
    pub page : w.page ≡ filled last
    pub used : w.used ≡ length (frames_bytes last)
    pub done_fit : All Fits done
    pub pending_fit : All Fits pending
    pub last_fits : Fits last
    pub u32 : length done + length pending < 2 ^ 32
    pub usable : w.failed ≡ false
    pub calm : w.faults ≡ []

  -- The new superblock commits every page that is written.
  pub Holds-write_superblock :
      (w : LogWriter) (done pending : List Group) (last : Group) (n : ℕ)
      → Holds w done pending last
      → (w' : LogWriter) × (write_superblock c (record w { committed = w.written; fsync_count = n })
          ≡ (w', ok tt))
        × Holds w' (done ++ pending) [] last
  unfolding pages_of
  Holds-write_superblock w done pending last n h = (
    _,
    write_superblock-calm c (record w { committed = w.written; fsync_count = n })
        (superblock_page c (length done)) (pages_of done ++ (pages_of pending ++ h.tail)) h.calm
        h.content (length-superblock_page c (length done)) (omega (arith, h.position)),
    record {
      tail = h.tail;
      content =
          ap (λ n. superblock_page c n ++ (pages_of done ++ (pages_of pending ++ h.tail)))
            (h.written ∙ sym (length-append done pending))
          ∙ ap (λ rest. superblock_page c (length (done ++ pending)) ++ rest)
              (sym (append_assoc (pages_of done) (pages_of pending) h.tail)
                ∙ ap (λ p. p ++ h.tail) (sym (pages_of-append done pending)));
      position = h.position ∙ ap (λ n. page_len * (1 + n)) counts;
      committed = h.written ∙ sym (length-append done pending);
      written = h.written ∙ counts;
      page = h.page;
      used = h.used;
      done_fit = All-append Fits done pending h.done_fit h.pending_fit;
      pending_fit = tt;
      last_fits = h.last_fits;
      u32 = omega (arith, h.u32, counts);
      usable = h.usable;
      calm = h.calm;
    },
  )
    where
      counts : length done + length pending ≡ length (done ++ pending) + 0
      counts = omega (arith, length-append done pending)

  pub Holds-copy_in :
      (w : LogWriter) (done pending : List Group) (last : Group) (r : ObjectRecord)
      → Holds w done pending last
      → IsFramable r
      → length (frames_bytes last) + length (frame_bytes r) ≤ 4090
      → Holds (copy_in (frame_bytes r) w) done pending (last ++ (r ∷ []))
  unfolding copy_in frames_bytes
  Holds-copy_in w done pending last r h k fits = record {
    tail = h.tail;
    content = h.content;
    position = h.position;
    committed = h.committed;
    written = h.written;
    page = rw h.page (rw h.used (filled-snoc last r fits));
    used = omega (arith, h.used, longer);
    done_fit = h.done_fit;
    pending_fit = h.pending_fit;
    last_fits = record {
      framable = All-append IsFramable last (r ∷ []) h.last_fits.framable (k, tt);
      fits = omega (arith, longer, fits);
    };
    u32 = h.u32;
    usable = h.usable;
    calm = h.calm;
  }
    where
      longer :
          length (frames_bytes (last ++ (r ∷ [])))
          ≡ length (frames_bytes last) + length (frame_bytes r)
      longer =
          ap length (
            frames_bytes-append last (r ∷ [])
            ∙ ap (λ bytes. frames_bytes last ++ bytes) (append-nil (frame_bytes r)))
          ∙ length-append (frames_bytes last) (frame_bytes r)
