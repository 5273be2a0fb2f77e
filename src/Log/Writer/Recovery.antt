-- ===== src/Log/Writer/Recovery.antt =====
-- What a reader and a new writer find in the file of a writer: the records that are committed.
use mikura.Common.{
  ℕ, zero, suc, ◌+◌, ◌-◌, ◌*◌, ◌^◌, ◌<◌, ◌≤◌, ◌≡◌, refl, sym, ap, ◌∙◌, arith, false, List, [], ◌∷◌,
  ◌++◌, map,
}
use mikura.Common.{
  length, length-append, length-drop, take, drop, All, append_assoc, append-nil, ok, none, if-false,
  ltb, le→ltb, take-append, drop-append, replicate,
}
use mikura.Common.Steps.{>>=-ok}
use mikura.Common.Text.{str_eq}
use mikura.Record.{ObjectRecord}
use mikura.Log.Decode.RoundTrip.{stored}
use mikura.Log.Page.{
  Crc, page_len, pages_end, superblock_page, superblock_commit, seal_page_bytes, zero_page,
  verify_page, decode_data_page,
}
use mikura.Log.Page.Frames.{frames_bytes, decode_data_page-filled}
use mikura.Log.Page.Slices.{verify_page-seal_page}
use mikura.Log.Page.Superblock.{
  length-superblock_page, parse_superblock-superblock_page, superblock_magic-superblock_page,
  superblock_commit-superblock_page,
}
use mikura.Log.Read.{visit_pages, read_committed_records, read_records_after}
use mikura.Log.Writer.{
  LogWriter, SyncPolicy, open_log, blank, create, discard_pending, ensure_usable, set_len, cut,
  unchanged,
}
use mikura.Log.Writer.Files.{write_superblock-over, syncs, call-calm, drop-further}
use mikura.Log.Writer.Holds.{
  Group, joined, Fits, page_of, length-page_of, length-headed, pages_of, length-pages_of, Holds,
}
use mikura.Log.Writer.Turn.{usable-ok}
use mikura.Log.Writer.Commits.{filled-nil, Fits-nil}

map-append : (rs ss : List ObjectRecord) → map stored (rs ++ ss) ≡ map stored rs ++ map stored ss
map-append [] ss = refl
map-append (r ∷ rs) ss = λ i. stored r ∷ map-append rs ss i

take-front : (n : ℕ) (front rest : List ℕ) → length front ≡ n → take n (front ++ rest) ≡ front
take-front n front rest e = ap (λ n. take n (front ++ rest)) (sym e) ∙ take-append front rest

drop-front : (n : ℕ) (front rest : List ℕ) → length front ≡ n → drop n (front ++ rest) ≡ rest
drop-front n front rest e = ap (λ n. drop n (front ++ rest)) (sym e) ∙ drop-append front rest

module _ (c : Crc) where
  verify_page-page_of : (g : Group) → Fits g → verify_page c (page_of c g) ≡ ok tt
  unfolding page_of seal_page_bytes
  verify_page-page_of g h = verify_page-seal_page c _ (length-headed g h)

  decode-page_of : (g : Group) → Fits g → decode_data_page (page_of c g) none ≡ ok (map stored g)
  unfolding page_of
  decode-page_of g h = decode_data_page-filled c g h.framable h.fits

  visit_pages-pages_of :
      (gs : List Group) (rest : List ℕ)
      → All Fits gs
      → visit_pages c (length gs) (pages_of c gs ++ rest) none ≡ ok (map stored (joined gs))
  unfolding visit_pages pages_of
  visit_pages-pages_of [] rest h = refl
  visit_pages-pages_of (g ∷ gs) rest (h, k) =
      ap (λ bytes. visit_pages c (suc (length gs)) bytes none)
        (append_assoc (page_of c g) (pages_of c gs) rest)
      ∙ rw enough (
          rw front (
            rw (verify_page-page_of g h) (
              rw (decode-page_of g h) (
                rw behind
                  (rw (visit_pages-pages_of gs rest k) (ap ok (sym (map-append g (joined gs)))))))))
    where
      after : List ℕ
      after = pages_of c gs ++ rest

      enough : ltb (length (page_of c g ++ after)) page_len ≡ false
      enough =
          le→ltb (length (page_of c g ++ after)) page_len
            (omega (arith, length-append (page_of c g) after, length-page_of c g h))

      front : take page_len (page_of c g ++ after) ≡ page_of c g
      front = take-front page_len (page_of c g) after (length-page_of c g h)

      behind : drop page_len (page_of c g ++ after) ≡ after
      behind = drop-front page_len (page_of c g) after (length-page_of c g h)

  drop-pages_of :
      (k : ℕ) (gs : List Group) (rest : List ℕ)
      → All Fits gs
      → k ≤ length gs
      → drop (page_len * k) (pages_of c gs ++ rest) ≡ pages_of c (drop k gs) ++ rest
  unfolding pages_of
  drop-pages_of zero gs rest h le = ap (λ n. drop n (pages_of c gs ++ rest)) none_left
    where
      none_left : page_len * zero ≡ zero
      none_left = omega arith
  drop-pages_of (suc k) [] rest h le = absurd (omega arith)
  drop-pages_of (suc k) (g ∷ gs) rest (h, hs) le =
      ap (λ n. drop n ((page_of c g ++ pages_of c gs) ++ rest)) one_page
      ∙ ap (λ bytes. drop (length (page_of c g) + page_len * k) bytes)
          (append_assoc (page_of c g) (pages_of c gs) rest)
      ∙ drop-further (page_of c g) (page_len * k) (pages_of c gs ++ rest)
      ∙ drop-pages_of k gs rest hs (omega arith)
    where
      one_page : page_len * suc k ≡ length (page_of c g) + page_len * k
      one_page = omega (arith, length-page_of c g h)

  All-drop : (k : ℕ) (gs : List Group) → All Fits gs → All Fits (drop k gs)
  All-drop zero gs h = h
  All-drop (suc k) [] h = h
  All-drop (suc k) (g ∷ gs) (p, h) = All-drop k gs h

  module _ (w : LogWriter) (done pending : List Group) (last : Group)
      (h : Holds c w done pending last) where
    abbrev sup : List ℕ
    sup = superblock_page c (length done)

    abbrev rest : List ℕ
    rest = pages_of c pending ++ h.tail

    abbrev bytes : List ℕ
    bytes = sup ++ (pages_of c done ++ rest)

    length-bytes : page_len * (1 + length done) ≤ length bytes
    length-bytes = omega (
      arith,
      length-append sup (pages_of c done ++ rest),
      length-append (pages_of c done) rest,
      length-superblock_page c (length done),
      length-pages_of c done h.done_fit,
    )

    -- A reader asks for no more than that, where the sum wraps too.
    at_least : pages_end (length done) ≤ length bytes
    at_least = omega (arith, length-bytes)

    -- The end of the committed pages, where its sum does not wrap.
    end_of : length done + 1 < 2 ^ 32 → pages_end (length done) ≡ page_len * (1 + length done)
    end_of room = omega arith

    few : length done < 2 ^ 32
    few = omega (arith, h.u32)

    front_sup : take page_len bytes ≡ sup
    front_sup =
        take-front page_len sup (pages_of c done ++ rest) (length-superblock_page c (length done))

    -- The pages behind page `after`.
    drop-bytes :
        (after : ℕ)
        → after ≤ length done
        → drop (page_len * (after + 1)) bytes ≡ pages_of c (drop after done) ++ rest
    drop-bytes after le =
        ap (λ n. drop n bytes) one_page
        ∙ drop-further sup (page_len * after) (pages_of c done ++ rest)
        ∙ drop-pages_of after done rest h.done_fit le
      where
        one_page : page_len * (after + 1) ≡ length sup + page_len * after
        one_page = omega (arith, length-superblock_page c (length done))

    -- A reader of the file that a writer holds finds the committed records, as the log stores them,
    -- behind a page that is committed or page 0, whatever else is on the file.
    pub read_records_after-committed :
        (after : ℕ)
        → after ≤ length done
        → read_records_after c w.file.content after ≡ ok (map stored (joined (drop after done)))
    unfolding read_committed_records str_eq
    read_records_after-committed after le =
        ap (λ bytes. read_records_after c bytes after) h.content
        ∙ rw (le→ltb (length bytes) page_len (omega (arith, length-bytes))) (
            rw front_sup (
              rw (parse_superblock-superblock_page c (length done) few).0 (
                rw (superblock_magic-superblock_page c (length done) few) (
                  rw (le→ltb (length bytes) (pages_end (length done)) at_least) (
                    rw (le→ltb (length done) after le) (
                      rw (drop-bytes after le) (
                        ap (λ n. visit_pages c n (pages_of c (drop after done) ++ rest) none)
                          (sym (length-drop after done))
                        ∙ visit_pages-pages_of (drop after done) rest
                            (All-drop after done h.done_fit))))))))

    -- A writer that opens the file of another, as after a crash, succeeds and holds the records
    -- that were committed and nothing else, where fewer than 2 ^ 32 - 1 pages are committed.
    pub open_log-committed :
        (sync : SyncPolicy)
        → length done + 1 < 2 ^ 32
        → (w' : LogWriter) × (open_log c w.file.content sync ≡ ok w') × Holds c w' done [] []
    unfolding open_log blank pages_of str_eq
    open_log-committed sync room = (
      blank (record { content = bytes; position = pages_end (length done) }) sync (length done) [],
      ap (λ bytes. open_log c bytes sync) h.content
          ∙ if-false _ (le→ltb (length bytes) page_len (omega (arith, length-bytes)))
          ∙ rw (front_sup, open_log)
              (rw (superblock_magic-superblock_page c (length done) few) (
                ap (λ n. ok (blank (record { content = bytes; position = pages_end n }) sync n []))
                  counted)),
      record {
        tail = rest;
        content = refl;
        position = end_of room ∙ ap (λ n. page_len * (1 + n)) none_pending;
        committed = refl;
        written = none_pending;
        page = sym filled-nil;
        used = unfold frames_bytes in refl;
        done_fit = h.done_fit;
        pending_fit = tt;
        last_fits = Fits-nil;
        u32 = omega (arith, h.u32);
        usable = refl;
        calm = refl;
      },
    )
      where
        none_pending : length done ≡ length done + 0
        none_pending = omega arith

        counted : superblock_commit (take page_len bytes) ≡ length done
        counted =
            ap superblock_commit front_sup ∙ superblock_commit-superblock_page c (length done) few

    -- Where no call on the file fails and fewer than 2 ^ 32 - 1 pages are committed, discarding
    -- succeeds and leaves exactly what was committed.
    pub discard_pending-committed :
        length done + 1 < 2 ^ 32
        → (w' : LogWriter) × (discard_pending w ≡ (w', ok tt)) × Holds c w' done [] []
    unfolding discard_pending pages_of cut
    discard_pending-committed room = (
      _,
      >>=-ok ensure_usable _ w w tt (usable-ok w h.usable)
          ∙ >>=-ok (set_len end) _ emptied (record emptied { file = cut end w.file }) tt
              (call-calm (cut end) unchanged emptied h.calm)
          ∙ call-calm (λ f. record f { position = end }) unchanged
              (record emptied { file = cut end w.file }) h.calm,
      record {
        tail = [];
        content =
            ap (λ bytes. take end bytes ++ replicate (end - length bytes) 0) h.content
            ∙ ap (λ n. take n bytes ++ replicate (n - length bytes) 0)
                (ap pages_end h.committed ∙ end_of room ∙ sym length-kept)
            ∙ ap (λ n. take (length kept) bytes ++ replicate n 0) nothing
            ∙ append-nil (take (length kept) bytes)
            ∙ ap (take (length kept)) (sym (append_assoc sup (pages_of c done) rest))
            ∙ take-append kept rest
            ∙ ap (λ p. sup ++ p) (sym (append-nil (pages_of c done)));
        position =
            ap pages_end h.committed ∙ end_of room ∙ ap (λ n. page_len * (1 + n)) none_pending;
        committed = h.committed;
        written = h.committed ∙ none_pending;
        page = sym filled-nil;
        used = unfold frames_bytes in refl;
        done_fit = h.done_fit;
        pending_fit = tt;
        last_fits = Fits-nil;
        u32 = omega (arith, h.u32);
        usable = h.usable;
        calm = h.calm;
      },
    )
      where
        none_pending : length done ≡ length done + 0
        none_pending = omega arith

        kept : List ℕ
        kept = sup ++ pages_of c done

        length-kept : length kept ≡ page_len * (1 + length done)
        length-kept = omega (
          arith,
          length-append sup (pages_of c done),
          length-superblock_page c (length done),
          length-pages_of c done h.done_fit,
        )

        nothing : length kept - length bytes ≡ 0
        nothing = omega (arith, length-kept, length-bytes)

        end : ℕ
        end = pages_end w.committed

        emptied : LogWriter
        emptied = record w {
          page = zero_page;
          used = 0;
          written = w.committed;
          synced = w.committed;
        }

  -- A new log holds nothing.
  pub create-empty :
      (sync : SyncPolicy)
      → (w' : LogWriter) × (create c sync [] ≡ (w', ok tt)) × Holds c w' [] [] []
  unfolding create blank pages_of
  create-empty sync = (
    record fresh {
      file = record { content = superblock_page c 0 ++ []; position = page_len };
      fsync_count = syncs fresh;
    },
    write_superblock-over c fresh [] page_len refl refl refl,
    record {
      tail = [];
      content = refl;
      position = refl;
      committed = refl;
      written = refl;
      page = sym filled-nil;
      used = unfold frames_bytes in refl;
      done_fit = tt;
      pending_fit = tt;
      last_fits = Fits-nil;
      u32 = omega arith;
      usable = refl;
      calm = refl;
    },
  )
    where
      fresh : LogWriter
      fresh = blank (record { content = []; position = 0 }) sync 0 []
