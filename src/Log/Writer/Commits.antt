-- ===== src/Log/Writer/Commits.antt =====
-- How the operations of the writer move the records that it holds. Every call on the file succeeds.
use mikura.Common.{
  ℕ, zero, suc, ◌+◌, ◌≡◌, refl, sym, subst, ◌∙◌, arith, Bool, true, false, List, [], ◌∷◌, ◌++◌,
}
use mikura.Common.{
  length, append-nil, Result, ok, inl, inr, Bool-cases, ◌==◌, leb, ◌&&◌, if-true, if-false,
}
use mikura.Common.Words.{sub_u32}
use mikura.Common.Steps.{>>=-ok}
use mikura.Errors.{Error}
use mikura.Log.Page.{Crc, page_hdr, write_at, zero_page}
use mikura.Log.Page.Frames.{frames_bytes, filled}
use mikura.Log.Writer.{
  LogWriter, commit_pending, page_written, sync_data, durable, group_size, is_none,
}
use mikura.Log.Writer.Files.{syncs, sync_data-calm}
use mikura.Log.Writer.Holds.{Group, Fits, Holds, Holds-write_superblock}

write_at-nil : (start : ℕ) (page : List ℕ) → write_at start [] page ≡ page
unfolding write_at
write_at-nil zero page = refl
write_at-nil (suc start) [] = refl
write_at-nil (suc start) (b ∷ page) = λ i. b ∷ write_at-nil start page i

pub filled-nil : filled [] ≡ zero_page
unfolding filled frames_bytes
filled-nil = write_at-nil page_hdr zero_page

pub Fits-nil : Fits []
unfolding frames_bytes
Fits-nil = record { framable = tt; fits = omega arith }

-- The pages behind the commit point once the buffer is closed.
abbrev pub closed : List Group → Group → List Group
closed pending [] = pending
closed pending (r ∷ rs) = pending ++ ((r ∷ rs) ∷ [])

module _ (c : Crc) where
  pub Holds-synced :
      (w : LogWriter) (done pending : List Group) (last : Group) (n m : ℕ) (hold : Bool)
      → Holds c w done pending last
      → Holds c (record w { fsync_count = n; synced = m; hold_commits = hold }) done pending last
  Holds-synced w done pending last n m hold h = record {
    tail = h.tail;
    content = h.content;
    position = h.position;
    committed = h.committed;
    written = h.written;
    page = h.page;
    used = h.used;
    done_fit = h.done_fit;
    pending_fit = h.pending_fit;
    last_fits = h.last_fits;
    u32 = h.u32;
    usable = h.usable;
    calm = h.calm;
  }

  -- A step that succeeds with every group kept in order, the committed ones first.
  pub record Leaves (out : LogWriter × Result Error (Unit {0})) (done pending : List Group)
      : Type 0 where
    pub w' : LogWriter
    pub done' : List Group
    pub pending' : List Group
    pub more : List Group
    pub result : out ≡ (w', ok tt)
    pub holds : Holds c w' done' pending' []
    pub grown : done' ≡ done ++ more
    pub kept : done' ++ pending' ≡ done ++ pending

  pub Holds-commit_pending :
      (w : LogWriter) (done pending : List Group) (last : Group)
      → Holds c w done pending last
      → (w' : LogWriter) × (commit_pending c w ≡ (w', ok tt)) × Holds c w' (done ++ pending) [] last
  unfolding commit_pending
  Holds-commit_pending w done [] last h = (
    w,
    rw h.written (rw h.committed (rw same refl)),
    subst (λ gs. Holds c w gs [] last) (sym (append-nil done)) h,
  )
    where
      same : ((length done + 0) == length done) ≡ true
      same = ground arith
  Holds-commit_pending w done (g ∷ pending) last h =
      let (w', e, k) = Holds-write_superblock c w done (g ∷ pending) last (syncs w) h in
      (
        w',
        rw differ (
            >>=-ok sync_data _ w (record w { fsync_count = syncs w }) tt (sync_data-calm w h.calm)
            ∙ e),
        k,
      )
    where
      differ : (w.written == w.committed) ≡ false
      differ = ground (arith, h.written, h.committed)

  committed-Leaves :
      (out : LogWriter × Result Error (Unit {0})) (done pending : List Group) (w' : LogWriter)
      → out ≡ (w', ok tt)
      → Holds c w' (done ++ pending) [] []
      → Leaves out done pending
  committed-Leaves out done pending w' e h = record {
    w' = w';
    done' = done ++ pending;
    pending' = [];
    more = pending;
    result = e;
    holds = h;
    grown = refl;
    kept = append-nil (done ++ pending);
  }

  pub held-Leaves :
      (out : LogWriter × Result Error (Unit {0})) (done pending : List Group) (w' : LogWriter)
      → out ≡ (w', ok tt)
      → Holds c w' done pending []
      → Leaves out done pending
  held-Leaves out done pending w' e h = record {
    w' = w';
    done' = done;
    pending' = pending;
    more = [];
    result = e;
    holds = h;
    grown = sym (append-nil done);
    kept = refl;
  }

  pub Leaves-page_written :
      (w : LogWriter) (done pending : List Group)
      → Holds c w done pending []
      → Leaves (page_written c w) done pending
  unfolding page_written
  Leaves-page_written w done pending h = elim (Bool-cases w.hold_commits) [
    | inl e ↦
        elim (Bool-cases (durable w.sync && leb (group_size w.sync) (sub_u32 w.written w.synced))) [
          | inl s ↦
              held-Leaves _ done pending _
                (if-true _ e
                  ∙ if-true _ s
                  ∙ >>=-ok sync_data _ w (record w { fsync_count = syncs w }) tt
                      (sync_data-calm w h.calm))
                (Holds-synced w done pending [] (syncs w) w.written w.hold_commits h)
          | inr s ↦ held-Leaves _ done pending w (if-true _ e ∙ if-false _ s) h
        ]
    | inr e ↦ elim (Bool-cases (is_none w.sync)) [
      | inl s ↦
          let (w', r, k) = Holds-write_superblock c w done pending [] w.fsync_count h in
          committed-Leaves _ done pending w' (if-false _ e ∙ if-true _ s ∙ r) k
      | inr s ↦ elim (Bool-cases (leb (group_size w.sync) (sub_u32 w.written w.committed))) [
        | inl t ↦
            let (w', r, k) = Holds-commit_pending w done pending [] h in
            committed-Leaves _ done pending w' (if-false _ e ∙ if-false _ s ∙ if-true _ t ∙ r) k
        | inr t ↦ held-Leaves _ done pending w (if-false _ e ∙ if-false _ s ∙ if-false _ t) h
      ]
    ]
  ]
