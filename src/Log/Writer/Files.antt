-- ===== src/Log/Writer/Files.antt =====
-- The calls of the log on its file, where none fails.
use mikura.Common.{ℕ, suc, ◌+◌, ◌-◌, ◌≡◌, ◌≤◌, refl, sym, ap, ◌∙◌, arith, List, [], ◌∷◌, ◌++◌}
use mikura.Common.{
  length, length-append, take, drop, take-append, drop-append, replicate, append-nil, ok,
  if◌then◌else◌, if-false, Bool-cases, inl, inr, le→ltb, ltb,
}
use mikura.Common.Steps.{>>=-ok}
use mikura.Log.Page.{Crc, page_len, superblock_page}
use mikura.Log.Page.Superblock.{length-superblock_page}
use mikura.Log.Writer.{
  File, wrote, LogWriter, call, sync_data, durable, write_superblock, write_superblock_body, quiet,
  seek, write_all, unchanged, or_poison,
}

pub drop-further :
    (pre : List ℕ) (n : ℕ) (tail : List ℕ) → drop (length pre + n) (pre ++ tail) ≡ drop n tail
drop-further [] n tail = ap (λ m. drop m tail) (none n)
  where
    none : (n : ℕ) → 0 + n ≡ n
    none n = omega arith
drop-further (b ∷ pre) n tail =
    ap (λ m. drop m (b ∷ (pre ++ tail))) (one (length pre) n) ∙ drop-further pre n tail
  where
    one : (k n : ℕ) → suc k + n ≡ suc (k + n)
    one k n = omega arith

-- A write at the end of what is known of the file goes over what follows.
pub wrote-at :
    (pre tail bytes : List ℕ) (f : File)
    → f.content ≡ pre ++ tail
    → f.position ≡ length pre
    → wrote bytes f ≡ record {
      content = pre ++ (bytes ++ drop (length bytes) tail);
      position = length pre + length bytes;
    }
unfolding wrote
wrote-at pre tail bytes f h k = rw h (rw k (rw padded (rw take-append (rw behind refl))))
  where
    padded : (pre ++ tail) ++ replicate (length pre - length (pre ++ tail)) 0 ≡ pre ++ tail
    padded = ap (λ n. (pre ++ tail) ++ replicate n 0) (none-missing) ∙ append-nil (pre ++ tail)
      where
        none-missing : length pre - length (pre ++ tail) ≡ 0
        none-missing = omega (arith, length-append pre tail)

    behind : drop (length pre + length bytes) (pre ++ tail) ≡ drop (length bytes) tail
    behind = drop-further pre (length bytes) tail

-- A call that does not fail.
pub call-calm :
    (done : File → File) (torn : ℕ → File → File) (w : LogWriter)
    → w.faults ≡ []
    → call done torn w ≡ (record w { file = done w.file }, ok tt)
unfolding call
call-calm done torn w h = rw h refl

abbrev pub syncs : LogWriter → ℕ
syncs w = if durable w.sync then w.fsync_count + 1 else w.fsync_count

pub sync_data-calm :
    (w : LogWriter) → w.faults ≡ [] → sync_data w ≡ (record w { fsync_count = syncs w }, ok tt)
unfolding sync_data call
sync_data-calm w h = elim (Bool-cases (durable w.sync)) [
  | inl e ↦ rw e (rw h refl)
  | inr e ↦ rw e refl
]

module _ (c : Crc) where
  -- The superblock is written over the first page, and the position comes back to where it was, or
  -- behind the superblock.
  pub write_superblock-over :
      (w : LogWriter) (rest : List ℕ) (end : ℕ)
      → w.faults ≡ []
      → drop page_len w.file.content ≡ rest
      → (if ltb w.file.position page_len then page_len else w.file.position) ≡ end
      → write_superblock c w ≡ (
        record w {
          file = record { content = superblock_page c w.committed ++ rest; position = end };
          fsync_count = syncs w;
        },
        ok tt,
      )
  unfolding write_superblock write_superblock_body
  write_superblock-over w rest end calm behind back = ap (or_poison c) (
      >>=-ok quiet _ w w tt (call-calm (λ f. f) unchanged w calm)
      ∙ >>=-ok (seek 0) _ w sought tt (call-calm (λ f. record f { position = 0 }) unchanged w calm)
      ∙ >>=-ok (write_all sup) _ sought written tt (
          call-calm (wrote sup) (λ n. wrote (take n sup)) sought calm
          ∙ ap (λ f. (record w { file = f }, ok tt)) over)
      ∙ >>=-ok sync_data _ written synced tt (sync_data-calm written calm)
      ∙ call-calm
          (λ f. record f {
            position = if ltb w.file.position page_len then page_len else w.file.position;
          })
          unchanged synced calm
      ∙ ap (λ p. (record synced { file = record { content = sup ++ rest; position = p } }, ok tt))
          back)
    where
      sup : List ℕ
      sup = superblock_page c w.committed

      sought : LogWriter
      sought = record w { file = record { content = w.file.content; position = 0 } }

      written : LogWriter
      written = record w { file = record { content = sup ++ rest; position = 0 + length sup } }

      synced : LogWriter
      synced = record written { fsync_count = syncs w }

      over : wrote sup sought.file ≡ written.file
      over =
          wrote-at [] w.file.content sup sought.file refl refl
          ∙ ap (λ tail. record { content = sup ++ tail; position = 0 + length sup }) gone
        where
          gone : drop (length sup) w.file.content ≡ rest
          gone = ap (λ n. drop n w.file.content) (length-superblock_page c w.committed) ∙ behind

  -- The superblock is written over the one in place, and the position is as it was.
  pub write_superblock-calm :
      (w : LogWriter) (old rest : List ℕ)
      → w.faults ≡ []
      → w.file.content ≡ old ++ rest
      → length old ≡ page_len
      → page_len ≤ w.file.position
      → write_superblock c w ≡ (
        record w {
          file = record {
            content = superblock_page c w.committed ++ rest;
            position = w.file.position;
          };
          fsync_count = syncs w;
        },
        ok tt,
      )
  write_superblock-calm w old rest calm content long behind =
      write_superblock-over w rest w.file.position calm
        (ap (drop page_len) content
          ∙ ap (λ n. drop n (old ++ rest)) (sym long)
          ∙ drop-append old rest)
        (if-false _ (le→ltb w.file.position page_len behind))
