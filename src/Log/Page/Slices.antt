-- ===== src/Log/Page/Slices.antt =====
-- Reading a page after a range of it was written, and after it was sealed.
use mikura.Common.{ℕ, zero, suc, ◌+◌, ◌≤◌, ◌≡◌, refl, ap, ◌∙◌, arith, List, [], ◌∷◌, ◌++◌}
use mikura.Common.{length, length-append, take, drop, take-append, length-drop, ok, ==_refl}
use mikura.Common.{length-replicate}
use mikura.Common.Words.{to_le, of_le-to_le}
use mikura.Log.Page.{Crc, write_at, slice, seal_page, verify_page, page_crc, page_len, zero_page}

pub length-write_at :
    (start : ℕ) (bytes page : List ℕ)
    → start + length bytes ≤ length page
    → length (write_at start bytes page) ≡ length page
unfolding write_at
length-write_at zero bytes page h =
    omega (arith, length-append bytes (drop (length bytes) page), length-drop (length bytes) page)
length-write_at (suc start) bytes [] h = refl
length-write_at (suc start) bytes (b ∷ page) h =
    omega (arith, length-write_at start bytes page (omega arith))

-- The range that was written.
pub slice-write_at :
    (start : ℕ) (bytes page : List ℕ)
    → start ≤ length page
    → slice start (length bytes) (write_at start bytes page) ≡ bytes
unfolding slice write_at
slice-write_at zero bytes page h = take-append bytes (drop (length bytes) page)
slice-write_at (suc start) bytes [] h = absurd (omega arith)
slice-write_at (suc start) bytes (b ∷ page) h =
    unfold slice in slice-write_at start bytes page (omega arith)

take-write_at :
    (start n : ℕ) (bytes page : List ℕ)
    → n ≤ start
    → take n (write_at start bytes page) ≡ take n page
unfolding write_at
take-write_at start zero bytes page h = refl
take-write_at zero (suc n) bytes page h = absurd (omega arith)
take-write_at (suc start) (suc n) bytes [] h = refl
take-write_at (suc start) (suc n) bytes (b ∷ page) h =
    λ i. b ∷ take-write_at start n bytes page (omega arith) i

-- A range in front of the one that was written.
pub slice-write_at_before :
    (at n start : ℕ) (bytes page : List ℕ)
    → at + n ≤ start
    → slice at n (write_at start bytes page) ≡ slice at n page
unfolding slice write_at
slice-write_at_before zero n start bytes page h = take-write_at start n bytes page (omega arith)
slice-write_at_before (suc at) n zero bytes page h = absurd (omega arith)
slice-write_at_before (suc at) n (suc start) bytes [] h = refl
slice-write_at_before (suc at) n (suc start) bytes (b ∷ page) h =
    unfold slice in slice-write_at_before at n start bytes page (omega arith)

drop-overwritten :
    (pos : ℕ) (bytes page : List ℕ)
    → length bytes ≤ pos
    → length bytes ≤ length page
    → drop pos (bytes ++ drop (length bytes) page) ≡ drop pos page
drop-overwritten pos [] page h k = refl
drop-overwritten zero (x ∷ bytes) page h k = absurd (omega arith)
drop-overwritten (suc pos) (x ∷ bytes) [] h k = absurd (omega arith)
drop-overwritten (suc pos) (x ∷ bytes) (b ∷ page) h k =
    drop-overwritten pos bytes page (omega arith) (omega arith)

drop-write_at :
    (start pos : ℕ) (bytes page : List ℕ)
    → start + length bytes ≤ pos
    → start + length bytes ≤ length page
    → drop pos (write_at start bytes page) ≡ drop pos page
unfolding write_at
drop-write_at zero pos bytes page h k = drop-overwritten pos bytes page (omega arith) (omega arith)
drop-write_at (suc start) zero bytes page h k = absurd (omega arith)
drop-write_at (suc start) (suc pos) bytes [] h k = refl
drop-write_at (suc start) (suc pos) bytes (b ∷ page) h k =
    drop-write_at start pos bytes page (omega arith) (omega arith)

-- A range behind the one that was written.
pub slice-write_at_after :
    (start pos n : ℕ) (bytes page : List ℕ)
    → start + length bytes ≤ pos
    → start + length bytes ≤ length page
    → slice pos n (write_at start bytes page) ≡ slice pos n page
unfolding slice
slice-write_at_after start pos n bytes page h k =
    ap (take n) (drop-write_at start pos bytes page h k)

module _ (c : Crc) where
  -- The seal changes the first four bytes.
  pub slice-seal_page :
      (at n : ℕ) (page : List ℕ)
      → 4 ≤ length page
      → slice (suc (suc (suc (suc at)))) n (seal_page c page)
        ≡ slice (suc (suc (suc (suc at)))) n page
  unfolding slice seal_page
  slice-seal_page at n (b0 ∷ b1 ∷ b2 ∷ b3 ∷ page) h = refl
  slice-seal_page at n [] h = absurd (omega arith)
  slice-seal_page at n (b0 ∷ []) h = absurd (omega arith)
  slice-seal_page at n (b0 ∷ b1 ∷ []) h = absurd (omega arith)
  slice-seal_page at n (b0 ∷ b1 ∷ b2 ∷ []) h = absurd (omega arith)

  pub length-seal_page : (page : List ℕ) → 4 ≤ length page → length (seal_page c page) ≡ length page
  unfolding seal_page
  length-seal_page page h =
      omega
        (arith, length-append (to_le 4 (c.hash (drop 4 page))) (drop 4 page), length-drop 4 page)

  drop-seal_page : (page : List ℕ) → drop 4 (seal_page c page) ≡ drop 4 page
  unfolding seal_page
  drop-seal_page page = refl

  page_crc-seal_page : (page : List ℕ) → page_crc (seal_page c page) ≡ c.hash (drop 4 page)
  unfolding page_crc seal_page
  page_crc-seal_page page = of_le-to_le 4 (c.hash (drop 4 page)) (c.hash_u32 (drop 4 page))

  -- Every sealed page passes its check.
  pub verify_page-seal_page :
      (page : List ℕ) → length page ≡ page_len → verify_page c (seal_page c page) ≡ ok tt
  unfolding verify_page
  verify_page-seal_page page h =
      rw (length-seal_page page (omega arith) ∙ h)
        (rw drop-seal_page (rw page_crc-seal_page (rw (==_refl (c.hash (drop 4 page))) refl)))

-- The buffer of a new page.
pub length-zero_page : length zero_page ≡ page_len
unfolding zero_page
length-zero_page = length-replicate {A = ℕ} 4096 0
