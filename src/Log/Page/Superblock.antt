-- ===== src/Log/Page/Superblock.antt =====
-- The superblock: what a reader takes from one that a writer sealed.
use mikura.Common.{ℕ, ◌^◌, ◌<◌, ◌≡◌, refl, sym, ap, ◌∙◌, arith, List}
use mikura.Common.{length, ok, err}
use mikura.Common.Words.{to_le, of_le, of_le-to_le}
use mikura.Common.Text.{str_eq}
use mikura.Log.Page.{
  Crc, write_at, slice, seal_page, verify_page, page_len, zero_page, magic, superblock_commit,
  superblock_page, superblock_magic, superblock_with_committed, parse_superblock, require_magic,
  parse_v1_superblock,
}
use mikura.Log.Page.Slices.{
  length-write_at, slice-write_at, slice-write_at_before, slice-seal_page, verify_page-seal_page,
  length-seal_page, length-zero_page,
}
use mikura.Errors.{already_namespaced}

abbrev header : List ℕ
header = write_at 12 (to_le 2 page_len) (write_at 4 magic zero_page)

length-header : length header ≡ page_len
length-header =
    length-write_at 12 (to_le 2 page_len) (write_at 4 magic zero_page)
      (omega (arith, inner, length-zero_page))
    ∙ inner
    ∙ length-zero_page
  where
    inner : length (write_at 4 magic zero_page) ≡ length zero_page
    inner = length-write_at 4 magic zero_page (omega (arith, length-zero_page))

slice-header : slice 4 8 header ≡ magic
slice-header =
    slice-write_at_before 4 8 12 (to_le 2 page_len) (write_at 4 magic zero_page) (omega arith)
    ∙ slice-write_at 4 magic zero_page (omega (arith, length-zero_page))

module _ (c : Crc) where
  -- A sealed page in which a commit count was written: its check, magic and count.
  module _ (page : List ℕ) (full : length page ≡ page_len) (n : ℕ) (u32 : n < 2 ^ 32) where
    abbrev counted : List ℕ
    counted = seal_page c (write_at 14 (to_le 4 n) page)

    length-counted : length (write_at 14 (to_le 4 n) page) ≡ page_len
    length-counted = length-write_at 14 (to_le 4 n) page (omega (arith, full)) ∙ full

    verify-counted : verify_page c counted ≡ ok tt
    verify-counted = verify_page-seal_page c (write_at 14 (to_le 4 n) page) length-counted

    magic-counted : slice 4 8 counted ≡ slice 4 8 page
    magic-counted =
        slice-seal_page c 0 8 (write_at 14 (to_le 4 n) page) (omega (arith, length-counted))
        ∙ slice-write_at_before 4 8 14 (to_le 4 n) page (omega arith)

    commit-counted : superblock_commit counted ≡ n
    unfolding superblock_commit
    commit-counted =
        ap of_le
          (slice-seal_page c 10 4 (write_at 14 (to_le 4 n) page) (omega (arith, length-counted)))
        ∙ ap of_le (slice-write_at 14 (to_le 4 n) page (omega (arith, full)))
        ∙ of_le-to_le 4 n u32

  -- The commit point, below 2 ^ 32, survives a write and a read of the superblock, which a V1
  -- reader refuses.
  pub parse_superblock-superblock_page :
      (n : ℕ)
      → n < 2 ^ 32
      → (parse_superblock c (superblock_page c n) ≡ ok n)
        × (parse_v1_superblock c (superblock_page c n) ≡ err already_namespaced)
  unfolding parse_superblock require_magic parse_v1_superblock superblock_page superblock_magic
      str_eq
  parse_superblock-superblock_page n h = (
    rw (verify-counted header length-header n h) (
        rw (magic-counted header length-header n h ∙ slice-header)
          (rw (commit-counted header length-header n h) refl)),
    rw (verify-counted header length-header n h)
        (rw (magic-counted header length-header n h ∙ slice-header) refl),
  )

  -- The parts of a new superblock.
  pub superblock_magic-superblock_page :
      (n : ℕ) → n < 2 ^ 32 → superblock_magic c (superblock_page c n) ≡ ok magic
  unfolding superblock_magic superblock_page
  superblock_magic-superblock_page n h =
      rw (verify-counted header length-header n h)
        (ap ok (magic-counted header length-header n h ∙ slice-header))

  pub superblock_commit-superblock_page :
      (n : ℕ) → n < 2 ^ 32 → superblock_commit (superblock_page c n) ≡ n
  unfolding superblock_page
  superblock_commit-superblock_page n h = commit-counted header length-header n h

  pub length-superblock_page : (n : ℕ) → length (superblock_page c n) ≡ page_len
  unfolding superblock_page
  length-superblock_page n =
      length-seal_page c (write_at 14 (to_le 4 n) header) (omega (arith, long)) ∙ long
    where
      long : length (write_at 14 (to_le 4 n) header) ≡ page_len
      long = length-write_at 14 (to_le 4 n) header (omega (arith, length-header)) ∙ length-header

  verified-length : (page : List ℕ) → verify_page c page ≡ ok tt → length page ≡ page_len
  unfolding verify_page
  verified-length page h = ground arith

  superblock_magic-eq :
      (page : List ℕ) → verify_page c page ≡ ok tt → superblock_magic c page ≡ ok (slice 4 8 page)
  unfolding superblock_magic
  superblock_magic-eq page v = rw v refl

  parsed :
      (page : List ℕ) (m : ℕ)
      → parse_superblock c page ≡ ok m
      → (verify_page c page ≡ ok tt) × (require_magic (slice 4 8 page) ≡ ok tt)
  unfolding parse_superblock superblock_magic
  parsed page m h = ground arith

  unparsed :
      (page : List ℕ) {n : ℕ}
      → verify_page c page ≡ ok tt
      → require_magic (slice 4 8 page) ≡ ok tt
      → superblock_commit page ≡ n
      → parse_superblock c page ≡ ok n
  unfolding parse_superblock superblock_magic
  unparsed page v q k = rw v (rw q (ap ok k))

  -- The copy of a superblock that a backup publishes keeps its magic, and commits the pages that it
  -- is given, fewer than 2 ^ 32.
  pub parse_superblock-superblock_with_committed :
      (page : List ℕ) (m n : ℕ)
      → parse_superblock c page ≡ ok m
      → n < 2 ^ 32
      → (copy : List ℕ) × (superblock_with_committed c page n ≡ ok copy)
        × (parse_superblock c copy ≡ ok n)
        × (superblock_magic c copy ≡ superblock_magic c page)
  unfolding superblock_with_committed
  parse_superblock-superblock_with_committed page m n h u32 =
      let (v, q) = parsed page m h in
      let full : length page ≡ page_len = verified-length page v in
      let same : slice 4 8 (counted page full n u32) ≡ slice 4 8 page =
        magic-counted page full n u32 in
      let v' : verify_page c (counted page full n u32) ≡ ok tt = verify-counted page full n u32 in
      (
        counted page full n u32,
        rw v refl,
        unparsed (counted page full n u32) v' (rw same q) (commit-counted page full n u32),
        superblock_magic-eq (counted page full n u32) v'
            ∙ ap ok same
            ∙ sym (superblock_magic-eq page v),
      )
