-- ===== src/Log/Page/Frames.antt =====
-- The framed records of a data page of src/log.rs, and `decode_data_page` on them.
use mikura.Common.{
  ℕ, zero, suc, ◌+◌, ◌^◌, ◌≤◌, ◌≡◌, refl, sym, ap, ◌∙◌, arith, List, [], ◌∷◌, ◌++◌, map,
}
use mikura.Common.{length, length-append, take-append, drop-append, All, append_assoc}
use mikura.Common.{ok, ◌>>=◌, lt→ltb, le→ltb, Option, none}
use mikura.Common.Words.{to_le, of_le, of_le-to_le}
use mikura.Common.Text.{Str}
use mikura.Record.{ObjectRecord, IsStorable}
use mikura.Log.Body.{framed_record}
use mikura.Log.Body.Bytes.{body_bytes}
use mikura.Log.Decode.{decode_body}
use mikura.Log.Decode.RoundTrip.{stored, decode_body-bytes}
use mikura.Log.Page.{
  Crc, page_len, page_hdr, decode_frames, decode_data_page, slice, seal_page_bytes, seal_page,
  zero_page, write_at,
}
use mikura.Log.Page.Slices.{
  slice-seal_page, slice-write_at, slice-write_at_after, length-write_at, length-zero_page,
}

-- A record that the log takes: its body is within the limits and its frame fits a page.
pub record IsFramable (r : ObjectRecord) : Type 0 where
  pub storable : IsStorable r
  pub fits : 2 + length (body_bytes r) ≤ 4090

unfoldable pub frame_bytes : ObjectRecord → List ℕ
frame_bytes r = to_le 2 (length (body_bytes r)) ++ body_bytes r

unfoldable pub frames_bytes : List ObjectRecord → List ℕ
frames_bytes [] = []
frames_bytes (r ∷ rs) = frame_bytes r ++ frames_bytes rs

pub frames_bytes-append :
    (rs ss : List ObjectRecord) → frames_bytes (rs ++ ss) ≡ frames_bytes rs ++ frames_bytes ss
unfolding frames_bytes
frames_bytes-append [] ss = refl
frames_bytes-append (r ∷ rs) ss =
    rw (frames_bytes-append rs ss) (sym (append_assoc (frame_bytes r) _ _))

pub length-frame_bytes : (r : ObjectRecord) → length (frame_bytes r) ≡ 2 + length (body_bytes r)
unfolding frame_bytes
length-frame_bytes r = omega arith

pub framed_record-bytes :
    (r : ObjectRecord) → IsFramable r → framed_record (body_bytes r) ≡ ok (frame_bytes r)
unfolding framed_record frame_bytes
framed_record-bytes r h = rw (lt→ltb (length (body_bytes r)) (2 ^ 16) (omega (arith, h.fits))) refl

pub frame_step :
    (f b d : ℕ) (body rest : List ℕ) (r : ObjectRecord) (v1 : Option Str)
    → of_le (b ∷ d ∷ []) ≡ length body
    → decode_body body v1 ≡ ok r
    → decode_frames (suc f) (b ∷ d ∷ (body ++ rest)) v1
      ≡ (decode_frames f rest v1 >>= λ rs. ok (r ∷ rs))
unfolding decode_frames
frame_step f b d body rest r v1 e k = rw e (
    rw (le→ltb (length (body ++ rest)) (length body) (omega (arith, length-append body rest)))
      (rw take-append (rw drop-append (rw k refl))))

pub decode_frames-bytes :
    (f : ℕ) (rs : List ObjectRecord)
    → All IsFramable rs
    → length (frames_bytes rs) ≤ f
    → decode_frames f (frames_bytes rs) none ≡ ok (map stored rs)
unfolding frames_bytes frame_bytes
decode_frames-bytes zero [] h k = unfold decode_frames in refl
decode_frames-bytes (suc f) [] h k = unfold decode_frames in refl
decode_frames-bytes zero (r ∷ rs) h k =
    absurd (omega (arith, length-append (frame_bytes r) (frames_bytes rs), length-frame_bytes r))
decode_frames-bytes (suc f) (r ∷ rs) (p, h) k =
    (frame_step f _ _ (body_bytes r) (frames_bytes rs) (stored r) none
      (of_le-to_le 2 (length (body_bytes r)) (omega (arith, p.fits)))
      (decode_body-bytes r p.storable))
    ∙ rw
        (decode_frames-bytes f rs h
          (omega (arith, length-append (frame_bytes r) (frames_bytes rs), length-frame_bytes r)))
        refl

-- The page buffer with the frames of some records copied in.
unfoldable pub filled : List ObjectRecord → List ℕ
filled rs = write_at page_hdr (frames_bytes rs) zero_page

module _ (c : Crc) where
  -- A page that was filled with the frames of some records and sealed decodes to those records,
  -- where each record fits and so do all the frames.
  pub decode_data_page-filled :
      (rs : List ObjectRecord)
      → All IsFramable rs
      → length (frames_bytes rs) ≤ 4090
      → decode_data_page (seal_page_bytes c (filled rs) (length (frames_bytes rs))) none
        ≡ ok (map stored rs)
  unfolding decode_data_page seal_page_bytes filled
  decode_data_page-filled rs h fits = rw used_eq (
      rw (le→ltb page_len (page_hdr + used) (omega arith))
        (rw body_eq (decode_frames-bytes used rs h (omega arith))))
    where
      used : ℕ
      used = length (frames_bytes rs)

      buffer : List ℕ
      buffer = write_at page_hdr (frames_bytes rs) zero_page

      full : length buffer ≡ page_len
      full =
          length-write_at page_hdr (frames_bytes rs) zero_page (omega (arith, length-zero_page))
          ∙ length-zero_page

      full' : length (write_at 4 (to_le 2 used) buffer) ≡ page_len
      full' = length-write_at 4 (to_le 2 used) buffer (omega (arith, full)) ∙ full

      used_eq : of_le (slice 4 2 (seal_page c (write_at 4 (to_le 2 used) buffer))) ≡ used
      used_eq =
          ap of_le (
            slice-seal_page c 0 2 (write_at 4 (to_le 2 used) buffer) (omega (arith, full'))
            ∙ slice-write_at 4 (to_le 2 used) buffer (omega (arith, full)))
          ∙ of_le-to_le 2 used (omega arith)

      body_eq : slice 6 used (seal_page c (write_at 4 (to_le 2 used) buffer)) ≡ frames_bytes rs
      body_eq =
          slice-seal_page c 2 used (write_at 4 (to_le 2 used) buffer) (omega (arith, full'))
          ∙ slice-write_at_after 4 6 used (to_le 2 used) buffer (omega arith) (omega (arith, full))
          ∙ slice-write_at page_hdr (frames_bytes rs) zero_page (omega (arith, length-zero_page))
