-- ===== src/Log/Page/Grammar.antt =====
-- The grammar of the frames on a page of src/log.rs, without the loop that reads them.
use mikura.Common.{
  ℕ, zero, suc, ◌+◌, ◌*◌, ◌≤◌, ◌≡◌, ◌↔◌, refl, sym, ap, subst, ◌∙◌, arith, Option, List, [], ◌∷◌,
  ◌++◌, length, length-append, take, drop, length-take, take-drop, ltb, ok, ◌>>=◌, >>=-eq-ok, ok-eq,
  else-ok,
}
use mikura.Common.Words.{of_le}
use mikura.Common.Text.{Str}
use mikura.Errors.{short_record_body}
use mikura.Record.{ObjectRecord}
use mikura.Log.Decode.{decode_body}
use mikura.Log.Page.{decode_frames}
use mikura.Log.Page.Frames.{frame_step}

-- A frame at the start of some bytes: two bytes for the length of a body, the body of `r`, and `rest`.
pub record Framed (v1 : Option Str) (cur rest : List ℕ) (r : ObjectRecord) : Type 0 where
  pub low : ℕ
  pub high : ℕ
  pub body : List ℕ
  pub split : cur ≡ low ∷ high ∷ (body ++ rest)
  pub size : low + 256 * high ≡ length body
  pub decodes : decode_body body v1 ≡ ok r

-- The bytes are the frames of these records and nothing else.
unfoldable pub AreFrames : Option Str → List ℕ → List ObjectRecord → Type 0
AreFrames v1 cur [] = cur ≡ []
AreFrames v1 cur (r ∷ rs) = (rest : List ℕ) × (Framed v1 cur rest r × AreFrames v1 rest rs)

read-AreFrames :
    (f : ℕ) (cur : List ℕ) (v1 : Option Str) (rs : List ObjectRecord)
    → decode_frames f cur v1 ≡ ok rs
    → AreFrames v1 cur rs
unfolding decode_frames AreFrames
read-AreFrames f [] v1 rs h = subst (AreFrames v1 []) (ok-eq _ _ h) refl
read-AreFrames zero (b ∷ cur) v1 rs h = cc
read-AreFrames (suc f) (b ∷ []) v1 rs h = cc
read-AreFrames (suc f) (b ∷ d ∷ cur) v1 rs h =
    let len : ℕ = of_le (b ∷ d ∷ []) in
    let (enough, next) = else-ok (ltb (length cur) len) short_record_body _ h in
    let (r, body, rest) = >>=-eq-ok (decode_body (take len cur) v1) _ next in
    let (others, later, last) = >>=-eq-ok (decode_frames f (drop len cur) v1) _ rest in
    subst (AreFrames v1 (b ∷ d ∷ cur)) (ok-eq _ _ last) (
      drop len cur,
      (
        record {
          low = b;
          high = d;
          body = take len cur;
          split = ap (λ l. b ∷ d ∷ l) (sym (take-drop len cur));
          size = omega (arith, length-take len cur (ground arith));
          decodes = body;
        },
        read-AreFrames f (drop len cur) v1 others later,
      ),
    )

AreFrames-read :
    (f : ℕ) (cur : List ℕ) (v1 : Option Str) (rs : List ObjectRecord)
    → length cur ≤ f
    → AreFrames v1 cur rs
    → decode_frames f cur v1 ≡ ok rs
unfolding AreFrames decode_frames
AreFrames-read f cur v1 [] le e = ap (λ l. decode_frames f l v1) e ∙ nothing f
  where
    nothing : (f : ℕ) → decode_frames f [] v1 ≡ ok []
    nothing zero = refl
    nothing (suc f) = refl
AreFrames-read zero cur v1 (r ∷ rs) le (rest, (h, more)) = absurd (omega (arith, ap length h.split))
AreFrames-read (suc f) cur v1 (r ∷ rs) le (rest, (h, more)) =
    ap (λ l. decode_frames (suc f) l v1) h.split
    ∙ frame_step f h.low h.high h.body rest r v1 (omega (arith, h.size)) h.decodes
    ∙ ap (λ o. o >>= λ rs. ok (r ∷ rs))
        (AreFrames-read f rest v1 rs (omega (arith, ap length h.split, length-append h.body rest))
          more)

-- With a round for each byte or more, the loop over the frames of a page succeeds with some records
-- exactly when the bytes are, one behind the other and with nothing left, two bytes of length and a
-- body of that length for each of the records, and each body decodes to its record.
pub decode_frames-AreFrames :
    (f : ℕ) (cur : List ℕ) (v1 : Option Str) (rs : List ObjectRecord)
    → length cur ≤ f
    → (decode_frames f cur v1 ≡ ok rs) ↔ AreFrames v1 cur rs
decode_frames-AreFrames f cur v1 rs le = (read-AreFrames f cur v1 rs, AreFrames-read f cur v1 rs le)
