-- ===== src/Schema/Rows/Links.antt =====
-- Entries of a descriptor's row, written and read.
use mikura.Common.{
  ℕ, ◌-◌, ◌^◌, ◌≤◌, ◌≡◌, refl, ap, ◌∙◌, arith, Bool, true, false, not, ◌&&◌, ◌||◌, [], ◌∷◌, ◌++◌,
  all, leb, ok, else-ok,
}
use mikura.Common.Text.{Str, ascii, str_eq}
use mikura.Common.Strings.{split_char, show_nat, strip_prefix, parse_unsigned}
use mikura.Common.Splits.{Free, split_char-append, split_char-Free}
use mikura.Common.Decimal.{parse_digits-show_nat}
use mikura.Schema.Descriptor.{SchemaLink, is_token_char, token}
use mikura.Schema.Rows.{
  direction, direction_text, link_parts, parse_link, encode_link, parse_version,
}

chars-Free : (s : Str) → all is_token_char s ≡ true → Free 58 s
chars-Free [] h = tt
chars-Free (b ∷ s) h = (ground arith, chars-Free s (ground arith))

-- A name of a schema has no colon.
token-Free : (s : Str) → token s ≡ ok tt → Free 58 s
unfolding token
token-Free [] h = tt
token-Free (b ∷ s) h =
    let (letter, rest) = else-ok (not ((leb 65 b && leb b 90) || (leb 97 b && leb b 122))) _ _ h in
    let (chars, done) = else-ok (not (all is_token_char s)) _ _ rest in
    (ground arith, chars-Free s (ground arith))

direction-direction_text : (out : Bool) → direction (direction_text out) ≡ ok out
unfolding direction str_eq
direction-direction_text true = refl
direction-direction_text false = refl

dir-Free : (out : Bool) → Free 58 (direction_text out)
dir-Free true = (refl, (refl, (refl, tt)))
dir-Free false = (refl, (refl, tt))

direction_split :
    (out : Bool)
    → split_char 58 (direction_text out ++ ascii ":0..1") ≡ direction_text out ∷ ascii "0..1" ∷ []
direction_split out =
    split_char-append 58 (direction_text out) (ascii "0..1") (dir-Free out)
    ∙ ap (λ l. direction_text out ∷ l)
        (split_char-Free 58 (ascii "0..1") (refl, (refl, (refl, (refl, tt)))))

parts_ok :
    (name far_kind : Str) (out : Bool)
    → link_parts (name ∷ far_kind ∷ direction_text out ∷ ascii "0..1" ∷ [])
      ≡ ok (record { name = name; far_kind = far_kind; outgoing = out })
unfolding link_parts direction str_eq
parts_ok name far_kind true = refl
parts_ok name far_kind false = refl

-- A link whose name and far kind are tokens is read back from its entry.
pub parse_link-encode_link :
    (link : SchemaLink)
    → token link.name ≡ ok tt
    → token link.far_kind ≡ ok tt
    → parse_link (encode_link link) ≡ ok link
unfolding parse_link encode_link
parse_link-encode_link link name far =
    ap link_parts (
      split_char-append 58 link.name
        (link.far_kind ++ (58 ∷ (direction_text link.outgoing ++ ascii ":0..1")))
        (token-Free link.name name)
      ∙ ap (λ l. link.name ∷ l)
          (split_char-append 58 link.far_kind (direction_text link.outgoing ++ ascii ":0..1")
              (token-Free link.far_kind far)
            ∙ ap (λ l. link.far_kind ∷ l) (direction_split link.outgoing)))
    ∙ parts_ok link.name link.far_kind link.outgoing

-- A version from 1 to 2 ^ 32 - 1 is also read with a plus sign in front.
pub parse_version-plus :
    (version : ℕ)
    → 1 ≤ version
    → version ≤ 2 ^ 32 - 1
    → parse_version (ascii "+" ++ show_nat version) ≡ ok version
unfolding parse_version parse_unsigned strip_prefix
parse_version-plus version one most = ground (arith, parse_digits-show_nat version)
