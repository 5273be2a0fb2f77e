-- ===== src/Examples/Log.antt =====
-- The log: records, pages, superblocks.
use mikura.Common.{
  ℕ, ◌+◌, ◌%◌, ◌^◌, ◌<◌, ◌≤◌, ◌≡◌, ◌↔◌, refl, arith, true, false, none, some, List, [], ◌∷◌, length,
  map,
}
use mikura.Common.{ok, err}
use mikura.Common.Text.{Str, ascii, is_utf8, sort, str_lt, str_eq}
use mikura.Common.Maps.{get, str_key}
use mikura.Record.{ObjectRecord, IsShort, IsStorable, SameRecord}
use mikura.Log.Body.{encode_body}
use mikura.Log.Decode.{decode_body}
use mikura.Log.Decode.RoundTrip.{decode_body-encode_body, stored}
use mikura.Log.Body.Bytes.{body_bytes, props_bytes, trailer_bytes, value_of}
use mikura.Codec.Laws.{str_bytes}
use mikura.Log.Page.{
  Crc, superblock_page, superblock_with_committed, superblock_magic, parse_superblock,
  parse_v1_superblock, decode_frames, decode_data_page, seal_page_bytes,
}
use mikura.Log.Page.Superblock.{
  parse_superblock-superblock_page, parse_superblock-superblock_with_committed,
}
use mikura.Log.Page.Frames.{IsFramable, filled, frame_bytes, frames_bytes, decode_data_page-filled}
use mikura.Log.Page.Grammar.{AreFrames, decode_frames-AreFrames}
use mikura.Errors.{already_namespaced}

pub sum : List ℕ → ℕ
sum [] = 0
sum (b ∷ bs) = b + sum bs

pub sum_u32 : (bs : List ℕ) → sum bs % 2 ^ 32 < 2 ^ 32
sum_u32 bs = omega arith

-- A checksum for the tests: the sum of the bytes.
abbrev pub sums : Crc
sums = record { hash = λ bs. sum bs % 2 ^ 32; hash_u32 = sum_u32 }

abbrev pub sample : ObjectRecord
sample = record {
  gen = 7;
  namespace = ascii "ns";
  kind = ascii "incident";
  key = ascii "inc-1";
  hidden = false;
  action_id = some (ascii "act-1");
  props = (ascii "note", ascii "acked") ∷ (ascii "at", ascii "") ∷ [];
  schema_version = 2;
}

IsShort-sample : (s : Str) → is_utf8 s ≡ true → length s < 2 ^ 16 → IsShort s
IsShort-sample s v h = record { text = record { valid = v }; short = h }

sample-IsStorable : IsStorable sample
unfolding is_utf8
sample-IsStorable = record {
  gen_u64 = omega arith;
  named = λ e. cc;
  namespace_short = IsShort-sample _ refl (omega arith);
  kind_short = IsShort-sample _ refl (omega arith);
  key_short = IsShort-sample _ refl (omega arith);
  action_short = IsShort-sample _ refl (omega arith);
  props_count = omega arith;
  props_short = (
    (IsShort-sample _ refl (omega arith), IsShort-sample _ refl (omega arith)),
    ((IsShort-sample _ refl (omega arith), IsShort-sample _ refl (omega arith)), tt),
  );
  version_u32 = omega arith;
}

decode_body-encode_body_example :
    (body : List ℕ) × (r' : ObjectRecord) × (encode_body sample ≡ ok body)
    × (decode_body body none ≡ ok r')
    × SameRecord r' sample
decode_body-encode_body_example = decode_body-encode_body sample sample-IsStorable

pub sample-IsFramable : IsFramable sample
unfolding body_bytes props_bytes trailer_bytes str_bytes sort value_of get str_lt str_eq
sample-IsFramable = record { storable = sample-IsStorable; fits = omega arith }

length-frames-sample : length (frames_bytes (sample ∷ [])) ≤ 4090
unfolding frames_bytes frame_bytes body_bytes props_bytes trailer_bytes str_bytes sort value_of get
    str_lt str_eq
length-frames-sample = omega arith

decode_data_page-filled_example :
    decode_data_page
      (seal_page_bytes sums (filled (sample ∷ [])) (length (frames_bytes (sample ∷ []))))
      none
    ≡ ok (map stored (sample ∷ []))
decode_data_page-filled_example =
    decode_data_page-filled sums (sample ∷ []) (sample-IsFramable, tt) length-frames-sample

-- The bytes of one record's frame.
decode_frames-AreFrames_example :
    (decode_frames (length (frames_bytes (sample ∷ []))) (frames_bytes (sample ∷ [])) none
      ≡ ok (stored sample ∷ []))
    ↔ AreFrames none (frames_bytes (sample ∷ [])) (stored sample ∷ [])
decode_frames-AreFrames_example =
    decode_frames-AreFrames (length (frames_bytes (sample ∷ []))) (frames_bytes (sample ∷ [])) none
      (stored sample ∷ []) (omega arith)

parse_superblock-superblock_page_example :
    (parse_superblock sums (superblock_page sums 5) ≡ ok 5)
    × (parse_v1_superblock sums (superblock_page sums 5) ≡ err already_namespaced)
parse_superblock-superblock_page_example = parse_superblock-superblock_page sums 5 (omega arith)

parse_superblock-superblock_with_committed_example :
    (copy : List ℕ) × (superblock_with_committed sums (superblock_page sums 5) 3 ≡ ok copy)
    × (parse_superblock sums copy ≡ ok 3)
    × (superblock_magic sums copy ≡ superblock_magic sums (superblock_page sums 5))
parse_superblock-superblock_with_committed_example =
    parse_superblock-superblock_with_committed sums (superblock_page sums 5) 5 3
      parse_superblock-superblock_page_example.0 (omega arith)
