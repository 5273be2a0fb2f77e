-- ===== src/Log/Decode/RoundTrip.antt =====
-- `decode_body` of src/log.rs on the bytes of `encode_body`.
use mikura.Common.{
  ℕ, ◌^◌, ◌<◌, ◌≡◌, refl, ◌∙◌, ap, arith, Bool, true, false, not, Option, none, some,
}
use mikura.Common.{List, [], ◌∷◌, ◌++◌, append-nil, length, All, ltb, ltb→lt, ◌==◌, if◌then◌else◌}
use mikura.Common.{ok, Bool-cases, inl, inr}
use mikura.Common.Words.{to_le, of_le}
use mikura.Common.Text.{
  Str, sort, str_eq_iff, is_utf8, contains_str, contains-sort, All-sort, length-sort,
}
use mikura.Common.Maps.{get, insert, get-insert, str_key}
use mikura.Common.Reader.{Reader, ◌>>=◌, Reads, Reads-bind, Reads-pure, >>=-ok, Reads-end}
use mikura.Codec.{read_str, read_le, take_bytes}
use mikura.Codec.Laws.{str_bytes, Reads-read_str, Reads-read_le, Reads-take_bytes}
use mikura.Record.{
  ObjectRecord, Props, IsShort, IsStorable, AllShort, SameRecord, nonempty, effective,
}
use mikura.Log.Body.{bool_byte, keys_of, encode_body}
use mikura.Log.Body.Bytes.{
  Has, All-Has, not_empty, value_of, props_bytes, trailer_bytes, body_bytes, encode_body-bytes,
}
use mikura.Log.Decode.{
  read_props, read_version, read_trailer, read_namespace, read_body, decode_body,
}
use mikura.Errors.{Error}

-- The map that the reader builds.
inserted : List Str → Props → Props → Props
inserted [] props acc = acc
inserted (k ∷ ks) props acc = inserted ks props (insert k (value_of k props) acc)

Reads-pair :
    (k v : Str)
    → IsShort k
    → IsShort v
    → {B : Type 0} (f : Str → Str → Reader Error B) (ys : List ℕ) (b : B) → Reads (f k v) ys b
    → Reads (read_str >>= λ k. read_str >>= λ v. f k v) (str_bytes k ++ (str_bytes v ++ ys)) b
Reads-pair k v hk hv f ys b h =
    Reads-bind read_str (λ k. read_str >>= λ v. f k v) (str_bytes k) (str_bytes v ++ ys) k b
      (Reads-read_str k hk.text hk.short)
      (Reads-bind read_str (λ v. f k v) (str_bytes v) ys v b (Reads-read_str v hv.text hv.short) h)

Reads-read_props :
    (ks : List Str) (props acc : Props)
    → All (Has props) ks
    → Reads (read_props (length ks) acc) (props_bytes ks props) (inserted ks props acc)
unfolding read_props props_bytes inserted value_of
Reads-read_props [] props acc h = Reads-pure acc
Reads-read_props (k ∷ ks) props acc (p, h) = rw p.found (
    Reads-pair k p.value p.key_short p.value_short (λ k v. read_props (length ks) (insert k v acc))
      (props_bytes ks props) _ (Reads-read_props ks props (insert k p.value acc) h))

get-inserted :
    (j : Str) (ks : List Str) (props acc : Props)
    → All (Has props) ks
    → get j (inserted ks props acc) ≡ (if contains_str j ks then get j props else get j acc)
unfolding inserted value_of
get-inserted j [] props acc h = refl
get-inserted j (k ∷ ks) props acc (p, h) = ground (
  arith,
  get-inserted j ks props (insert k p.value acc) h,
  get-insert k j p.value acc,
  str_eq_iff k j,
  p.found,
)

get-absent : (j : Str) (m : Props) → contains_str j (keys_of m) ≡ false → get j m ≡ none
unfolding get
get-absent j [] h = refl
get-absent j ((k, v) ∷ m) h = ground (arith, get-absent j m)

-- No bytes are left after the trailer.
read_version-bytes : (v : ℕ) → 1 < v → v < 2 ^ 32 → read_version (to_le 4 v) ≡ ok (v, [])
unfolding read_version
read_version-bytes v h k =
    >>=-ok (read_le 4) _ (to_le 4 v) [] v
      (Reads-end (read_le 4) (to_le 4 v) v (Reads-read_le 4 v k))
    ∙ ground arith

trailer_step :
    (id : Str) (tail : List ℕ) (version : ℕ)
    → IsShort id
    → read_version tail ≡ ok (version, [])
    → read_trailer (str_bytes id ++ tail) ≡ ok ((nonempty (some id), version), [])
unfolding read_trailer str_bytes
trailer_step id tail version h k =
    >>=-ok read_str _ (str_bytes id ++ tail) tail id ((Reads-read_str id h.text h.short).at tail)
    ∙ >>=-ok read_version _ tail [] version k

IsShort-empty : IsShort []
IsShort-empty = record { text = record { valid = unfold is_utf8 in refl }; short = omega arith }

no_action-bytes :
    (v : ℕ) → 0 < v → v < 2 ^ 32 → read_trailer (trailer_bytes none v) ≡ ok ((none, v), [])
unfolding trailer_bytes
no_action-bytes v h k = elim (Bool-cases (ltb 1 v)) [
  | inl e ↦
      rw e (trailer_step [] (to_le 4 v) v IsShort-empty (read_version-bytes v (ltb→lt 1 v e) k))
  | inr e ↦ rw e (unfold read_trailer in ground arith)
]

read_trailer-bytes :
    (action : Option Str) (v : ℕ)
    → AllShort action
    → 0 < v
    → v < 2 ^ 32
    → read_trailer (trailer_bytes (nonempty action) v) ≡ ok ((nonempty action, v), [])
read_trailer-bytes none v s h k = no_action-bytes v h k
read_trailer-bytes (some []) v s h k = no_action-bytes v h k
read_trailer-bytes (some (c ∷ id)) v s h k = elim (Bool-cases (ltb 1 v)) [
  | inl e ↦
      unfold trailer_bytes in
      rw e (trailer_step (c ∷ id) (to_le 4 v) v s (read_version-bytes v (ltb→lt 1 v e) k))
  | inr e ↦
      unfold trailer_bytes in
      rw e (
        rw (← version_one v h e)
          (rw append-nil at (trailer_step (c ∷ id) [] 1 s (unfold read_version in refl))))
]
  where
    version_one : (v : ℕ) → 0 < v → ltb 1 v ≡ false → 1 ≡ v
    version_one v h e = ground arith

effective_range : (v : ℕ) → v < 2 ^ 32 → (0 < effective v) × (effective v < 2 ^ 32)
effective_range v h = ground arith

-- The record that a reader of the log gets.
unfoldable pub stored : ObjectRecord → ObjectRecord
unfolding inserted value_of
stored r = record r {
  action_id = nonempty r.action_id;
  props = inserted (sort (keys_of r.props)) r.props [];
  schema_version = effective r.schema_version;
}

bool_byte-read : (b : Bool) → not (of_le (bool_byte b ∷ []) == 0) ≡ b
bool_byte-read true = refl
bool_byte-read false = refl

length-keys_of : (m : Props) → length (keys_of m) ≡ length m
length-keys_of [] = refl
length-keys_of ((k, v) ∷ m) = omega (arith, length-keys_of m)

read_body-bytes :
    (r : ObjectRecord) → IsStorable r → read_body none (body_bytes r) ≡ ok (stored r, [])
unfolding read_body body_bytes stored read_namespace
read_body-bytes r h =
    >>=-ok (read_le 8) _ _ _ r.gen ((Reads-read_le 8 r.gen h.gen_u64).at _)
    ∙ >>=-ok (take_bytes 1) _ _ _ (bool_byte r.hidden ∷ [])
        ((Reads-take_bytes (bool_byte r.hidden ∷ [])).at _)
    ∙ >>=-ok read_str _ _ _ r.namespace
        ((Reads-read_str r.namespace h.namespace_short.text h.namespace_short.short).at _)
    ∙ rw (not_empty r.namespace h.named) (
        >>=-ok read_str _ _ _ r.kind
          ((Reads-read_str r.kind h.kind_short.text h.kind_short.short).at _)
        ∙ >>=-ok read_str _ _ _ r.key
            ((Reads-read_str r.key h.key_short.text h.key_short.short).at _)
        ∙ >>=-ok (read_le 2) _ _ _ (length r.props)
            ((Reads-read_le 2 (length r.props) h.props_count).at _)
        ∙ >>=-ok (read_props (length r.props) []) _ _ _ _ (all_props.at _)
        ∙ >>=-ok read_trailer _ _ [] _ (
            read_trailer-bytes r.action_id (effective r.schema_version) h.action_short range.0
              range.1)
        ∙ ap (λ (b : Bool). ok (record (stored r) { hidden = b }, [])) (bool_byte-read r.hidden))
  where
    range : (0 < effective r.schema_version) × (effective r.schema_version < 2 ^ 32)
    range = effective_range r.schema_version h.version_u32

    all_props :
        Reads
          (read_props (length r.props) [])
          (props_bytes (sort (keys_of r.props)) r.props)
          (inserted (sort (keys_of r.props)) r.props [])
    all_props = rw (length-sort (keys_of r.props) ∙ length-keys_of r.props) at (
        Reads-read_props (sort (keys_of r.props)) r.props []
          (All-sort (Has r.props) (keys_of r.props) (All-Has r.props h.props_short)))

pub decode_body-bytes :
    (r : ObjectRecord) → IsStorable r → decode_body (body_bytes r) none ≡ ok (stored r)
unfolding decode_body
decode_body-bytes r h = rw (read_body-bytes r h, decode_body) refl

nonempty_idem : (a : Option Str) → nonempty (nonempty a) ≡ nonempty a
nonempty_idem none = refl
nonempty_idem (some []) = refl
nonempty_idem (some (c ∷ s)) = refl

get-stored : (r : ObjectRecord) → IsStorable r → (k : Str) → get k (stored r).props ≡ get k r.props
unfolding stored
get-stored r h k =
    get-inserted k (sort (keys_of r.props)) r.props []
      (All-sort (Has r.props) (keys_of r.props) (All-Has r.props h.props_short))
    ∙ rw contains-sort (unfold get in ground (arith, get-absent k r.props))

-- The stored record is the record that was written, up to the order of its properties.
pub stored-SameRecord : (r : ObjectRecord) → IsStorable r → SameRecord (stored r) r
stored-SameRecord r h = record {
  gen = unfold stored in refl;
  namespace = unfold stored in refl;
  kind = unfold stored in refl;
  key = unfold stored in refl;
  hidden = unfold stored in refl;
  action_id = unfold stored in nonempty_idem r.action_id;
  props = get-stored r h;
  schema_version = unfold stored in ground arith;
}

-- A record within the limits of the format encodes, and its bytes decode to the same record: equal
-- in every field but that the properties agree key by key, that an empty Action id is none and that
-- version 0 is 1.
pub decode_body-encode_body :
    (r : ObjectRecord)
    → IsStorable r
    → (body : List ℕ) × (r' : ObjectRecord) × (encode_body r ≡ ok body)
      × (decode_body body none ≡ ok r')
      × SameRecord r' r
decode_body-encode_body r h =
    (body_bytes r, stored r, encode_body-bytes r h, decode_body-bytes r h, stored-SameRecord r h)
