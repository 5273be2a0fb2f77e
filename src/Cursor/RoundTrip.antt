-- ===== src/Cursor/RoundTrip.antt =====
-- `decode_cursor` against `encode_cursor`.
use mikura.Common.{ℕ, ◌%◌, ◌^◌, ◌<◌, ◌≡◌, refl, sym, ap, ◌∙◌, arith, Bool, true, false, not, some}
use mikura.Common.{
  List, [], ◌∷◌, ◌++◌, append_assoc, append-nil, length, length-append, take-append, drop-append,
  All, All-append,
}
use mikura.Common.{le→ltb, ==_refl, if◌then◌else◌, Result, ok, err}
use mikura.Common.Words.{to_le, of_le, of_le-to_le, to_le-IsByte, IsByte}
use mikura.Common.Strings.{strip_prefix}
use mikura.Common.Text.{Str, str_eq, str_eq_iff, IsText, is_utf8-bytes}
use mikura.Common.Reader.{pure, Reads, Reads-bind, Reads-pure, >>=-ok, Reads-end}
use mikura.Request.{EvaluateRequest}
use mikura.Log.Body.{bool_byte}
use mikura.Cursor.{
  PageCursor, Position, Stamp, cursor_prefix, write_positions, encode_cursor, read_u8, split,
  read_u32, read_bytes, as_text, read_str, flag, read_positions, read_parts, same_stamp, accept,
  read_cursor, decode_cursor,
}
use mikura.Cursor.Fingerprint.{query_fingerprint, write_str}
use mikura.Cursor.Fingerprint.Queries.{WideQuery, SameQuery, query_fingerprint-SameQuery}
use mikura.Cursor.Hex.{hex_encode, hex_decode, hex_decode-hex_encode}
use mikura.Errors.{Error, cursor_stale, cursor_mismatch}

-- A text whose length fits four bytes.
pub record IsWide (s : Str) : Type 0 where
  pub text : IsText s
  pub wide : length s < 2 ^ 32

pub record IsStamp (s : Stamp) : Type 0 where
  pub committed : s.committed < 2 ^ 32
  pub written : s.written < 2 ^ 32
  pub used : s.used < 2 ^ 32

abbrev AllWide : List Position → Type 0
AllWide after = All (λ (p : Position). IsWide p.1) after

text_bytes : List ℕ → List ℕ
text_bytes s = to_le 4 (length s) ++ s

positions_bytes : List Position → List ℕ
positions_bytes [] = []
positions_bytes ((missing, value) ∷ after) =
    (bool_byte missing ∷ []) ++ (text_bytes value ++ positions_bytes after)

token_bytes : List ℕ → Stamp → Str → List Position → List ℕ
token_bytes fingerprint stamp key after =
    (2 ∷ [])
    ++ (to_le 4 stamp.committed
        ++ (to_le 4 stamp.written
            ++ (to_le 4 stamp.used
                ++ (text_bytes fingerprint
                    ++ (text_bytes key ++ (to_le 1 (length after) ++ positions_bytes after))))))

write_positions-bytes :
    (body : List ℕ) (after : List Position)
    → write_positions body after ≡ body ++ positions_bytes after
unfolding write_positions positions_bytes text_bytes write_str
write_positions-bytes body [] = sym (append-nil body)
write_positions-bytes body ((missing, value) ∷ after) =
    write_positions-bytes ((body ++ (bool_byte missing ∷ [])) ++ (to_le 4 (length value) ++ value))
      after
    ∙ simp append_assoc

encode_cursor-bytes :
    (request : EvaluateRequest) (stamp : Stamp) (key : Str) (after : List Position)
    → encode_cursor request stamp key after
      ≡ cursor_prefix ++ hex_encode (token_bytes (query_fingerprint request) stamp key after)
unfolding encode_cursor token_bytes text_bytes write_str
encode_cursor-bytes request stamp key after =
    ap (λ (b : List ℕ). cursor_prefix ++ hex_encode b)
      (write_positions-bytes _ after ∙ simp append_assoc)

Reads-split : (xs : List ℕ) → Reads (split (length xs)) xs xs
unfolding split
Reads-split xs = record {
  at = λ rest.
      rw (le→ltb (length (xs ++ rest)) (length xs) (omega (arith, length-append xs rest)))
        (rw take-append (rw drop-append refl));
}

Reads-read_u32 : (v : ℕ) → v < 2 ^ 32 → Reads read_u32 (to_le 4 v) v
unfolding read_u32
Reads-read_u32 v h = record {
  at = λ rest.
      >>=-ok (split 4) (λ head. pure (of_le head)) (to_le 4 v ++ rest) rest (to_le 4 v)
        ((Reads-split (to_le 4 v)).at rest)
      ∙ rw (of_le-to_le 4 v h) refl;
}

Reads-read_bytes : (xs : List ℕ) → length xs < 2 ^ 32 → Reads read_bytes (text_bytes xs) xs
unfolding read_bytes text_bytes
Reads-read_bytes xs h =
    Reads-bind read_u32 split (to_le 4 (length xs)) xs (length xs) xs (Reads-read_u32 (length xs) h)
      (Reads-split xs)

Reads-read_str : (s : Str) → IsWide s → Reads read_str (text_bytes s) s
unfolding read_str as_text
Reads-read_str s h = record {
  at = λ rest.
      >>=-ok read_bytes as_text (text_bytes s ++ rest) rest s ((Reads-read_bytes s h.wide).at rest)
      ∙ rw h.text.valid refl;
}

flag-read : (b : Bool) → flag (bool_byte b) ≡ pure b
unfolding flag
flag-read true = refl
flag-read false = refl

read_u8-cons : (b : ℕ) (rest : List ℕ) → read_u8 (b ∷ rest) ≡ ok (b, rest)
unfolding read_u8
read_u8-cons b rest = refl

Reads-read_positions :
    (after : List Position)
    → AllWide after
    → Reads (read_positions (length after)) (positions_bytes after) after
unfolding read_positions positions_bytes
Reads-read_positions [] h = Reads-pure []
Reads-read_positions ((missing, value) ∷ after) (p, h) = record {
  at = λ rest.
      >>=-ok read_u8 _ _ _ (bool_byte missing) (read_u8-cons (bool_byte missing) _)
      ∙ rw (flag-read missing) (
          rw append_assoc (
            >>=-ok read_str _ _ _ value ((Reads-read_str value p).at _)
            ∙ >>=-ok (read_positions (length after)) _ _ _ after
                ((Reads-read_positions after h).at rest)));
}

abbrev at_end : Result Error PageCursor → Result Error (PageCursor × List ℕ)
at_end r = elim r [ ok c ↦ ok (c, []) | err e ↦ err e ]

abbrev without_rest : Result Error (PageCursor × List ℕ) → Result Error PageCursor
without_rest r = elim r [ ok (c, rest) ↦ ok c | err e ↦ err e ]

-- `decode_cursor` on a token whose prefix and digits are known.
decode_cursor-body :
    (token : Str) (request : EvaluateRequest) (stamp : Stamp) (hex : Str) (body : List ℕ)
    → strip_prefix cursor_prefix token ≡ some hex
    → hex_decode hex ≡ ok body
    → decode_cursor token request stamp ≡ without_rest (read_cursor request stamp body)
unfolding decode_cursor strip_prefix read_cursor
decode_cursor-body token request stamp hex body p h = rw p (rw h refl)

text_bytes-IsByte : (s : List ℕ) → All IsByte s → All IsByte (text_bytes s)
unfolding text_bytes
text_bytes-IsByte s h = All-append IsByte (to_le 4 (length s)) s (to_le-IsByte 4 (length s)) h

bool_byte-IsByte : (b : Bool) → bool_byte b < 256
bool_byte-IsByte true = omega arith
bool_byte-IsByte false = omega arith

positions_bytes-IsByte :
    (after : List Position) → AllWide after → All IsByte (positions_bytes after)
unfolding positions_bytes
positions_bytes-IsByte [] h = tt
positions_bytes-IsByte ((missing, value) ∷ after) (p, h) = (
  bool_byte-IsByte missing,
  All-append IsByte (text_bytes value) (positions_bytes after)
      (text_bytes-IsByte value (is_utf8-bytes value p.text.valid)) (positions_bytes-IsByte after h),
)

strip_prefix-append : (p s : Str) → strip_prefix p (p ++ s) ≡ some s
unfolding strip_prefix
strip_prefix-append [] s = refl
strip_prefix-append (c ∷ p) s = rw (==_refl c) (strip_prefix-append p s)

module _ (request : EvaluateRequest) (stamp : Stamp) (key : Str) (after : List Position)
    (bytes : All IsByte (query_fingerprint request))
    (short : length (query_fingerprint request) < 2 ^ 32) (stamped : IsStamp stamp)
    (wide : IsWide key) (few : length after < 256) (positions : AllWide after) where
  abbrev fp : List ℕ
  fp = query_fingerprint request

  abbrev cursor : PageCursor
  cursor = record { after_key = key; after = after }

  read_cursor-bytes :
      (request' : EvaluateRequest) (stamp' : Stamp)
      → read_cursor request' stamp' (token_bytes fp stamp key after)
        ≡ at_end (accept request' stamp' stamp fp cursor)
  unfolding read_cursor token_bytes read_parts
  read_cursor-bytes request' stamp' =
      >>=-ok read_u8 _ _ _ 2 (read_u8-cons 2 _)
      ∙ >>=-ok read_u32 _ _ _ stamp.committed
          ((Reads-read_u32 stamp.committed stamped.committed).at _)
      ∙ >>=-ok read_u32 _ _ _ stamp.written ((Reads-read_u32 stamp.written stamped.written).at _)
      ∙ >>=-ok read_u32 _ _ _ stamp.used ((Reads-read_u32 stamp.used stamped.used).at _)
      ∙ >>=-ok read_bytes _ _ _ fp ((Reads-read_bytes fp short).at _)
      ∙ >>=-ok read_str _ _ _ key ((Reads-read_str key wide).at _)
      ∙ >>=-ok read_u8 _ _ _ (length after) (count_read (positions_bytes after))
      ∙ >>=-ok (read_positions (length after)) _ _ [] after (
          Reads-end (read_positions (length after)) (positions_bytes after) after
            (Reads-read_positions after positions))
    where
      count_read :
          (rest : List ℕ) → read_u8 (to_le 1 (length after) ++ rest) ≡ ok (length after, rest)
      count_read rest = rw (read_u8-cons _ rest) (rw (small (length after) few) refl)
        where
          small : (n : ℕ) → n < 256 → n % 256 ≡ n
          small n h = omega arith

  token_bytes-IsByte : All IsByte (token_bytes fp stamp key after)
  unfolding token_bytes
  token_bytes-IsByte =
      let counted : List ℕ = to_le 1 (length after) ++ positions_bytes after in
      let keyed : List ℕ = text_bytes key ++ counted in
      let bound : List ℕ = text_bytes fp ++ keyed in
      let used : List ℕ = to_le 4 stamp.used ++ bound in
      let written : List ℕ = to_le 4 stamp.written ++ used in
      (
        omega arith,
        join (to_le 4 stamp.committed) written (to_le-IsByte 4 stamp.committed) (
            join (to_le 4 stamp.written) used (to_le-IsByte 4 stamp.written) (
              join (to_le 4 stamp.used) bound (to_le-IsByte 4 stamp.used) (
                join (text_bytes fp) keyed (text_bytes-IsByte fp bytes) (
                  join (text_bytes key) counted
                    (text_bytes-IsByte key (is_utf8-bytes key wide.text.valid))
                    (join (to_le 1 (length after)) (positions_bytes after)
                      (to_le-IsByte 1 (length after)) (positions_bytes-IsByte after positions)))))),
      )
    where
      join : (xs ys : List ℕ) → All IsByte xs → All IsByte ys → All IsByte (xs ++ ys)
      join = All-append IsByte

  -- What decides is the stamp, and then the fingerprint.
  decode_cursor-accept :
      (request' : EvaluateRequest) (stamp' : Stamp)
      → decode_cursor (encode_cursor request stamp key after) request' stamp' ≡ (
          if not (same_stamp stamp stamp')
          then err cursor_stale
          else if not (str_eq (query_fingerprint request) (query_fingerprint request'))
          then err cursor_mismatch
          else ok (record { after_key = key; after = after }))
  unfolding accept
  decode_cursor-accept request' stamp' = rw (encode_cursor-bytes request stamp key after) (
      decode_cursor-body (cursor_prefix ++ hex_encode token) request' stamp' (hex_encode token)
        token (strip_prefix-append cursor_prefix (hex_encode token))
        (hex_decode-hex_encode token token_bytes-IsByte)
      ∙ ap without_rest (read_cursor-bytes request' stamp')
      ∙ rewrapped (accept request' stamp' stamp fp cursor)
      ∙ accept_cases)
    where
      token : List ℕ
      token = token_bytes fp stamp key after

      accept_cases : accept request' stamp' stamp fp cursor ≡ (
          if not (same_stamp stamp stamp')
          then err cursor_stale
          else if not (str_eq fp (query_fingerprint request'))
          then err cursor_mismatch
          else ok cursor)
      accept_cases = refl

      rewrapped : (r : Result Error PageCursor) → without_rest (at_end r) ≡ r
      rewrapped (ok c) = refl
      rewrapped (err e) = refl

  -- What a holder of the cursor gets for a request at a stamp.
  pub data Outcome (request' : EvaluateRequest) (stamp' : Stamp) (out : Result Error PageCursor)
      : Type 0 where
    stale : out ≡ err cursor_stale → Outcome request' stamp' out
    mismatch : out ≡ err cursor_mismatch → Outcome request' stamp' out
    resumed :
        out ≡ ok cursor
        → same_stamp stamp stamp' ≡ true
        → SameQuery request request'
        → Outcome request' stamp' out

  -- A cursor that was made for a request and a stamp is, for a request and a stamp, refused as
  -- stale if the stamp is another, else refused as a mismatch if the fingerprint is another, and
  -- else decodes to the position it was made at. Where it decodes, the two requests have the same
  -- denied properties, hidden kinds, hidden identities and row filters, the same namespace, root
  -- kind, hops, sum kind, sum property, filter, predicate, object bound and page size, and the same
  -- first sort property and direction. Fields, texts and lists of both requests fit their widths,
  -- and there are 255 positions at most.
  pub decode_cursor-encode_cursor :
      (request' : EvaluateRequest) (stamp' : Stamp)
      → WideQuery request
      → WideQuery request'
      → (decode_cursor (encode_cursor request stamp key after) request' stamp' ≡ (
          if not (same_stamp stamp stamp')
          then err cursor_stale
          else if not (str_eq (query_fingerprint request) (query_fingerprint request'))
          then err cursor_mismatch
          else ok (record { after_key = key; after = after })))
        × Outcome request' stamp'
            (decode_cursor (encode_cursor request stamp key after) request' stamp')
  decode_cursor-encode_cursor request' stamp' wide wide' = (
    decode_cursor-accept request' stamp',
    by_tests (same_stamp stamp stamp') (str_eq fp (query_fingerprint request')) refl refl
        (decode_cursor-accept request' stamp'),
  )
    where
      by_tests :
          {out : Result Error PageCursor} (same matches : Bool)
          → same_stamp stamp stamp' ≡ same
          → str_eq fp (query_fingerprint request') ≡ matches
          → out ≡ (
              if not same
              then err cursor_stale
              else if not matches
              then err cursor_mismatch
              else ok cursor)
          → Outcome request' stamp' out
      by_tests false matches s m e = stale e
      by_tests true false s m e = mismatch e
      by_tests true true s m e = resumed e s (
          query_fingerprint-SameQuery request request' wide wide'
            ((str_eq_iff fp (query_fingerprint request')).0 m))
