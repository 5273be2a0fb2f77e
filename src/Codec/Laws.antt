-- ===== src/Codec/Laws.antt =====
-- The bytes that the writers of src/codec.rs write, and the readers on them.
use mikura.Common.{ℕ, ◌^◌, ◌<◌, ◌≡◌, refl, ◌∙◌, arith, List, ◌++◌}
use mikura.Common.{length, length-append, take-append, drop-append}
use mikura.Common.{lt→ltb, le→ltb, ok}
use mikura.Common.Words.{to_le, of_le, of_le-to_le, length-to_le}
use mikura.Common.Text.{Str, IsText}
use mikura.Common.Reader.{pure, Reads, Reads-bind, >>=-ok}
use mikura.Codec.{write_str, take_bytes, read_text, read_str, read_le}

pub Reads-take_bytes : (xs : List ℕ) → Reads (take_bytes (length xs)) xs xs
unfolding take_bytes
Reads-take_bytes xs = record {
  at = λ rest.
      rw (le→ltb (length (xs ++ rest)) (length xs) (omega (arith, length-append xs rest)))
        (rw take-append (rw drop-append refl));
}

pub Reads-read_le : (k v : ℕ) → v < 256 ^ k → Reads (read_le k) (to_le k v) v
unfolding read_le
Reads-read_le k v h =
    let step : Reads (take_bytes k) (to_le k v) (to_le k v) =
      rw (length-to_le k v) at (Reads-take_bytes (to_le k v)) in
    record {
      at = λ rest.
          >>=-ok (take_bytes k) (λ raw. pure (of_le raw)) (to_le k v ++ rest) rest (to_le k v)
            (step.at rest)
          ∙ rw (of_le-to_le k v h) refl;
    }

pub Reads-read_text : (s : Str) → IsText s → Reads (read_text (length s)) s s
unfolding read_text
Reads-read_text s t = record {
  at = λ rest.
      rw (le→ltb (length (s ++ rest)) (length s) (omega (arith, length-append s rest)))
        (rw take-append (rw drop-append (rw t.valid refl)));
}

-- The bytes of `write_str`.
unfoldable pub str_bytes : Str → List ℕ
str_bytes s = to_le 2 (length s) ++ s

pub write_str-bytes :
    (body s : Str) → length s < 2 ^ 16 → write_str body s ≡ ok (body ++ str_bytes s)
unfolding write_str str_bytes
write_str-bytes body s h = rw (lt→ltb (length s) (2 ^ 16) h) refl

pub Reads-read_str : (s : Str) → IsText s → length s < 2 ^ 16 → Reads read_str (str_bytes s) s
unfolding read_str str_bytes
Reads-read_str s t h =
    Reads-bind (take_bytes 2) (λ raw. read_text (of_le raw)) (to_le 2 (length s)) s _ s
      (rw (length-to_le 2 (length s)) at (Reads-take_bytes (to_le 2 (length s))))
      (rw (of_le-to_le 2 (length s) h) (Reads-read_text s t))
