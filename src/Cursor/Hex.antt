-- ===== src/Cursor/Hex.antt =====
-- `hex_encode`, `hex_decode` and `hex_nibble` of src/page.rs.
use mikura.Common.{
  ℕ, zero, suc, ◌+◌, ◌-◌, ◌*◌, ◌/◌, ◌%◌, ◌<◌, ◌≡◌, refl, arith, Bool, true, false, none, some,
}
use mikura.Common.{
  List, [], ◌∷◌, leb, ◌==◌, ◌&&◌, if◌then◌else◌, get_elem?, Result, ok, err, ◌>>=◌, All, length,
}
use mikura.Common.Words.{IsByte}
use mikura.Common.Text.{Str, ascii}
use mikura.Errors.{Error, cursor_malformed}

-- `HEX[n]`, where `n` is below 16.
unfoldable pub hex_digit : ℕ → ℕ
hex_digit n = elim (get_elem? (ascii "0123456789abcdef") n) [ some c ↦ c | none ↦ 0 ]

unfoldable pub hex_encode : List ℕ → Str
hex_encode [] = []
hex_encode (byte ∷ bytes) = hex_digit (byte / 16) ∷ hex_digit (byte % 16) ∷ hex_encode bytes

unfoldable pub hex_nibble : ℕ → Result Error ℕ
hex_nibble byte =
    if leb b'0' byte && leb byte b'9'
    then ok (byte - b'0')
    else if leb b'a' byte && leb byte b'f'
    then ok (byte - b'a' + 10)
    else err cursor_malformed

-- An odd length fails first, then each pair in turn.
unfoldable pub hex_pairs : Str → Result Error (List ℕ)
hex_pairs [] = ok []
hex_pairs (c ∷ []) = err cursor_malformed
hex_pairs (c ∷ d ∷ hex) = do
  hi ← hex_nibble c
  lo ← hex_nibble d
  bytes ← hex_pairs hex
  ok ((hi * 16 + lo) ∷ bytes)

unfoldable pub hex_decode : Str → Result Error (List ℕ)
hex_decode hex = if length hex % 2 == 0 then hex_pairs hex else err cursor_malformed

reads_back : ℕ → Bool
reads_back n = elim (hex_nibble (hex_digit n)) [ ok v ↦ v == n | err e ↦ false ]

-- The first `count` digits read back.
reads_all : ℕ → Bool
reads_all zero = true
reads_all (suc count) = reads_all count && reads_back count

reads_all-reads_back : (count n : ℕ) → reads_all count ≡ true → n < count → reads_back n ≡ true
unfolding reads_all
reads_all-reads_back zero n all small = absurd (omega arith)
reads_all-reads_back (suc count) n all small = ground (arith, reads_all-reads_back count n)

reads_back_table : reads_all 16 ≡ true
unfolding reads_all reads_back hex_nibble hex_digit
reads_back_table = refl

nibble : (n : ℕ) → n < 16 → hex_nibble (hex_digit n) ≡ ok n
nibble n h = found (hex_nibble (hex_digit n)) refl
  where
    found : (r : Result Error ℕ) → hex_nibble (hex_digit n) ≡ r → r ≡ ok n
    found (ok v) e =
        unfold reads_back in ground (arith, e, reads_all-reads_back 16 n reads_back_table h)
    found (err x) e =
        unfold reads_back in ground (arith, e, reads_all-reads_back 16 n reads_back_table h)

even_length : (bytes : List ℕ) → length (hex_encode bytes) % 2 ≡ 0
unfolding hex_encode
even_length [] = refl
even_length (b ∷ bytes) = omega (arith, even_length bytes)

hex_pairs-hex_encode : (bytes : List ℕ) → All IsByte bytes → hex_pairs (hex_encode bytes) ≡ ok bytes
unfolding hex_pairs hex_encode
hex_pairs-hex_encode [] h = refl
hex_pairs-hex_encode (b ∷ bytes) (p, h) =
    rw (nibble (b / 16) (omega arith))
      (rw (nibble (b % 16) (omega arith)) (rw (hex_pairs-hex_encode bytes h) (rw (whole b) refl)))
  where
    whole : (b : ℕ) → b / 16 * 16 + b % 16 ≡ b
    whole b = omega arith

-- Decoding undoes encoding, for any bytes.
pub hex_decode-hex_encode :
    (bytes : List ℕ) → All IsByte bytes → hex_decode (hex_encode bytes) ≡ ok bytes
unfolding hex_decode
hex_decode-hex_encode bytes h = rw (even_length bytes) (hex_pairs-hex_encode bytes h)
