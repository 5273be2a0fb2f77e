-- ===== src/Value/Types/Tokens.antt =====
-- The tokens of the types, written and read.
use mikura.Common.{ℕ, zero, suc, ◌≤◌, ◌≡◌, ◌≢◌, refl, ap, arith, false, ◌&&◌}
use mikura.Common.{◌∷◌, ◌++◌, some, length, ltb, ok, ◌>>=◌}
use mikura.Common.Text.{Str, ascii}
use mikura.Common.Strings.{strip_prefix, starts_with, parse_unsigned, parse_digits, show_nat}
use mikura.Common.Decimal.{show_nat-Leads, parse_digits-show_nat, parse_unsigned-show_nat}
use mikura.Value.Types.{
  PropertyType, IsAdmitted, vector_dim_max, to_decimal, parse_vector_dim, parse_scale, from_token,
  token,
}

one_digit : (ltb 1 (length (show_nat 0)) && starts_with (ascii "0") (show_nat 0)) ≡ false
unfolding show_nat
one_digit = refl

first_no_zero :
    (b : ℕ) (s : Str) → 49 ≤ b → (ltb 1 (length (b ∷ s)) && starts_with (ascii "0") (b ∷ s)) ≡ false
unfolding strip_prefix
first_no_zero b s h = ground arith

no_zero : (n : ℕ) → (ltb 1 (length (show_nat n)) && starts_with (ascii "0") (show_nat n)) ≡ false
unfolding strip_prefix
no_zero zero = one_digit
no_zero (suc n) =
    let leads = show_nat-Leads (suc n) (omega arith) in
    rw leads.eq (first_no_zero leads.first leads.rest leads.high)

parse_vector_dim-show_nat :
    (dim : ℕ) → 1 ≤ dim → dim ≤ vector_dim_max → parse_vector_dim (show_nat dim) ≡ ok dim
unfolding parse_vector_dim
parse_vector_dim-show_nat dim one most =
    ground (arith, no_zero dim, parse_unsigned-show_nat 65535 dim (omega arith))

parse_scale-show_nat : (scale : ℕ) → scale ≤ 18 → parse_scale (show_nat scale) ≡ ok scale
unfolding parse_scale
parse_scale-show_nat scale most =
    ground (arith, no_zero scale, parse_unsigned-show_nat 255 scale (omega arith))

-- Every property type that is admitted, that is with a scale of 18 at most or a dimension from 1 to
-- 1024, is read back from its token.
pub from_token-token : (type : PropertyType) → IsAdmitted type → from_token (token type) ≡ ok type
unfolding from_token token
from_token-token (PropertyType.decimal scale) h =
    ap (λ r. r >>= λ n. ok (PropertyType.decimal n)) (parse_scale-show_nat scale h)
from_token-token (PropertyType.vector dim) h =
    ap (λ r. r >>= λ n. ok (PropertyType.vector n)) (parse_vector_dim-show_nat dim h.0 h.1)
from_token-token PropertyType.string h = refl
from_token-token PropertyType.boolean h = refl
from_token-token PropertyType.integer h = refl
from_token-token PropertyType.timestamp h = refl
from_token-token PropertyType.time_series h = refl
from_token-token PropertyType.geo_point h = refl
from_token-token PropertyType.geo_shape h = refl
from_token-token PropertyType.media h = refl

parse_scale-plus :
    (scale : ℕ) (s : Str)
    → scale ≤ 18
    → parse_digits s ≡ some scale
    → parse_scale (43 ∷ s) ≡ ok scale
unfolding parse_scale parse_unsigned strip_prefix
parse_scale-plus scale s h e = ground arith

-- A scale of 18 at most is also read with a plus sign in front, and the token of the type that is
-- read is another text.
pub from_token-plus :
    (scale : ℕ)
    → scale ≤ 18
    → (from_token (ascii "decimal:+" ++ show_nat scale) ≡ ok (PropertyType.decimal scale))
      × (token (PropertyType.decimal scale) ≢ ascii "decimal:+" ++ show_nat scale)
unfolding from_token token
from_token-plus scale h = (
  ap to_decimal (parse_scale-plus scale (show_nat scale) h (parse_digits-show_nat scale)),
  λ e. absurd (omega (arith, ap length e)),
)
