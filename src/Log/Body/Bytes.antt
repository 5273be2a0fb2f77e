-- ===== src/Log/Body/Bytes.antt =====
-- The bytes that `encode_body` of src/log.rs writes for a record within the limits of the format.
use mikura.Common.{ℕ, ◌^◌, ◌≡◌, refl, ◌∙◌, arith, false, Option, none, some}
use mikura.Common.{
  List, [], ◌∷◌, ◌++◌, append_assoc, append-nil, length, All, ltb, lt→ltb, if◌then◌else◌,
}
use mikura.Common.{ok, ◌≢◌, Bool-cases, inl, inr}
use mikura.Common.Words.{to_le}
use mikura.Common.Text.{Str, sort, str_eq, str_eq_refl, All-sort}
use mikura.Common.Maps.{get, str_key}
use mikura.Codec.Laws.{str_bytes, write_str-bytes}
use mikura.Record.{ObjectRecord, Props, IsShort, IsStorable, AllShort, nonempty, effective}
use mikura.Log.Body.{
  bool_byte, write_props, or_empty, write_trailer, keys_of, encode_body, is_empty,
}

-- The map has the key, with a value that fits.
pub record Has (props : Props) (k : Str) : Type 0 where
  pub value : Str
  pub found : get k props ≡ some value
  pub key_short : IsShort k
  pub value_short : IsShort value

All-imp {ℓ} :
    {A : Type ℓ} {P Q : A → Type 0} → ((a : A) → P a → Q a) → (xs : List A) → All P xs → All Q xs
All-imp f [] h = tt
All-imp f (x ∷ xs) (p, h) = (f x p, All-imp f xs h)

Has-tail : (k v : Str) (m : Props) → IsShort v → (j : Str) → Has m j → Has ((k, v) ∷ m) j
Has-tail k v m s j h = elim (Bool-cases (str_eq k j)) [
  | inl e ↦ record {
    value = v;
    found = unfold get in rw e refl;
    key_short = h.key_short;
    value_short = s;
  }
  | inr e ↦ record {
    value = h.value;
    found = unfold get in rw e h.found;
    key_short = h.key_short;
    value_short = h.value_short;
  }
]

pub All-Has :
    (m : Props) → All (λ (p : Str × Str). IsShort p.0 × IsShort p.1) m → All (Has m) (keys_of m)
All-Has [] h = tt
All-Has ((k, v) ∷ m) ((hk, hv), h) = (
  record {
    value = v;
    found = unfold get in rw (str_eq_refl k) refl;
    key_short = hk;
    value_short = hv;
  },
  All-imp (Has-tail k v m hv) (keys_of m) (All-Has m h),
)

unfoldable pub value_of : Str → Props → Str
unfolding or_empty
value_of k props = or_empty (get k props)

unfoldable pub props_bytes : List Str → Props → List ℕ
props_bytes [] props = []
props_bytes (k ∷ ks) props = str_bytes k ++ (str_bytes (value_of k props) ++ props_bytes ks props)

unfoldable pub trailer_bytes : Option Str → ℕ → List ℕ
unfolding or_empty
trailer_bytes action version =
    if ltb 1 version
    then str_bytes (or_empty action) ++ to_le 4 version
    else elim action [ some id ↦ str_bytes id | none ↦ [] ]

unfoldable pub body_bytes : ObjectRecord → List ℕ
body_bytes r =
    to_le 8 r.gen
    ++ ((bool_byte r.hidden ∷ [])
        ++ (str_bytes r.namespace
            ++ (str_bytes r.kind
                ++ (str_bytes r.key
                    ++ (to_le 2 (length r.props)
                        ++ (props_bytes (sort (keys_of r.props)) r.props
                            ++ trailer_bytes (nonempty r.action_id)
                                (effective r.schema_version)))))))

pub write_props-bytes :
    (body : List ℕ) (ks : List Str) (props : Props)
    → All (Has props) ks
    → write_props body ks props ≡ ok (body ++ props_bytes ks props)
unfolding write_props props_bytes value_of
write_props-bytes body [] props h = rw append-nil refl
write_props-bytes body (k ∷ ks) props (p, h) = rw (write_str-bytes body k p.key_short.short) (
    rw p.found (
      rw (write_str-bytes _ p.value p.value_short.short) (
        write_props-bytes ((body ++ str_bytes k) ++ str_bytes p.value) ks props h
        ∙ simp append_assoc)))

pub write_trailer-bytes :
    (body : List ℕ) (action : Option Str) (version : ℕ)
    → AllShort action
    → write_trailer body action version ≡ ok (body ++ trailer_bytes action version)
unfolding write_trailer trailer_bytes
write_trailer-bytes body none version h = elim (Bool-cases (ltb 1 version)) [
  | inl e ↦ rw e (rw (write_str-bytes body [] (omega arith)) (simp append_assoc))
  | inr e ↦ rw e (rw append-nil refl)
]
write_trailer-bytes body (some id) version h = elim (Bool-cases (ltb 1 version)) [
  | inl e ↦ rw e (rw (write_str-bytes body id h.short) (simp append_assoc))
  | inr e ↦ rw e (write_str-bytes body id h.short)
]

nonempty-AllShort : (action : Option Str) → AllShort action → AllShort (nonempty action)
nonempty-AllShort none h = tt
nonempty-AllShort (some []) h = tt
nonempty-AllShort (some (c ∷ s)) h = h

pub not_empty : (s : Str) → s ≢ [] → is_empty s ≡ false
not_empty [] h = absurd (h refl)
not_empty (c ∷ s) h = refl

-- `encode_body` succeeds on every record within the limits.
pub encode_body-bytes : (r : ObjectRecord) → IsStorable r → encode_body r ≡ ok (body_bytes r)
unfolding encode_body body_bytes
encode_body-bytes r h = rw (not_empty r.namespace h.named) (
    rw (write_str-bytes _ r.namespace h.namespace_short.short) (
      rw (write_str-bytes _ r.kind h.kind_short.short) (
        rw (write_str-bytes _ r.key h.key_short.short) (
          rw (lt→ltb (length r.props) (2 ^ 16) h.props_count) (
            rw
              (write_props-bytes _ (sort (keys_of r.props)) r.props
                (All-sort (Has r.props) (keys_of r.props) (All-Has r.props h.props_short)))
              (write_trailer-bytes _ (nonempty r.action_id) (effective r.schema_version)
                  (nonempty-AllShort r.action_id h.action_short)
                ∙ simp append_assoc))))))
