-- ===== src/Cursor/Fingerprint.antt =====
-- `query_fingerprint` of src/page.rs and its writers. Each takes the bytes so far. A length is written
-- `as u32`, so `to_le 4` cuts it.
pub mod Bytes
pub mod Codes
pub mod PredicateCodes
pub mod Queries
use mikura.Common.{ℕ, ◌+◌, Option, none, some, List, [], ◌∷◌, ◌++◌, length, ltb, if◌then◌else◌}
use mikura.Common.Words.{to_le}
use mikura.Common.Text.{Str}
use mikura.Acl.{PropertyAcl}
use mikura.Acl.Sorted.{
  FlatTerm, denied_sorted, hide_kinds_sorted, hide_identities_sorted, row_filters_sorted,
}
use mikura.Request.{
  Predicate, Predicates, eq, neq, range, missing, and_all, or_any, negate, bbox, nil, cons, Hop,
  Sort, ExactMatch, EvaluateRequest,
}
use mikura.Log.Body.{bool_byte}

unfoldable pub write_bytes : List ℕ → List ℕ → List ℕ
write_bytes out value = out ++ (to_le 4 (length value) ++ value)

unfoldable pub write_str : List ℕ → Str → List ℕ
unfolding write_bytes
write_str out value = write_bytes out value

abbrev pub push : List ℕ → ℕ → List ℕ
push out byte = out ++ (byte ∷ [])

unfoldable pub write_opt_str : List ℕ → Option Str → List ℕ
write_opt_str out none = push out 0
write_opt_str out (some value) = write_str (push out 1) value

unfoldable pub count : Predicates → ℕ
count nil = 0
count (cons p ps) = 1 + count ps

-- `for x in xs { write(out, x) }`
abbrev pub each {ℓ} : {A : Type ℓ} → (List ℕ → A → List ℕ) → List ℕ → List A → List ℕ
each write out [] = out
each write out (x ∷ xs) = each write (write out x) xs

unfoldable mutual
  unfolding count

  pub write_predicate : Predicate → List ℕ → List ℕ
  write_predicate (eq property value) out = write_str (write_str (push out 0) property) value
  write_predicate (neq property value) out = write_str (write_str (push out 1) property) value
  write_predicate (range property min max) out =
      write_opt_str (write_opt_str (write_str (push out 2) property) min) max
  write_predicate (missing property) out = write_str (push out 3) property
  write_predicate (and_all args) out = write_predicates args (push out 4 ++ to_le 4 (count args))
  write_predicate (or_any args) out = write_predicates args (push out 5 ++ to_le 4 (count args))
  write_predicate (negate inner) out = write_predicate inner (push out 6)
  write_predicate (bbox property min_lat min_lon max_lat max_lon) out =
      write_str
        (write_str (write_str (write_str (write_str (push out 7) property) min_lat) min_lon)
          max_lat)
        max_lon

  pub write_predicates : Predicates → List ℕ → List ℕ
  write_predicates nil out = out
  write_predicates (cons p ps) out = write_predicates ps (write_predicate p out)

unfoldable pub write_opt_predicate : List ℕ → Option Predicate → List ℕ
write_opt_predicate out none = push out 0
write_opt_predicate out (some pred) = write_predicate pred (push out 1)

unfoldable pub write_sort : List ℕ → Sort → List ℕ
write_sort out s =
    let out : List ℕ = push (write_str out s.property) (bool_byte s.descending) in
    elim s.nearest [ none ↦ out | some nearest ↦ write_opt_str out (some nearest) ]

unfoldable pub write_hop : List ℕ → Hop → List ℕ
unfolding write_opt_predicate
write_hop out hop =
    write_opt_predicate
      (push (write_str (write_str out hop.far_kind) hop.join_property) (bool_byte hop.incoming))
      hop.predicate

abbrev pub write_pair : List ℕ → Str × Str → List ℕ
write_pair out (a, b) = write_str (write_str out a) b

abbrev pub write_term : List ℕ → FlatTerm → List ℕ
write_term out (kind, property, values) =
    each write_str (write_str (write_str out kind) property ++ to_le 4 (length values)) values

unfoldable pub write_acl : List ℕ → PropertyAcl → List ℕ
write_acl out acl =
    let denied : List (Str × Str) = denied_sorted acl in
    let out : List ℕ = each write_pair (out ++ to_le 4 (length denied)) denied in
    let kinds : List Str = hide_kinds_sorted acl in
    let out : List ℕ = each write_str (out ++ to_le 4 (length kinds)) kinds in
    let identities : List (Str × Str) = hide_identities_sorted acl in
    let out : List ℕ = each write_pair (out ++ to_le 4 (length identities)) identities in
    let terms : List FlatTerm = row_filters_sorted acl in
    each write_term (out ++ to_le 4 (length terms)) terms

-- `u8::try_from(n).unwrap_or(u8::MAX)`
abbrev pub clamp_u8 : ℕ → ℕ
clamp_u8 n = if ltb n 256 then n else 255

abbrev pub write_filter : List ℕ → Option ExactMatch → List ℕ
write_filter out none = push out 0
write_filter out (some f) = write_str (write_str (push out 1) f.property) f.value

abbrev pub write_opt_sort : List ℕ → Option Sort → List ℕ
write_opt_sort out none = push out 0
write_opt_sort out (some s) = write_sort (push out 1) s

-- Nothing at all where there are no further keys.
abbrev pub write_then_by : List ℕ → List Sort → List ℕ
write_then_by out [] = out
write_then_by out (s ∷ ss) = each write_sort (push out (clamp_u8 (length (s ∷ ss)))) (s ∷ ss)

unfoldable pub query_fingerprint : EvaluateRequest → List ℕ
query_fingerprint r =
    let out : List ℕ = write_str (write_str (write_acl [] r.acl) r.namespace) r.root_kind in
    let out : List ℕ = each write_hop (out ++ to_le 4 (length r.hops)) r.hops in
    let out : List ℕ =
      write_filter (write_str (write_str out r.sum_kind) r.sum_property) r.filter in
    let out : List ℕ =
      write_then_by (write_opt_sort (write_opt_predicate out r.predicate) r.sort) r.then_by in
    (out ++ to_le 8 r.object_bound) ++ to_le 8 r.page_size
