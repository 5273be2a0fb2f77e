-- ===== src/Cursor/Fingerprint/Bytes.antt =====
-- The bytes that each writer of src/page.rs adds behind those that are there.
use mikura.Common.{
  ℕ, ◌≡◌, refl, sym, ap, ◌∙◌, Option, none, some, List, [], ◌∷◌, ◌++◌, append_assoc, append-nil,
  length, flat_map,
}
use mikura.Common.Words.{to_le}
use mikura.Common.Text.{Str}
use mikura.Log.Body.{bool_byte}
use mikura.Acl.{PropertyAcl}
use mikura.Acl.Sorted.{
  FlatTerm, denied_sorted, hide_kinds_sorted, hide_identities_sorted, row_filters_sorted,
}
use mikura.Request.{
  Predicate, Predicates, eq, neq, range, missing, and_all, or_any, negate, bbox, nil, cons, Hop,
  Sort, ExactMatch, EvaluateRequest,
}
use mikura.Cursor.Fingerprint.{
  each, count, write_str, write_opt_str, write_predicate, write_predicates, write_opt_predicate,
  write_sort, write_hop, write_pair, write_term, write_acl, write_filter, write_opt_sort,
  write_then_by, clamp_u8, query_fingerprint,
}

abbrev pub text_bytes : Str → List ℕ
text_bytes s = to_le 4 (length s) ++ s

abbrev pub opt_bytes : {A : Type 0} → (A → List ℕ) → Option A → List ℕ
opt_bytes enc none = 0 ∷ []
opt_bytes enc (some a) = 1 ∷ enc a

abbrev pub list_bytes : {A : Type 0} → (A → List ℕ) → List A → List ℕ
list_bytes enc xs = to_le 4 (length xs) ++ flat_map enc xs

abbrev pub pair_bytes : Str × Str → List ℕ
pair_bytes (a, b) = text_bytes a ++ text_bytes b

abbrev pub term_bytes : FlatTerm → List ℕ
term_bytes (kind, property, values) =
    text_bytes kind ++ (text_bytes property ++ list_bytes text_bytes values)

unfoldable mutual
  pub predicate_bytes : Predicate → List ℕ
  predicate_bytes (eq property value) = 0 ∷ (text_bytes property ++ text_bytes value)
  predicate_bytes (neq property value) = 1 ∷ (text_bytes property ++ text_bytes value)
  predicate_bytes (range property min max) =
      2 ∷ (text_bytes property ++ (opt_bytes text_bytes min ++ opt_bytes text_bytes max))
  predicate_bytes (missing property) = 3 ∷ text_bytes property
  predicate_bytes (and_all args) = 4 ∷ (to_le 4 (count args) ++ predicates_bytes args)
  predicate_bytes (or_any args) = 5 ∷ (to_le 4 (count args) ++ predicates_bytes args)
  predicate_bytes (negate inner) = 6 ∷ predicate_bytes inner
  predicate_bytes (bbox property min_lat min_lon max_lat max_lon) =
      7
      ∷ (text_bytes property
          ++ (text_bytes min_lat
              ++ (text_bytes min_lon ++ (text_bytes max_lat ++ text_bytes max_lon))))

  pub predicates_bytes : Predicates → List ℕ
  predicates_bytes nil = []
  predicates_bytes (cons p ps) = predicate_bytes p ++ predicates_bytes ps

abbrev pub hop_bytes : Hop → List ℕ
hop_bytes hop =
    text_bytes hop.far_kind
    ++ (text_bytes hop.join_property
        ++ (bool_byte hop.incoming ∷ opt_bytes predicate_bytes hop.predicate))

abbrev pub match_bytes : ExactMatch → List ℕ
match_bytes f = text_bytes f.property ++ text_bytes f.value

abbrev pub nearest_bytes : Option Str → List ℕ
nearest_bytes none = []
nearest_bytes (some nearest) = 1 ∷ text_bytes nearest

abbrev pub sort_bytes : Sort → List ℕ
sort_bytes s = text_bytes s.property ++ (bool_byte s.descending ∷ nearest_bytes s.nearest)

abbrev pub then_bytes : List Sort → List ℕ
then_bytes [] = []
then_bytes (s ∷ ss) = clamp_u8 (length (s ∷ ss)) ∷ flat_map sort_bytes (s ∷ ss)

abbrev pub acl_bytes : PropertyAcl → List ℕ
acl_bytes acl =
    list_bytes pair_bytes (denied_sorted acl)
    ++ (list_bytes text_bytes (hide_kinds_sorted acl)
        ++ (list_bytes pair_bytes (hide_identities_sorted acl)
            ++ list_bytes term_bytes (row_filters_sorted acl)))

-- What a writer of one value adds.
abbrev pub Adds : {A : Type 0} → (List ℕ → A → List ℕ) → (A → List ℕ) → Type 0
Adds {A} write enc = (out : List ℕ) (a : A) → write out a ≡ out ++ enc a

each-Adds :
    {A : Type 0} (write : List ℕ → A → List ℕ) (enc : A → List ℕ)
    → Adds write enc
    → Adds (each write) (flat_map enc)
each-Adds write enc h out [] = sym (append-nil out)
each-Adds write enc h out (x ∷ xs) =
    each-Adds write enc h (write out x) xs
    ∙ ap (λ o. o ++ flat_map enc xs) (h out x)
    ∙ append_assoc out (enc x) (flat_map enc xs)

list-Adds :
    {A : Type 0} (write : List ℕ → A → List ℕ) (enc : A → List ℕ)
    → Adds write enc
    → (out : List ℕ) (xs : List A)
    → each write (out ++ to_le 4 (length xs)) xs ≡ out ++ list_bytes enc xs
list-Adds write enc h out xs =
    each-Adds write enc h (out ++ to_le 4 (length xs)) xs
    ∙ append_assoc out (to_le 4 (length xs)) (flat_map enc xs)

str-Adds : Adds write_str text_bytes
unfolding write_str
str-Adds out s = refl

pair-Adds : Adds write_pair pair_bytes
unfolding write_str
pair-Adds out (a, b) = append_assoc out (text_bytes a) (text_bytes b)

opt-Adds : Adds write_opt_str (opt_bytes text_bytes)
unfolding write_opt_str write_str
opt-Adds out none = refl
opt-Adds out (some s) = append_assoc out (1 ∷ []) (text_bytes s)

term-Adds : Adds write_term term_bytes
unfolding write_str
term-Adds out (kind, property, values) =
    list-Adds write_str text_bytes str-Adds ((out ++ text_bytes kind) ++ text_bytes property) values
    ∙ simp append_assoc

mutual
  unfolding write_predicate predicate_bytes write_str write_opt_str

  pub predicate-Adds :
      (p : Predicate) (out : List ℕ) → write_predicate p out ≡ out ++ predicate_bytes p
  predicate-Adds (eq property value) out = simp append_assoc
  predicate-Adds (neq property value) out = simp append_assoc
  predicate-Adds (range property min max) out =
      opt-Adds _ max ∙ ap (λ o. o ++ opt_bytes text_bytes max) (opt-Adds _ min) ∙ simp append_assoc
  predicate-Adds (missing property) out = simp append_assoc
  predicate-Adds (and_all args) out = predicates-Adds args _ ∙ simp append_assoc
  predicate-Adds (or_any args) out = predicates-Adds args _ ∙ simp append_assoc
  predicate-Adds (negate inner) out = predicate-Adds inner _ ∙ simp append_assoc
  predicate-Adds (bbox property min_lat min_lon max_lat max_lon) out = simp append_assoc

  predicates-Adds :
      (ps : Predicates) (out : List ℕ) → write_predicates ps out ≡ out ++ predicates_bytes ps
  predicates-Adds nil out = sym (append-nil out)
  predicates-Adds (cons p ps) out =
      predicates-Adds ps _
      ∙ ap (λ o. o ++ predicates_bytes ps) (predicate-Adds p out)
      ∙ append_assoc out (predicate_bytes p) (predicates_bytes ps)

opt_predicate-Adds : Adds write_opt_predicate (opt_bytes predicate_bytes)
unfolding write_opt_predicate
opt_predicate-Adds out none = refl
opt_predicate-Adds out (some p) =
    predicate-Adds p (out ++ (1 ∷ [])) ∙ append_assoc out (1 ∷ []) (predicate_bytes p)

hop-Adds : Adds write_hop hop_bytes
unfolding write_hop write_str
hop-Adds out hop = opt_predicate-Adds _ hop.predicate ∙ simp append_assoc

filter-Adds : Adds write_filter (opt_bytes match_bytes)
unfolding write_str
filter-Adds out none = refl
filter-Adds out (some f) = simp append_assoc

sort-Adds : Adds write_sort sort_bytes
unfolding write_sort write_str write_opt_str
sort-Adds out s = by_nearest s.nearest
  where
    by_nearest :
        (nearest : Option Str)
        → (elim nearest [
          | none ↦ (out ++ text_bytes s.property) ++ (bool_byte s.descending ∷ [])
          | some n ↦
              write_opt_str
                ((out ++ text_bytes s.property) ++ (bool_byte s.descending ∷ []))
                (some n)
        ])
          ≡ out ++ (text_bytes s.property ++ (bool_byte s.descending ∷ nearest_bytes nearest))
    by_nearest none = append_assoc out (text_bytes s.property) (bool_byte s.descending ∷ [])
    by_nearest (some n) = opt-Adds _ (some n) ∙ simp append_assoc

opt_sort-Adds : Adds write_opt_sort (opt_bytes sort_bytes)
opt_sort-Adds out none = refl
opt_sort-Adds out (some s) =
    sort-Adds (out ++ (1 ∷ [])) s ∙ append_assoc out (1 ∷ []) (sort_bytes s)

then_by-Adds : Adds write_then_by then_bytes
then_by-Adds out [] = sym (append-nil out)
then_by-Adds out (s ∷ ss) =
    each-Adds write_sort sort_bytes sort-Adds _ (s ∷ ss)
    ∙ append_assoc out (clamp_u8 (length (s ∷ ss)) ∷ []) (flat_map sort_bytes (s ∷ ss))

acl-Adds : Adds write_acl acl_bytes
unfolding write_acl
acl-Adds out acl =
    list-Adds write_term term_bytes term-Adds _ (row_filters_sorted acl)
    ∙ ap (λ o. o ++ list_bytes term_bytes (row_filters_sorted acl))
        (list-Adds write_pair pair_bytes pair-Adds _ (hide_identities_sorted acl)
          ∙ ap (λ o. o ++ list_bytes pair_bytes (hide_identities_sorted acl))
              (list-Adds write_str text_bytes str-Adds _ (hide_kinds_sorted acl)
                ∙ ap (λ o. o ++ list_bytes text_bytes (hide_kinds_sorted acl))
                    (list-Adds write_pair pair_bytes pair-Adds out (denied_sorted acl))))
    ∙ regroup out (list_bytes pair_bytes (denied_sorted acl))
        (list_bytes text_bytes (hide_kinds_sorted acl))
        (list_bytes pair_bytes (hide_identities_sorted acl))
        (list_bytes term_bytes (row_filters_sorted acl))
  where
    regroup : (o a b c d : List ℕ) → (((o ++ a) ++ b) ++ c) ++ d ≡ o ++ (a ++ (b ++ (c ++ d)))
    regroup o a b c d = simp append_assoc

-- The end of a fingerprint, of fixed length.
abbrev pub bounds_bytes : EvaluateRequest → List ℕ
bounds_bytes r = to_le 8 r.object_bound ++ to_le 8 r.page_size

pub query_fingerprint-bytes :
    (r : EvaluateRequest)
    → query_fingerprint r
      ≡ acl_bytes r.acl
        ++ (text_bytes r.namespace
            ++ (text_bytes r.root_kind
                ++ (list_bytes hop_bytes r.hops
                    ++ (text_bytes r.sum_kind
                        ++ (text_bytes r.sum_property
                            ++ (opt_bytes match_bytes r.filter
                                ++ (opt_bytes predicate_bytes r.predicate
                                    ++ (opt_bytes sort_bytes r.sort
                                        ++ (then_bytes r.then_by ++ bounds_bytes r)))))))))
unfolding query_fingerprint write_str
query_fingerprint-bytes r =
    ap (λ o. (o ++ to_le 8 r.object_bound) ++ to_le 8 r.page_size)
      (then_by-Adds _ r.then_by
        ∙ ap (λ o. o ++ then_bytes r.then_by)
            (opt_sort-Adds _ r.sort
              ∙ ap (λ o. o ++ opt_bytes sort_bytes r.sort)
                  (opt_predicate-Adds _ r.predicate
                    ∙ ap (λ o. o ++ opt_bytes predicate_bytes r.predicate)
                        (filter-Adds _ r.filter
                          ∙ ap
                              (λ o.
                                ((o ++ text_bytes r.sum_kind) ++ text_bytes r.sum_property)
                                ++ opt_bytes match_bytes r.filter)
                              (list-Adds write_hop hop_bytes hop-Adds _ r.hops
                                ∙ ap
                                    (λ o.
                                      ((o ++ text_bytes r.namespace) ++ text_bytes r.root_kind)
                                      ++ list_bytes hop_bytes r.hops)
                                    (acl-Adds [] r.acl))))))
    ∙ regroup (acl_bytes r.acl) (text_bytes r.namespace) (text_bytes r.root_kind)
        (list_bytes hop_bytes r.hops) (text_bytes r.sum_kind) (text_bytes r.sum_property)
        (opt_bytes match_bytes r.filter) (opt_bytes predicate_bytes r.predicate)
        (opt_bytes sort_bytes r.sort) (then_bytes r.then_by) (to_le 8 r.object_bound)
        (to_le 8 r.page_size)
  where
    regroup :
        (a b c d e f g h i j k l : List ℕ)
        → (((((((((((a ++ b) ++ c) ++ d) ++ e) ++ f) ++ g) ++ h) ++ i) ++ j) ++ k) ++ l)
          ≡ a ++ (b ++ (c ++ (d ++ (e ++ (f ++ (g ++ (h ++ (i ++ (j ++ (k ++ l))))))))))
    regroup a b c d e f g h i j k l = simp append_assoc
