-- ===== src/Cursor/Fingerprint/Queries.antt =====
-- What two requests of one fingerprint agree on.
use mikura.Common.{
  ℕ, ◌^◌, ◌<◌, ◌≡◌, refl, sym, ap, ◌∙◌, arith, Bool, Option, none, some, List, [], ◌∷◌, ◌++◌,
  append_assoc, length, length-append,
}
use mikura.Common.Words.{to_le}
use mikura.Common.Text.{Str}
use mikura.Log.Body.{bool_byte}
use mikura.Acl.{PropertyAcl}
use mikura.Acl.Sorted.{
  FlatTerm, denied_sorted, hide_kinds_sorted, hide_identities_sorted, row_filters_sorted,
}
use mikura.Request.{Predicate, Hop, Sort, ExactMatch, EvaluateRequest}
use mikura.Cursor.Fingerprint.{query_fingerprint}
use mikura.Cursor.Fingerprint.Bytes.{
  text_bytes, opt_bytes, list_bytes, pair_bytes, term_bytes, hop_bytes, match_bytes, sort_bytes,
  nearest_bytes, then_bytes, acl_bytes, bounds_bytes, predicate_bytes, query_fingerprint-bytes,
}
use mikura.Cursor.Fingerprint.Codes.{
  first_byte, behind, ends, Ends, Wide, Opt, Short, Ends-le, Ends-bool, Ends-text, Ends-opt,
  Ends-list, then-Ends,
}
use mikura.Cursor.Fingerprint.PredicateCodes.{WidePredicate, Ends-predicate}

abbrev WidePair : Str × Str → Type 0
WidePair p = Wide p.0 × Wide p.1

abbrev WideTerm : FlatTerm → Type 0
WideTerm (kind, property, values) = Wide kind × (Wide property × Short Wide values)

abbrev WideHop : Hop → Type 0
WideHop hop = Wide hop.far_kind × (Wide hop.join_property × Opt WidePredicate hop.predicate)

abbrev WideMatch : ExactMatch → Type 0
WideMatch f = Wide f.property × Wide f.value

abbrev WideSort : Sort → Type 0
WideSort s = Wide s.property

-- A restriction whose texts and lists have lengths that fit four bytes.
pub record WideAcl (acl : PropertyAcl) : Type 0 where
  pub denied : Short WidePair (denied_sorted acl)
  pub hide_kinds : Short Wide (hide_kinds_sorted acl)
  pub hide_identities : Short WidePair (hide_identities_sorted acl)
  pub row_filters : Short WideTerm (row_filters_sorted acl)

-- The same of a request, whose bounds fit eight bytes.
pub record WideQuery (r : EvaluateRequest) : Type 0 where
  pub acl : WideAcl r.acl
  pub namespace : Wide r.namespace
  pub root_kind : Wide r.root_kind
  pub hops : Short WideHop r.hops
  pub sum_kind : Wide r.sum_kind
  pub sum_property : Wide r.sum_property
  pub filter : Opt WideMatch r.filter
  pub predicate : Opt WidePredicate r.predicate
  pub sort : Opt WideSort r.sort
  pub object_bound : r.object_bound < 2 ^ 64
  pub page_size : r.page_size < 2 ^ 64

-- The property and the direction that come first in the order.
abbrev pub sort_key : Option Sort → Option (Str × Bool)
sort_key none = none
sort_key (some s) = some (s.property, s.descending)

pub record SameAcl (a b : PropertyAcl) : Type 0 where
  pub denied : denied_sorted a ≡ denied_sorted b
  pub hide_kinds : hide_kinds_sorted a ≡ hide_kinds_sorted b
  pub hide_identities : hide_identities_sorted a ≡ hide_identities_sorted b
  pub row_filters : row_filters_sorted a ≡ row_filters_sorted b

pub record SameQuery (r q : EvaluateRequest) : Type 0 where
  pub acl : SameAcl r.acl q.acl
  pub namespace : r.namespace ≡ q.namespace
  pub root_kind : r.root_kind ≡ q.root_kind
  pub hops : r.hops ≡ q.hops
  pub sum_kind : r.sum_kind ≡ q.sum_kind
  pub sum_property : r.sum_property ≡ q.sum_property
  pub filter : r.filter ≡ q.filter
  pub predicate : r.predicate ≡ q.predicate
  pub sort : sort_key r.sort ≡ sort_key q.sort
  pub object_bound : r.object_bound ≡ q.object_bound
  pub page_size : r.page_size ≡ q.page_size

-- The first of two codes.
peel :
    {A : Type 0} (P : A → Type 0) (enc : A → List ℕ)
    → Ends P enc
    → (a b : A) (m n r s : List ℕ) → P a
    → P b
    → (enc a ++ m) ++ r ≡ (enc b ++ n) ++ s
    → (a ≡ b) × (m ++ r ≡ n ++ s)
peel P enc e a b m n r s u v h =
    e a b (m ++ r) (n ++ s) u v (sym (append_assoc (enc a) m r) ∙ h ∙ append_assoc (enc b) n s)

Ends-pair : Ends WidePair pair_bytes
Ends-pair (a, b) (x, y) r s (pa, pb) (px, py) h =
    let (first, (second, rest)) =
      then-Ends Wide Wide text_bytes text_bytes Ends-text Ends-text a x b y r s pa px pb py h in
    (ap (λ c. (c, b)) first ∙ ap (λ c. (x, c)) second, rest)

Ends-term : Ends WideTerm term_bytes
Ends-term (k, p, vs) (l, q, ws) r s (a, (b, c)) (d, (e, f)) h =
    let (kinds, rest) =
      peel Wide text_bytes Ends-text k l (text_bytes p ++ list_bytes text_bytes vs)
        (text_bytes q ++ list_bytes text_bytes ws) r s a d h in
    let (names, (values, last)) =
      then-Ends Wide (Short Wide) text_bytes (list_bytes text_bytes) Ends-text
        (Ends-list Wide text_bytes Ends-text) p q vs ws r s b e c f rest in
    (ap (λ z. (z, p, vs)) kinds ∙ ap (λ z. (l, z, vs)) names ∙ ap (λ z. (l, q, z)) values, last)

hop_of : Str → Str → Bool → Option Predicate → Hop
hop_of far_kind join_property incoming predicate = record {
  far_kind = far_kind;
  join_property = join_property;
  incoming = incoming;
  predicate = predicate;
}

Ends-hop : Ends WideHop hop_bytes
unfolding hop_of
Ends-hop x y r s (a, (b, c)) (d, (e, f)) h =
    let (kinds, rest) =
      peel Wide text_bytes Ends-text x.far_kind y.far_kind
        (text_bytes x.join_property
          ++ (bool_byte x.incoming ∷ opt_bytes predicate_bytes x.predicate))
        (text_bytes y.join_property
          ++ (bool_byte y.incoming ∷ opt_bytes predicate_bytes y.predicate))
        r s a d h in
    let (names, rest) =
      peel Wide text_bytes Ends-text x.join_property y.join_property
        (bool_byte x.incoming ∷ opt_bytes predicate_bytes x.predicate)
        (bool_byte y.incoming ∷ opt_bytes predicate_bytes y.predicate) r s b e rest in
    let (ways, rest) =
      Ends-bool x.incoming y.incoming (opt_bytes predicate_bytes x.predicate ++ r)
        (opt_bytes predicate_bytes y.predicate ++ s) tt tt rest in
    let (predicates, last) =
      Ends-opt WidePredicate predicate_bytes Ends-predicate x.predicate y.predicate r s c f rest in
    (
      ap (λ z. hop_of z x.join_property x.incoming x.predicate) kinds
          ∙ ap (λ z. hop_of y.far_kind z x.incoming x.predicate) names
          ∙ ap (λ z. hop_of y.far_kind y.join_property z x.predicate) ways
          ∙ ap (hop_of y.far_kind y.join_property y.incoming) predicates,
      last,
    )

match_of : Str → Str → ExactMatch
match_of property value = record { property = property; value = value }

Ends-match : Ends WideMatch match_bytes
unfolding match_of
Ends-match x y r s (a, b) (c, d) h =
    let (names, (values, rest)) =
      then-Ends Wide Wide text_bytes text_bytes Ends-text Ends-text x.property y.property x.value
        y.value r s a c b d h in
    (ap (λ z. match_of z x.value) names ∙ ap (match_of y.property) values, rest)

sort_key-same :
    (x y : Option Sort) (r s : List ℕ)
    → Opt WideSort x
    → Opt WideSort y
    → opt_bytes sort_bytes x ++ r ≡ opt_bytes sort_bytes y ++ s
    → sort_key x ≡ sort_key y
sort_key-same none none r s p q h = refl
sort_key-same none (some y) r s p q h = absurd (omega (arith, ap first_byte h))
sort_key-same (some x) none r s p q h = absurd (omega (arith, ap first_byte h))
sort_key-same (some x) (some y) r s p q h =
    let (names, rest) =
      peel Wide text_bytes Ends-text x.property y.property
        (bool_byte x.descending ∷ nearest_bytes x.nearest)
        (bool_byte y.descending ∷ nearest_bytes y.nearest) r s p q (ap behind h) in
    let (ways, last) =
      Ends-bool x.descending y.descending (nearest_bytes x.nearest ++ r)
        (nearest_bytes y.nearest ++ s) tt tt rest in
    ap (λ z. some (z, x.descending)) names ∙ ap (λ z. some (y.property, z)) ways

SameAcl-bytes :
    (a b : PropertyAcl) (r s : List ℕ)
    → WideAcl a
    → WideAcl b
    → acl_bytes a ++ r ≡ acl_bytes b ++ s
    → SameAcl a b × (r ≡ s)
SameAcl-bytes a b r s u v h =
    let ids_a : List ℕ = list_bytes pair_bytes (hide_identities_sorted a) in
    let ids_b : List ℕ = list_bytes pair_bytes (hide_identities_sorted b) in
    let terms_a : List ℕ = list_bytes term_bytes (row_filters_sorted a) in
    let terms_b : List ℕ = list_bytes term_bytes (row_filters_sorted b) in
    let kinds_a : List ℕ = list_bytes text_bytes (hide_kinds_sorted a) in
    let kinds_b : List ℕ = list_bytes text_bytes (hide_kinds_sorted b) in
    let (denied, rest) =
      peel (Short WidePair) (list_bytes pair_bytes) (Ends-list WidePair pair_bytes Ends-pair)
        (denied_sorted a) (denied_sorted b) (kinds_a ++ (ids_a ++ terms_a))
        (kinds_b ++ (ids_b ++ terms_b)) r s u.denied v.denied h in
    let (kinds, rest) =
      peel (Short Wide) (list_bytes text_bytes) (Ends-list Wide text_bytes Ends-text)
        (hide_kinds_sorted a) (hide_kinds_sorted b) (ids_a ++ terms_a) (ids_b ++ terms_b) r s
        u.hide_kinds v.hide_kinds rest in
    let (ids, rest) =
      peel (Short WidePair) (list_bytes pair_bytes) (Ends-list WidePair pair_bytes Ends-pair)
        (hide_identities_sorted a) (hide_identities_sorted b) terms_a terms_b r s u.hide_identities
        v.hide_identities rest in
    let (terms, last) =
      Ends-list WideTerm term_bytes Ends-term (row_filters_sorted a) (row_filters_sorted b) r s
        u.row_filters v.row_filters rest in
    (
      record { denied = denied; hide_kinds = kinds; hide_identities = ids; row_filters = terms },
      last,
    )

-- The bytes behind the predicate, and behind the restriction.
abbrev order_bytes : EvaluateRequest → List ℕ
order_bytes r = opt_bytes sort_bytes r.sort ++ (then_bytes r.then_by ++ bounds_bytes r)

abbrev body_bytes : EvaluateRequest → List ℕ
body_bytes r =
    text_bytes r.namespace
    ++ (text_bytes r.root_kind
        ++ (list_bytes hop_bytes r.hops
            ++ (text_bytes r.sum_kind
                ++ (text_bytes r.sum_property
                    ++ (opt_bytes match_bytes r.filter
                        ++ (opt_bytes predicate_bytes r.predicate ++ order_bytes r))))))

-- The bounds are the last sixteen bytes.
bounds-same :
    (r q : EvaluateRequest)
    → WideQuery r
    → WideQuery q
    → order_bytes r ≡ order_bytes q
    → (r.object_bound ≡ q.object_bound) × (r.page_size ≡ q.page_size)
bounds-same r q u v h =
    let long : (x : EvaluateRequest) → length (bounds_bytes x) ≡ 16 =
      λ x. length-append (to_le 8 x.object_bound) (to_le 8 x.page_size) ∙ refl in
    let last : bounds_bytes r ≡ bounds_bytes q =
      ends (opt_bytes sort_bytes r.sort ++ then_bytes r.then_by)
        (opt_bytes sort_bytes q.sort ++ then_bytes q.then_by) (bounds_bytes r) (bounds_bytes q)
        (long r ∙ sym (long q))
        (append_assoc (opt_bytes sort_bytes r.sort) (then_bytes r.then_by) (bounds_bytes r)
          ∙ h
          ∙ sym (
              append_assoc (opt_bytes sort_bytes q.sort) (then_bytes q.then_by)
                (bounds_bytes q))) in
    let (bound, rest) =
      Ends-le 8 r.object_bound q.object_bound (to_le 8 r.page_size) (to_le 8 q.page_size)
        u.object_bound v.object_bound last in
    (
      bound,
      (Ends-le 8 r.page_size q.page_size [] [] u.page_size v.page_size (ap (λ b. b ++ []) rest)).0,
    )

-- Requests of one fingerprint agree on the restriction, the query and its bounds, and on the key that
-- comes first in the order.
pub query_fingerprint-SameQuery :
    (r q : EvaluateRequest)
    → WideQuery r
    → WideQuery q
    → query_fingerprint r ≡ query_fingerprint q
    → SameQuery r q
query_fingerprint-SameQuery r q u v h =
    let (acl, rest) =
      SameAcl-bytes r.acl q.acl (body_bytes r) (body_bytes q) u.acl v.acl
        (sym (query_fingerprint-bytes r) ∙ h ∙ query_fingerprint-bytes q) in
    let (namespaces, rest) = Ends-text r.namespace q.namespace _ _ u.namespace v.namespace rest in
    let (roots, rest) = Ends-text r.root_kind q.root_kind _ _ u.root_kind v.root_kind rest in
    let (hops, rest) = Ends-list WideHop hop_bytes Ends-hop r.hops q.hops _ _ u.hops v.hops rest in
    let (kinds, rest) = Ends-text r.sum_kind q.sum_kind _ _ u.sum_kind v.sum_kind rest in
    let (names, rest) =
      Ends-text r.sum_property q.sum_property _ _ u.sum_property v.sum_property rest in
    let (filters, rest) =
      Ends-opt WideMatch match_bytes Ends-match r.filter q.filter _ _ u.filter v.filter rest in
    let (predicates, order) =
      Ends-opt WidePredicate predicate_bytes Ends-predicate r.predicate q.predicate (order_bytes r)
        (order_bytes q) u.predicate v.predicate rest in
    let (bound, page) = bounds-same r q u v order in
    record {
      acl = acl;
      namespace = namespaces;
      root_kind = roots;
      hops = hops;
      sum_kind = kinds;
      sum_property = names;
      filter = filters;
      predicate = predicates;
      sort = sort_key-same r.sort q.sort _ _ u.sort v.sort order;
      object_bound = bound;
      page_size = page;
    }
