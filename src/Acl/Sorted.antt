-- ===== src/Acl/Sorted.antt =====
-- The orders and the interned forms of src/acl.rs: a document listed in a stable order, and its denies
-- over the numbers that the join maps give to texts.
use mikura.Common.{ℕ, Bool, not, Option, none, some, List, [], ◌∷◌, map}
use mikura.Common.{if◌then◌else◌, ◌&&◌, ◌||◌, sort_by, flat_map, filter_map, get_elem?}
use mikura.Common.Text.{Str, str_eq, str_lt, sort}
use mikura.Common.Maps.{Map, insert, contains, str_key}
use mikura.Acl.{PropertyAcl, Terms, is_empty}
use mikura.Common.Maps.{num_pair_key}

abbrev pub pair_lt : Str × Str → Str × Str → Bool
pair_lt (a, b) (c, d) = str_lt a c || (str_eq a c && str_lt b d)

unfoldable pub denied_sorted : PropertyAcl → List (Str × Str)
denied_sorted acl = sort_by pair_lt acl.denied

unfoldable pub hide_kinds_sorted : PropertyAcl → List Str
hide_kinds_sorted acl = sort acl.hide_kinds

unfoldable pub hide_identities_sorted : PropertyAcl → List (Str × Str)
hide_identities_sorted acl = sort_by pair_lt acl.hide_identities

abbrev pub FlatTerm : Type 0
FlatTerm = Str × Str × List Str

abbrev term_lt : FlatTerm → FlatTerm → Bool
term_lt (a, b, s) (c, d, t) = str_lt a c || (str_eq a c && str_lt b d)

-- The terms of a kind, with the kind; a `BTreeSet` lists its values in order.
abbrev pub flat_terms : Str × Terms → List FlatTerm
flat_terms (kind, terms) = map (λ (t : Str × List Str). (kind, t.0, sort t.1)) terms

unfoldable pub row_filters_sorted : PropertyAcl → List FlatTerm
row_filters_sorted acl = sort_by term_lt (flat_map flat_terms acl.row_filters)

-- Denies on names that no row has cannot match and are left out.
unfoldable pub interned_denies : PropertyAcl → (Str → Option ℕ) → List (ℕ × ℕ)
interned_denies acl intern_lookup =
    if is_empty acl.denied
    then []
    else filter_map
        (λ (p : Str × Str). elim (intern_lookup p.0) [
          | none ↦ none
          | some kind ↦ elim (intern_lookup p.1) [
            | none ↦ none
            | some property ↦ some (kind, property)
          ]
        ])
        acl.denied

abbrev pub resolve : List Str → ℕ × ℕ → Option (Str × Str)
resolve intern (prop_id, value_id) = elim (get_elem? intern prop_id) [
  | none ↦ none
  | some prop ↦ elim (get_elem? intern value_id) [ none ↦ none | some value ↦ some (prop, value) ]
]

unfoldable pub iter_owned : List Str → ℕ → List (ℕ × ℕ) → List (ℕ × ℕ) → List (Str × Str)
iter_owned intern kind_id owned denied =
    filter_map
      (λ (p : ℕ × ℕ).
        if not (is_empty denied) && contains (kind_id, p.0) denied then none else resolve intern p)
      owned

abbrev collect : Map Str Str → List (Str × Str) → Map Str Str
collect props [] = props
collect props ((prop, value) ∷ pairs) = collect (insert prop value props) pairs

unfoldable pub omit_owned : List Str → ℕ → List (ℕ × ℕ) → List (ℕ × ℕ) → Map Str Str
unfolding iter_owned
omit_owned intern kind_id owned denied = collect [] (iter_owned intern kind_id owned denied)
