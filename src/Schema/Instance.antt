-- ===== src/Schema/Instance.antt =====
-- A descriptor of src/schema.rs on the instances of its kind: their check, and the canonical form of
-- their values.
use mikura.Common.{
  ◌≡◌, refl, ap, subst, ◌∙◌, Bool, true, false, not, ◌||◌, Option, none, some, List, [], ◌∷◌,
  Result, ok, ◌>>=◌, ◌>>◌, guard, >>=-eq-ok, ok-eq,
}
use mikura.Common.Text.{Str, str_eq, contains_str}
use mikura.Common.Maps.{get, contains_key, str_key}
use mikura.Errors.{Error, kind_mismatch, property_unknown, property_missing, link_empty}
use mikura.Record.{Props, ObjectRecord}
use mikura.Schema.Descriptor.{SchemaLink, SchemaDescriptor, property_type}
use mikura.Schema.Check.{check}
use mikura.Schema.Check.Declared.{unit-ok, guard-ok}
use mikura.Value.Geo.{Floats}
use mikura.Value.Types.{PropertyType}
use mikura.Value.Forms.{parse_canonical, canonicalize_write}
use mikura.Value.Forms.Stable.{canonicalize_write-IsStored}

unfoldable pub check_known : List Str → Props → Result Error (Unit {0})
check_known properties [] = ok tt
check_known properties ((name, value) ∷ props) =
    guard (contains_str name properties) property_unknown >> check_known properties props

unfoldable pub check_required : List Str → Props → Result Error (Unit {0})
unfolding contains_key
check_required [] props = ok tt
check_required (name ∷ names) props =
    guard (contains_key name props) property_missing >> check_required names props

abbrev pub link_ok : Option Str → Bool
link_ok none = true
link_ok (some []) = false
link_ok (some (c ∷ s)) = true

unfoldable pub check_outgoing : List SchemaLink → Props → Result Error (Unit {0})
unfolding get
check_outgoing [] props = ok tt
check_outgoing (link ∷ links) props =
    guard (not link.outgoing || link_ok (get link.name props)) link_empty
    >> check_outgoing links props

module _ (f : Floats) (d : SchemaDescriptor) where
  abbrev pub check_value : Option PropertyType → Str → Result Error (Unit {0})
  unfolding parse_canonical
  check_value none value = ok tt
  check_value (some type) value = parse_canonical f type value >>= λ read. ok tt

  unfoldable pub check_values : Props → Result Error (Unit {0})
  unfolding property_type check_value
  check_values [] = ok tt
  check_values ((name, value) ∷ props) =
      check_value (property_type d name) value >> check_values props

  unfoldable pub validate : ObjectRecord → Result Error (Unit {0})
  unfolding check check_known check_required check_outgoing check_values
  validate r = do
    check d
    guard (str_eq r.kind d.kind) kind_mismatch
    check_known d.properties r.props
    check_required d.required r.props
    check_outgoing d.links r.props
    check_values r.props

  abbrev pub canonical_value : Option PropertyType → Str → Result Error Str
  unfolding canonicalize_write
  canonical_value none value = ok value
  canonical_value (some type) value = canonicalize_write f type value

  unfoldable pub canonical_values : Props → Result Error Props
  unfolding property_type canonical_value
  canonical_values [] = ok []
  canonical_values ((name, value) ∷ props) = do
    value ← canonical_value (property_type d name) value
    props ← canonical_values props
    ok ((name, value) ∷ props)

  unfoldable pub canonicalize_instance : ObjectRecord → Result Error ObjectRecord
  unfolding check canonical_values
  canonicalize_instance r = do
    check d
    guard (str_eq r.kind d.kind) kind_mismatch
    props ← canonical_values r.props
    ok (record r { props = props })

  canonical_value-stable :
      (type : Option PropertyType) (value stored : Str)
      → canonical_value type value ≡ ok stored
      → (canonical_value type stored ≡ ok stored) × (check_value type stored ≡ ok tt)
  unfolding canonical_value check_value
  canonical_value-stable none value stored e = (refl, refl)
  canonical_value-stable (some type) value stored e =
      let s = canonicalize_write-IsStored f type value stored e in
      (s.again, ap (λ r. r >>= λ read. ok tt) s.read)

  canonical_values-stable :
      (props stored : Props)
      → canonical_values props ≡ ok stored
      → (canonical_values stored ≡ ok stored) × (check_values stored ≡ ok tt)
  unfolding canonical_values check_values
  canonical_values-stable [] stored e =
      subst (λ s. (canonical_values s ≡ ok s) × (check_values s ≡ ok tt)) (ok-eq _ _ e) (refl, refl)
  canonical_values-stable ((name, value) ∷ props) stored e =
      let (v, first, rest) = >>=-eq-ok (canonical_value (property_type d name) value) _ e in
      let (ps, others, last) = >>=-eq-ok (canonical_values props) _ rest in
      let (one, one_checked) = canonical_value-stable (property_type d name) value v first in
      let (all, all_checked) = canonical_values-stable props ps others in
      subst (λ s. (canonical_values s ≡ ok s) × (check_values s ≡ ok tt)) (ok-eq _ _ last)
        (
          ap (λ r. r >>= λ w. canonical_values ps >>= λ rest. ok ((name, w) ∷ rest)) one
              ∙ ap (λ r. r >>= λ rest. ok ((name, v) ∷ rest)) all,
          ap (λ r. r >> check_values ps) one_checked ∙ all_checked,
        )

  -- The steps behind one another, each of which succeeds.
  stored_of :
      (r : ObjectRecord) (checked : Result Error (Unit {0})) (same_kind : Bool)
      (values : Result Error Props) (props : Props)
      → checked ≡ ok tt
      → same_kind ≡ true
      → values ≡ ok props
      → (checked
          >> (guard same_kind kind_mismatch >> (values >>= λ ps. ok (record r { props = ps }))))
        ≡ ok (record r { props = props })
  stored_of r checked same_kind values props p q s = rw (p, q, s) refl

  -- An instance that was put in canonical form is left as it is by a second time, and its typed
  -- values pass the check of values.
  pub canonicalize_instance-stable :
      (r stored : ObjectRecord)
      → canonicalize_instance r ≡ ok stored
      → (canonicalize_instance stored ≡ ok stored) × (check_values stored.props ≡ ok tt)
  unfolding canonicalize_instance
  canonicalize_instance-stable r stored e =
      let (checked, rest) = unit-ok (check d) _ e in
      let (same_kind, rest) = guard-ok (str_eq r.kind d.kind) kind_mismatch _ rest in
      let (props, values, last) = >>=-eq-ok (canonical_values r.props) _ rest in
      let (again, types) = canonical_values-stable r.props props values in
      subst (λ s. (canonicalize_instance s ≡ ok s) × (check_values s.props ≡ ok tt))
        (ok-eq _ _ last)
        (
          stored_of (record r { props = props }) (check d) (str_eq r.kind d.kind)
              (canonical_values props) props checked same_kind again,
          types,
        )
