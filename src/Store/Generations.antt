-- ===== src/Store/Generations.antt =====
-- Generations in src/store/mod.rs: every write of an identity makes its generation grow.
use mikura.Common.{
  ℕ, ◌+◌, ◌^◌, ◌≤◌, ◌<◌, ◌≡◌, refl, sym, ap, subst, ◌∙◌, arith, Bool, true, false, Option, none,
  some, [], ◌∷◌, if◌then◌else◌, Result, ok, err, Bool-cases, inl, inr, if-true, if-false,
}
use mikura.Common.Text.{Str}
use mikura.Common.Maps.{Map, get, get-insert}
use mikura.Errors.{Error, expected_gen_mismatch}
use mikura.Record.{Props, ObjectRecord}
use mikura.Schema.Descriptor
use mikura.Schema.Migration
use mikura.Schema.Descriptor.{SchemaDescriptor}
use mikura.Value.Geo.{Floats}
use mikura.Store.{
  Identity, identity_eq, identity_eq_iff, identity_key, Row, View, find_live, install_live,
  gen_matches, require_expected_gen, gen_for, assign_gen, remember_action,
}
use mikura.Store.Schemas.{
  remember_schema, kept, or_insert_all, remapped, in_kind, remap_row, remap_rows, remap_kind,
  described, remember_described, remap_described, know_namespace, row_of, apply_record,
}

abbrev pub gen_of : Option Row → ℕ
gen_of none = 0
gen_of (some row) = row.gen

module _ (f : Floats) where
  remapped-gen :
      (previous : Option SchemaDescriptor) (d : SchemaDescriptor) (row : Row)
      (r : Result Error Props)
      → (remapped f previous d row r).gen ≡ row.gen
  unfolding remapped or_insert_all
  remapped-gen previous d row (err e) = refl
  remapped-gen previous d row (ok props) = refl

  remap_row-gen :
      (previous : Option SchemaDescriptor) (d : SchemaDescriptor) (row : Row)
      → (remap_row f previous d row).gen ≡ row.gen
  unfolding remap_row
  remap_row-gen previous d row =
      remapped-gen previous d row (Migration.apply f d.migration (kept previous d row.props) false)

  remap_rows-gen :
      (namespace : Str) (previous : Option SchemaDescriptor) (d : SchemaDescriptor) (id : Identity)
      (rows : Map Identity Row)
      → gen_of (get id (remap_rows f namespace previous d rows)) ≡ gen_of (get id rows)
  unfolding remap_rows get
  remap_rows-gen namespace previous d id [] = refl
  remap_rows-gen namespace previous d id ((other, row) ∷ rows) =
      first (identity_eq other id) (in_kind f namespace d other)
        (remap_rows-gen namespace previous d id rows)
    where
      first :
          (same in_it : Bool)
          → gen_of (get id (remap_rows f namespace previous d rows)) ≡ gen_of (get id rows)
          → gen_of (
              if same
              then some (if in_it then remap_row f previous d row else row)
              else get id (remap_rows f namespace previous d rows))
            ≡ gen_of (if same then some row else get id rows)
      first true true later = remap_row-gen previous d row
      first true false later = refl
      first false in_it later = later

  remap_described-gen :
      (namespace : Str) (d : Option SchemaDescriptor) (v : View) (id : Identity)
      → gen_of (get id (remap_described f namespace d v).identity) ≡ gen_of (get id v.identity)
  unfolding remap_described remap_kind Descriptor.is_empty
  remap_described-gen namespace none v id = refl
  remap_described-gen namespace (some d) v id =
      elim (Bool-cases (Descriptor.is_empty d.migration)) [
        | inl e ↦ ap (λ (w : View). gen_of (get id w.identity)) (if-true _ e)
        | inr e ↦
            ap (λ (w : View). gen_of (get id w.identity)) (if-false _ e)
            ∙ remap_rows-gen namespace _ d id v.identity
      ]

  remember_described-identity :
      (namespace : Str) (d : Option SchemaDescriptor) (v : View)
      → (remember_described f namespace d v).identity ≡ v.identity
  unfolding remember_described remember_schema
  remember_described-identity namespace none v = refl
  remember_described-identity namespace (some d) v = refl

  -- A record that becomes live gives its identity its generation, and leaves all others theirs.
  apply_record-gen :
      (r : ObjectRecord) (v : View) (id : Identity)
      → gen_of (get id (apply_record f r v).identity) ≡ (
          if identity_eq (r.namespace, r.kind, r.key) id then r.gen else gen_of (get id v.identity))
  unfolding apply_record install_live know_namespace
  apply_record-gen r v id =
      remap_described-gen r.namespace (described f r) _ id
      ∙ ap gen_of (get-insert (r.namespace, r.kind, r.key) id (row_of f r) _)
      ∙ own (identity_eq (r.namespace, r.kind, r.key) id)
    where
      own :
          (same : Bool)
          → gen_of (
              if same
              then some (row_of f r)
              else get id
                  (remember_described f r.namespace
                    (described f r)
                    (record v { action_commits = remember_action r v.action_commits })).identity)
            ≡ (if same then r.gen else gen_of (get id v.identity))
      own true = refl
      own false =
          ap (λ m. gen_of (get id m)) (remember_described-identity r.namespace (described f r) _)

  -- A record with the next generation of its identity becomes live, as every write ends.
  abbrev pub written : ObjectRecord → View → View
  unfolding apply_record assign_gen
  written r v = apply_record f (assign_gen r v) v

  -- Writes of identities whose generation has room in a u64.
  pub data Writes (v : View) : View → Type 0 where
    none_yet : Writes v v
    then_write :
        {w : View} (r : ObjectRecord)
        → Writes v w
        → gen_of (find_live r.namespace r.kind r.key w) + 2 < 2 ^ 64
        → Writes v (written r w)

  written-gen :
      (r : ObjectRecord) (v : View)
      → gen_of (get (r.namespace, r.kind, r.key) (written r v).identity)
        ≡ gen_for (find_live r.namespace r.kind r.key v) r.gen
  unfolding written assign_gen
  written-gen r v =
      apply_record-gen (assign_gen r v) v (r.namespace, r.kind, r.key)
      ∙ if-true _
          ((identity_eq_iff (r.namespace, r.kind, r.key) (r.namespace, r.kind, r.key)).1 refl)

  gen_for-grows :
      (row : Option Row) (gen : ℕ) → gen_of row + 2 < 2 ^ 64 → gen_of row < gen_for row gen
  gen_for-grows none gen h = ground arith
  gen_for-grows (some row) gen h = ground arith

  -- Where the generation of its identity has room in 64 bits, a record that is given its generation
  -- and becomes live makes that generation grow; and a write that then still expects the old one is
  -- refused.
  pub written-grows :
      (r : ObjectRecord) (v : View)
      → gen_of (find_live r.namespace r.kind r.key v) + 2 < 2 ^ 64
      → (gen_of (find_live r.namespace r.kind r.key v)
          < gen_of (find_live r.namespace r.kind r.key (written r v)))
        × (require_expected_gen r.namespace r.kind r.key
              (some (gen_of (find_live r.namespace r.kind r.key v)))
              (written r v)
            ≡ err expected_gen_mismatch)
  unfolding find_live require_expected_gen
  written-grows r v room =
      let grows : gen_of (get (r.namespace, r.kind, r.key) v.identity)
          < gen_of (get (r.namespace, r.kind, r.key) (written r v).identity) =
        subst (λ n. gen_of (get (r.namespace, r.kind, r.key) v.identity) < n)
          (sym (written-gen r v))
          (gen_for-grows (get (r.namespace, r.kind, r.key) v.identity) r.gen room) in
      (grows, if-false _ (stale (get (r.namespace, r.kind, r.key) (written r v).identity) _ grows))
    where
      stale : (row : Option Row) (old : ℕ) → old < gen_of row → gen_matches old row ≡ false
      stale none old h = absurd (omega arith)
      stale (some row) old h = ground arith

  written-le :
      (r : ObjectRecord) (v : View) (id : Identity)
      → gen_of (find_live r.namespace r.kind r.key v) + 2 < 2 ^ 64
      → gen_of (get id v.identity) ≤ gen_of (get id (written r v).identity)
  unfolding written assign_gen find_live
  written-le r v id room = elim (Bool-cases (identity_eq (r.namespace, r.kind, r.key) id)) [
    | inl same ↦
        let own = (identity_eq_iff (r.namespace, r.kind, r.key) id).0 same in
        subst (λ k. gen_of (get k v.identity) ≤ gen_of (get k (written r v).identity)) own
          (own_le (written-grows r v room).0)
    | inr other ↦ omega (arith, apply_record-gen (assign_gen r v) v id ∙ if-false _ other)
  ]
    where
      own_le :
          gen_of (find_live r.namespace r.kind r.key v)
            < gen_of (find_live r.namespace r.kind r.key (written r v))
          → gen_of (get (r.namespace, r.kind, r.key) v.identity)
            ≤ gen_of (get (r.namespace, r.kind, r.key) (written r v).identity)
      own_le h = omega arith

  -- Over any sequence of writes with room in 64 bits, whatever is written and whatever descriptors
  -- migrate rows, the generation of no identity falls.
  pub Writes-le :
      (v w : View) (id : Identity)
      → Writes v w
      → gen_of (get id v.identity) ≤ gen_of (get id w.identity)
  Writes-le v w id none_yet = omega arith
  Writes-le v _ id (then_write {w} r before room) =
      omega (arith, Writes-le v w id before, written-le r w id room)
