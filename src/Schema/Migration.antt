-- ===== src/Schema/Migration.antt =====
-- `SchemaMigration` of src/schema.rs on the properties of an instance, forth and back.
use mikura.Common.{
  ◌≡◌, refl, ap, ◌∙◌, arith, Bool, true, false, Option, none, some, List, [], ◌∷◌, All,
  if◌then◌else◌, Result, ok, err, ◌>>=◌, Bool-cases, if-true, if-false, inl, inr,
}
use mikura.Common.Text.{Str, str_eq, str_eq_iff}
use mikura.Common.Maps.{
  get, insert, remove, contains_key, get-insert, get-remove, get-contains_key, str_key,
}
use mikura.Errors.{Error, cast_failed}
use mikura.Record.{Props}
use mikura.Schema.{rename_value, rename_one, apply_renames, restore_value, undo_one, undo_renames}
use mikura.Schema.Descriptor.{SchemaMigration}
use mikura.Value.Geo.{Floats}
use mikura.Value.Forms.{canonicalize_write}
use mikura.Value.Types.{PropertyType}

module _ (f : Floats) where
  -- One recast: the properties, and whether one has failed.
  unfoldable pub recast : Str → PropertyType → Option Str → Props × Bool → Props × Bool
  unfolding canonicalize_write
  recast name type none (props, failed) = (props, failed)
  recast name type (some value) (props, failed) = elim (canonicalize_write f type value) [
    | ok canonical ↦ (insert name canonical props, failed)
    | err e ↦ (props, true)
  ]

  unfoldable pub recast_all : List (Str × PropertyType) → Props × Bool → Props × Bool
  unfolding recast
  recast_all [] state = state
  recast_all ((name, type) ∷ cast) state =
      recast_all cast (recast name type (get name state.0) state)

  unfoldable pub drop_all : List Str → Props → Props
  drop_all [] props = props
  drop_all (name ∷ names) props = drop_all names (remove name props)

  unfoldable pub apply : SchemaMigration → Props → Bool → Result Error Props
  unfolding apply_renames recast_all drop_all
  apply m props drop_keys = do
    props ← apply_renames m.rename props
    (if (recast_all m.cast (props, false)).1
        then err cast_failed
        else ok (
            if drop_keys
            then drop_all m.drop (recast_all m.cast (props, false)).0
            else (recast_all m.cast (props, false)).0))

unfoldable pub reverse : SchemaMigration → Props → Props
unfolding undo_renames
reverse m props = undo_renames m.rename props

-- New names that are on no property yet, each once.
abbrev pub Free : List (Str × Str) → Props → Type 0
Free rename props = All (λ (p : Str × Str). get p.1 props ≡ none) rename

abbrev pub Apart : List (Str × Str) → Type 0
Apart [] = Unit {0}
Apart ((old, new) ∷ rename) = All (λ (p : Str × Str). str_eq new p.1 ≡ false) rename × Apart rename

-- One rename that finds its property.
Free-moved :
    (old new value : Str) (rename : List (Str × Str)) (props : Props)
    → All (λ (p : Str × Str). str_eq new p.1 ≡ false) rename
    → Free rename props
    → Free rename (insert new value (remove old props))
Free-moved old new value [] props a h = tt
Free-moved old new value ((o, n) ∷ rename) props (apart, a) (h, hs) = (
  ground (arith, get-insert new n value (remove old props), get-remove old n props),
  Free-moved old new value rename props a hs,
)

-- What `reverse` gives back agrees with what was there at every key.
pub record Undone (rename : List (Str × Str)) (props : Props) : Type 0 where
  pub renamed : Props
  pub done : apply_renames rename props ≡ ok renamed
  pub back : (k : Str) → get k (undo_renames rename renamed) ≡ get k props

-- One rename, and what undoes it.
record Step (old new : Str) (rename : List (Str × Str)) (props : Props) : Type 0 where
  moved : Props
  step : rename_one old new props ≡ ok moved
  free : Free rename moved
  undo :
      (later : Props)
      → ((k : Str) → get k later ≡ get k moved)
      → (k : Str) → get k (undo_one old new later) ≡ get k props

step_value :
    (old new : Str) (rename : List (Str × Str)) (props : Props) (v : Option Str)
    → get old props ≡ v
    → str_eq old new ≡ false
    → get new props ≡ none
    → Free rename props
    → All (λ (p : Str × Str). str_eq new p.1 ≡ false) rename
    → Step old new rename props
unfolding rename_one undo_one rename_value restore_value
step_value old new rename props none e other h hs apart = record {
  moved = props;
  step = if-false _ other ∙ ap (λ w. rename_value old new w props) e;
  free = hs;
  undo = λ later same k.
      ap (get k) (if-false _ other ∙ ap (λ w. restore_value old new w later) (same new ∙ h))
      ∙ same k;
}
step_value old new rename props (some value) e other h hs apart =
    let absent : contains_key new (remove old props) ≡ false =
      get-contains_key new (remove old props) (ground (arith, get-remove old new props)) in
    record {
      moved = insert new value (remove old props);
      step = if-false _ other ∙ ap (λ w. rename_value old new w props) e ∙ if-false _ absent;
      free = Free-moved old new value rename props apart hs;
      undo = λ later same k.
          let found : get new later ≡ some value =
            same new
            ∙ ground (arith, get-insert new new value (remove old props), str_eq_iff new new) in
          ap (get k) (if-false _ other ∙ ap (λ w. restore_value old new w later) found)
          ∙ ground (
            arith,
            get-insert old k value (remove new later),
            get-remove new k later,
            same k,
            get-insert new k value (remove old props),
            get-remove old k props,
            str_eq_iff old k,
            str_eq_iff new k,
            h,
            e,
          );
    }

take_step :
    (old new : Str) (rename : List (Str × Str)) (props : Props)
    → get new props ≡ none
    → Free rename props
    → All (λ (p : Str × Str). str_eq new p.1 ≡ false) rename
    → Step old new rename props
unfolding rename_one undo_one
take_step old new rename props h hs apart = elim (Bool-cases (str_eq old new)) [
  | inl same ↦ record {
    moved = props;
    step = if-true _ same;
    free = hs;
    undo = λ later agree k. ap (get k) (if-true _ same) ∙ agree k;
  }
  | inr other ↦ step_value old new rename props (get old props) refl other h hs apart
]

-- Renames to names that no property has yet succeed, whatever the order, and reversing them gives every
-- property its value back.
pub undo_renames-apply_renames :
    (rename : List (Str × Str)) (props : Props)
    → Free rename props
    → Apart rename
    → Undone rename props
unfolding apply_renames undo_renames
undo_renames-apply_renames [] props h a = record { renamed = props; done = refl; back = λ k. refl }
undo_renames-apply_renames ((old, new) ∷ rename) props (h, hs) (apart, a) =
    let s = take_step old new rename props h hs apart in
    let later = undo_renames-apply_renames rename s.moved s.free a in
    record {
      renamed = later.renamed;
      done = ap (λ r. r >>= apply_renames rename) s.step ∙ later.done;
      back = s.undo (undo_renames rename later.renamed) later.back;
    }
