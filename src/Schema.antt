-- ===== src/Schema.antt =====
-- src/schema.rs: how an overlay and a source combine, and the renames of a migration. The children have
-- the descriptors of kinds, their checks, the records that they are and what replaces what.
pub mod Descriptor
pub mod Check
pub mod Migration
pub mod Instance
pub mod Replace
pub mod Rows
use mikura.Common.{
  Bool, true, false, Option, none, some, List, [], ◌∷◌, any, if◌then◌else◌, ◌||◌, Result, ok, err,
  ok_or, ◌>>=◌,
}
use mikura.Common.Text.{Str, str_eq, ascii}
use mikura.Common.Maps.{Map, get, insert, remove, contains_key, str_key}
use mikura.Errors.{Error, needs_conflict_time, rename_collides, strategy_unknown}

pub data ConflictStrategy : Type 0 where
  user newest : ConflictStrategy

unfoldable pub token : ConflictStrategy → Str
token user = ascii "user"
token newest = ascii "newest"

unfoldable pub from_token : Str → Result Error ConflictStrategy
from_token token =
    if str_eq token (ascii "user")
    then ok user
    else if str_eq token (ascii "newest")
    then ok newest
    else err strategy_unknown

abbrev pub is_newest : ConflictStrategy → Bool
is_newest user = false
is_newest newest = true

pub record ConflictPlan : Type 0 where
  pub default : ConflictStrategy
  pub properties : Map Str ConflictStrategy
  pub time_property : Option Str
  pub record_audit : Bool

unfoldable pub strategy_for : ConflictPlan → Str → ConflictStrategy
strategy_for plan name = elim (get name plan.properties) [
  | none ↦ plan.default
  | some strategy ↦ strategy
]

unfoldable pub uses_newest : ConflictPlan → Bool
uses_newest plan =
    is_newest plan.default || any (λ (p : Str × ConflictStrategy). is_newest p.1) plan.properties

unfoldable pub uses_newest_on : ConflictPlan → List Str → Bool
unfolding strategy_for
uses_newest_on plan names = any (λ name. is_newest (strategy_for plan name)) names

unfoldable pub time_property : ConflictPlan → Result Error Str
time_property plan = ok_or plan.time_property needs_conflict_time

-- The renames of `SchemaMigration`, each an old and a new name. What was renamed before a collision
-- stays so in the source's map, which its callers drop with the error.
unfoldable pub rename_value : Str → Str → Option Str → Map Str Str → Result Error (Map Str Str)
rename_value old new none props = ok props
rename_value old new (some value) props =
    if contains_key new (remove old props)
    then err rename_collides
    else ok (insert new value (remove old props))

unfoldable pub rename_one : Str → Str → Map Str Str → Result Error (Map Str Str)
unfolding rename_value
rename_one old new props =
    if str_eq old new then ok props else rename_value old new (get old props) props

unfoldable pub apply_renames : List (Str × Str) → Map Str Str → Result Error (Map Str Str)
unfolding rename_one
apply_renames [] props = ok props
apply_renames ((old, new) ∷ rename) props = do
  props ← rename_one old new props
  apply_renames rename props

-- The loop of `reverse`, over the renames from the last to the first.
unfoldable pub restore_value : Str → Str → Option Str → Map Str Str → Map Str Str
restore_value old new none props = props
restore_value old new (some value) props = insert old value (remove new props)

unfoldable pub undo_one : Str → Str → Map Str Str → Map Str Str
unfolding restore_value
undo_one old new props =
    if str_eq old new then props else restore_value old new (get new props) props

unfoldable pub undo_renames : List (Str × Str) → Map Str Str → Map Str Str
unfolding undo_one
undo_renames [] props = props
undo_renames ((old, new) ∷ rename) props = undo_one old new (undo_renames rename props)
