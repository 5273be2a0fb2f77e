-- ===== src/Overlay.antt =====
-- src/overlay.rs: a source row merged with the overlay of its identity.
-- The canonical form of a timestamp (src/value.rs) is an argument of the merge.
pub mod Merge
pub mod Rows
use mikura.Common.{
  Bool, true, false, not, Option, none, some, List, [], ◌∷◌, ◌++◌, sort_by, if◌then◌else◌, ◌&&◌,
  ◌||◌,
}
use mikura.Common.{Result, ok, err, ok_or, ◌>>=◌}
use mikura.Common.Text.{Str, str_eq, str_lt}
use mikura.Common.Maps.{Map, get, insert, remove, str_key}
use mikura.Log.Body.{is_empty, keys_of}
use mikura.Schema.{
  ConflictStrategy, user, newest, ConflictPlan, strategy_for, uses_newest, uses_newest_on,
  time_property,
}
use mikura.Errors.{Error, needs_timestamps, needs_overlay_at, needs_source_timestamp}

abbrev pub Props : Type 0
Props = Map Str Str

pub record ConflictAudit : Type 0 where
  pub strategies : List (Str × ConflictStrategy)
  pub lost : Props

pub record OverlayPatch : Type 0 where
  pub namespace : Str
  pub kind : Str
  pub key : Str
  pub props : Props
  pub cleared : List Str
  pub action_id : Option Str
  pub at : Option Str

-- The two loops of `apply`.
unfoldable pub clear_all : List Str → Props → Props
clear_all [] source = source
clear_all (name ∷ names) source = clear_all names (remove name source)

unfoldable pub set_all : Props → Props → Props
set_all [] source = source
set_all ((name, value) ∷ props) source = set_all props (insert name value source)

unfoldable pub apply : OverlayPatch → Props → Props
unfolding clear_all set_all
apply patch source = set_all patch.props (clear_all patch.cleared source)

-- What the loops of `apply_with` have made so far.
pub record Merging : Type 0 where
  pub merged : Props
  pub strategies : List (Str × ConflictStrategy)
  pub lost : Props

abbrev pub overlay_wins : Option Bool → ConflictStrategy → Result Error Bool
overlay_wins newer user = ok true
overlay_wins newer newest = ok_or newer needs_timestamps

abbrev pub recorded : Str → ConflictStrategy → Str → Merging → Merging
recorded name strategy value m = record m {
  strategies = m.strategies ++ ((name, strategy) ∷ []);
  lost = insert name value m.lost;
}

-- One cleared name.
unfoldable pub merge_cleared :
    Option Bool → ConflictStrategy → Str → Option Str → Merging → Result Error Merging
merge_cleared newer strategy name source_value m = do
  wins ← overlay_wins newer strategy
  ok (
      if wins
      then elim source_value [
        | none ↦ record m { merged = remove name m.merged }
        | some value ↦ record (recorded name strategy value m) { merged = remove name m.merged }
      ]
      else elim source_value [
        | none ↦ m
        | some value ↦ record m { strategies = m.strategies ++ ((name, strategy) ∷ []) }
      ])

abbrev pub same_value : Option Str → Str → Bool
same_value none overlay_value = false
same_value (some value) overlay_value = str_eq value overlay_value

-- One property of the overlay.
unfoldable pub merge_prop :
    Option Bool → ConflictStrategy → Str → Str → Option Str → Merging → Result Error Merging
merge_prop newer strategy name overlay_value source_value m = do
  wins ← overlay_wins newer strategy
  ok (
      if wins
      then elim source_value [
        | none ↦ record m { merged = insert name overlay_value m.merged }
        | some value ↦
            record (if str_eq value overlay_value then m else recorded name strategy value m) {
              merged = insert name overlay_value m.merged;
            }
      ]
      else if same_value source_value overlay_value
      then m
      else recorded name strategy overlay_value m)

unfoldable pub merge_all_cleared :
    Option Bool → ConflictPlan → Props → List Str → Merging → Result Error Merging
unfolding merge_cleared
merge_all_cleared newer plan source [] m = ok m
merge_all_cleared newer plan source (name ∷ names) m = do
  m ← merge_cleared newer (strategy_for plan name) name (get name source) m
  merge_all_cleared newer plan source names m

unfoldable pub merge_all_props :
    Option Bool → ConflictPlan → Props → Props → Merging → Result Error Merging
unfolding merge_prop
merge_all_props newer plan source [] m = ok m
merge_all_props newer plan source ((name, value) ∷ props) m = do
  m ← merge_prop newer (strategy_for plan name) name value (get name source) m
  merge_all_props newer plan source props m

-- The audit of a merge, where the plan wants one and there is anything to record.
abbrev pub audit_of : ConflictPlan → Merging → Option ConflictAudit
audit_of plan m =
    let strategies = sort_by (λ (p q : Str × ConflictStrategy). str_lt p.0 q.0) m.strategies in
    if plan.record_audit && not (is_empty strategies)
    then some (record { strategies = strategies; lost = m.lost })
    else none

module _ (canonicalize : Str → Result Error Str) where
  unfoldable pub overlay_is_newer : OverlayPatch → Option Str → Result Error Bool
  overlay_is_newer patch source_at = do
    overlay_at ← ok_or patch.at needs_overlay_at
    source_at ← ok_or source_at needs_source_timestamp
    overlay_ts ← canonicalize overlay_at
    source_ts ← canonicalize source_at
    ok (not (str_lt overlay_ts source_ts))

  -- The comparison of the timestamps, where a name of the overlay needs it.
  unfoldable pub overlay_newer : OverlayPatch → ConflictPlan → Props → Result Error (Option Bool)
  unfolding overlay_is_newer uses_newest_on time_property
  overlay_newer patch plan source =
      if uses_newest_on plan (keys_of patch.props ++ patch.cleared)
      then (do
        name ← time_property plan
        newer ← overlay_is_newer patch (get name source)
        ok (some newer))
      else ok none

  unfoldable pub merge_with :
      OverlayPatch → ConflictPlan → Props → Result Error (Props × Option ConflictAudit)
  unfolding overlay_newer merge_all_cleared merge_all_props
  merge_with patch plan source = do
    newer ← overlay_newer patch plan source
    m ←
        merge_all_cleared newer plan source patch.cleared
          (record { merged = source; strategies = []; lost = [] })
    m ← merge_all_props newer plan source patch.props m
    ok (m.merged, audit_of plan m)

  unfoldable pub apply_with :
      OverlayPatch → Props → Option ConflictPlan → Result Error (Props × Option ConflictAudit)
  unfolding merge_with apply uses_newest
  apply_with patch source none = ok (apply patch source, none)
  apply_with patch source (some plan) =
      if plan.record_audit || uses_newest plan
      then merge_with patch plan source
      else ok (apply patch source, none)
