-- ===== src/Overlay/Merge.antt =====
-- What the merge of src/overlay.rs keeps, for plans under which one side wins everywhere.
pub mod Newest
use mikura.Common.{
  Bool, true, false, not, Option, none, some, List, [], ◌∷◌, ◌++◌, any, if◌then◌else◌, ◌||◌,
  Bool-cases, inl, inr, if-true, if-false,
}
use mikura.Common.{Result, ok, err, ◌>>=◌, ◌≡◌, refl, sym, ap, ◌∙◌}
use mikura.Common.Text.{Str, str_eq, str_lt}
use mikura.Common.Maps.{Map, get, insert, remove, str_key}
use mikura.Log.Body.{keys_of}
use mikura.Schema.{
  ConflictStrategy, user, newest, is_newest, ConflictPlan, strategy_for, uses_newest,
  uses_newest_on, time_property,
}
use mikura.Overlay.{
  Props, ConflictAudit, OverlayPatch, Merging, overlay_wins, merge_cleared, merge_prop,
  merge_all_cleared, merge_all_props, clear_all, set_all, apply, audit_of, overlay_newer,
  overlay_is_newer, merge_with, apply_with, same_value, recorded,
}
use mikura.Errors.{Error}

-- A loop that succeeds and leaves `props` as the merged row.
record Merges (out : Result Error Merging) (props : Props) : Type 0 where
  pub m' : Merging
  pub result : out ≡ ok m'
  pub leaves : m'.merged ≡ props

step_cleared :
    (newer : Option Bool) (s : ConflictStrategy) (b : Bool) (name : Str) (sv : Option Str)
    (m : Merging)
    → overlay_wins newer s ≡ ok b
    → Merges (merge_cleared newer s name sv m) (if b then remove name m.merged else m.merged)
unfolding merge_cleared
step_cleared newer s true name none m e = record {
  m' = record m { merged = remove name m.merged };
  result = rw e refl;
  leaves = refl;
}
step_cleared newer s true name (some v) m e = record {
  m' = record (recorded name s v m) { merged = remove name m.merged };
  result = rw e refl;
  leaves = refl;
}
step_cleared newer s false name none m e = record { m' = m; result = rw e refl; leaves = refl }
step_cleared newer s false name (some v) m e = record {
  m' = record m { strategies = m.strategies ++ ((name, s) ∷ []) };
  result = rw e refl;
  leaves = refl;
}

step_prop :
    (newer : Option Bool) (s : ConflictStrategy) (b : Bool) (name value : Str) (sv : Option Str)
    (m : Merging)
    → overlay_wins newer s ≡ ok b
    → Merges
        (merge_prop newer s name value sv m)
        (if b then insert name value m.merged else m.merged)
unfolding merge_prop
step_prop newer s true name value none m e = record {
  m' = record m { merged = insert name value m.merged };
  result = rw e refl;
  leaves = refl;
}
step_prop newer s true name value (some v) m e = record {
  m' = record (if str_eq v value then m else recorded name s v m) {
    merged = insert name value m.merged;
  };
  result = rw e refl;
  leaves = refl;
}
step_prop newer s false name value sv m e = elim (Bool-cases (same_value sv value)) [
  | inl same ↦ record { m' = m; result = rw e (ap ok (if-true _ same)); leaves = refl }
  | inr differ ↦ record {
    m' = recorded name s value m;
    result = rw e (ap ok (if-false _ differ));
    leaves = refl;
  }
]

-- A step, and the loop that goes on from what it leaves.
then-Merges :
    (out : Result Error Merging) (next : Merging → Result Error Merging) (old new : Props)
    → Merges out old
    → ((m : Merging) → m.merged ≡ old → Merges (next m) new)
    → Merges (out >>= next) new
then-Merges out next old new h k =
    let r = k h.m' h.leaves in
    record { m' = r.m'; result = ap (λ out. out >>= next) h.result ∙ r.result; leaves = r.leaves }

module _ (newer : Option Bool) (plan : ConflictPlan) (source : Props) where
  -- One side wins, whatever the name: the overlay, or the source.
  abbrev pub Side : Bool → Type 0
  Side b = (name : Str) → overlay_wins newer (strategy_for plan name) ≡ ok b

  at_merged :
      (b : Bool) (f : Props → Props) (m : Merging) (old : Props) (out : Result Error Merging)
      → m.merged ≡ old
      → Merges out (if b then f m.merged else m.merged)
      → Merges out (if b then f old else old)
  at_merged b f m old out e h = record {
    m' = h.m';
    result = h.result;
    leaves = h.leaves ∙ ap (λ p. if b then f p else p) e;
  }

  all_cleared :
      (b : Bool) (names : List Str) (m : Merging) (old : Props)
      → Side b
      → m.merged ≡ old
      → Merges
          (merge_all_cleared newer plan source names m)
          (if b then clear_all names old else old)
  unfolding merge_all_cleared clear_all
  all_cleared true [] m old side e = record { m' = m; result = refl; leaves = e }
  all_cleared false [] m old side e = record { m' = m; result = refl; leaves = e }
  all_cleared true (name ∷ names) m old side e =
      then-Merges (merge_cleared newer (strategy_for plan name) name (get name source) m)
        (merge_all_cleared newer plan source names) (remove name old)
        (clear_all names (remove name old))
        (at_merged true (remove name) m old _ e
          (step_cleared newer (strategy_for plan name) true name (get name source) m (side name)))
        (λ m e. all_cleared true names m (remove name old) side e)
  all_cleared false (name ∷ names) m old side e =
      then-Merges (merge_cleared newer (strategy_for plan name) name (get name source) m)
        (merge_all_cleared newer plan source names) old old
        (at_merged false (remove name) m old _ e
          (step_cleared newer (strategy_for plan name) false name (get name source) m (side name)))
        (λ m e. all_cleared false names m old side e)

  all_props :
      (b : Bool) (props : Props) (m : Merging) (old : Props)
      → Side b
      → m.merged ≡ old
      → Merges (merge_all_props newer plan source props m) (if b then set_all props old else old)
  unfolding merge_all_props set_all
  all_props true [] m old side e = record { m' = m; result = refl; leaves = e }
  all_props false [] m old side e = record { m' = m; result = refl; leaves = e }
  all_props true ((name, value) ∷ props) m old side e =
      then-Merges (merge_prop newer (strategy_for plan name) name value (get name source) m)
        (merge_all_props newer plan source props) (insert name value old)
        (set_all props (insert name value old))
        (at_merged true (insert name value) m old _ e (
          step_prop newer (strategy_for plan name) true name value (get name source) m (side name)))
        (λ m e. all_props true props m (insert name value old) side e)
  all_props false ((name, value) ∷ props) m old side e =
      then-Merges (merge_prop newer (strategy_for plan name) name value (get name source) m)
        (merge_all_props newer plan source props) old old
        (at_merged false (insert name value) m old _ e (
          step_prop newer (strategy_for plan name) false name value (get name source) m
            (side name)))
        (λ m e. all_props false props m old side e)

  whole :
      (b : Bool) (patch : OverlayPatch)
      → Side b
      → Merges
          (merge_all_cleared newer plan source patch.cleared
              (record { merged = source; strategies = []; lost = [] })
            >>= merge_all_props newer plan source patch.props)
          (if b then apply patch source else source)
  unfolding apply
  whole true patch side =
      then-Merges _ (merge_all_props newer plan source patch.props) (clear_all patch.cleared source)
        (apply patch source) (all_cleared true patch.cleared _ source side refl)
        (λ m e. all_props true patch.props m (clear_all patch.cleared source) side e)
  whole false patch side =
      then-Merges _ (merge_all_props newer plan source patch.props) source source
        (all_cleared false patch.cleared _ source side refl)
        (λ m e. all_props false patch.props m source side e)

module _ (canonicalize : Str → Result Error Str) where
  pub merge_with-Side :
      (patch : OverlayPatch) (plan : ConflictPlan) (source : Props) (newer : Option Bool) (b : Bool)
      → overlay_newer canonicalize patch plan source ≡ ok newer
      → Side newer plan source b
      → (audit : Option ConflictAudit) × (merge_with canonicalize patch plan source
          ≡ ok ((if b then apply patch source else source), audit))
  unfolding merge_with
  merge_with-Side patch plan source newer b e side =
      let h = whole newer plan source b patch side in
      (
        audit_of plan h.m',
        ap (λ o. o >>= rest) e
            ∙ chained (merge_all_cleared newer plan source patch.cleared start)
                (merge_all_props newer plan source patch.props)
            ∙ ap (λ o. o >>= finish) h.result
            ∙ ap (λ p. ok (p, audit_of plan h.m')) h.leaves,
      )
    where
      start : Merging
      start = record { merged = source; strategies = []; lost = [] }

      finish : Merging → Result Error (Props × Option ConflictAudit)
      finish m = ok (m.merged, audit_of plan m)

      rest : Option Bool → Result Error (Props × Option ConflictAudit)
      rest newer =
          merge_all_cleared newer plan source patch.cleared start
          >>= (λ m. merge_all_props newer plan source patch.props m >>= finish)

      chained :
          (r : Result Error Merging) (f : Merging → Result Error Merging)
          → (r >>= (λ m. f m >>= finish)) ≡ ((r >>= f) >>= finish)
      chained (ok m) f = refl
      chained (err e) f = refl

  abbrev any_newest : Map Str ConflictStrategy → Bool
  any_newest m = any (λ (p : Str × ConflictStrategy). is_newest p.1) m

  user_found :
      (name : Str) (d : ConflictStrategy) (m : Map Str ConflictStrategy)
      → is_newest d ≡ false
      → any_newest m ≡ false
      → is_newest (elim (get name m) [ none ↦ d | some s ↦ s ]) ≡ false
  unfolding get
  user_found name d [] e k = e
  user_found name d ((n, newest) ∷ m) e k = cc
  user_found name d ((n, user) ∷ m) e k = elim (Bool-cases (str_eq n name)) [
    | inl same ↦ rw same refl
    | inr differ ↦ rw differ (user_found name d m e k)
  ]

  -- No name takes the newest side where the plan names none.
  strategy_for-user :
      (plan : ConflictPlan) (name : Str)
      → uses_newest plan ≡ false
      → is_newest (strategy_for plan name) ≡ false
  unfolding uses_newest strategy_for
  strategy_for-user plan name e =
      user_found name plan.default plan.properties (parts plan.default e).0 (parts plan.default e).1
    where
      parts :
          (d : ConflictStrategy)
          → (is_newest d || any_newest plan.properties) ≡ false
          → (is_newest d ≡ false) × (any_newest plan.properties ≡ false)
      parts user e = (refl, e)
      parts newest e = cc

  overlay_newer-user :
      (patch : OverlayPatch) (plan : ConflictPlan) (source : Props)
      → uses_newest plan ≡ false
      → overlay_newer canonicalize patch plan source ≡ ok none
  unfolding overlay_newer uses_newest_on
  overlay_newer-user patch plan source e =
      if-false _ (nobody (keys_of patch.props ++ patch.cleared))
    where
      nobody : (names : List Str) → any (λ name. is_newest (strategy_for plan name)) names ≡ false
      nobody [] = refl
      nobody (name ∷ names) = rw (strategy_for-user plan name e) (nobody names)

  user-wins :
      (newer : Option Bool) (s : ConflictStrategy)
      → is_newest s ≡ false
      → overlay_wins newer s ≡ ok true
  user-wins newer user e = refl
  user-wins newer newest e = cc

  -- Under a plan in which no strategy is newest, the merge succeeds and its row is the source with
  -- the overlay applied, whether or not there is an audit.
  pub apply_with-user :
      (patch : OverlayPatch) (plan : ConflictPlan) (source : Props)
      → uses_newest plan ≡ false
      → (audit : Option ConflictAudit) × (apply_with canonicalize patch source (some plan)
          ≡ ok (apply patch source, audit))
  unfolding apply_with
  apply_with-user patch plan source old =
      elim (Bool-cases (plan.record_audit || uses_newest plan)) [
        | inl t ↦
            (let (audit, r) =
                merge_with-Side patch plan source none true
                  (overlay_newer-user patch plan source old)
                  (λ name.
                    user-wins none (strategy_for plan name) (strategy_for-user plan name old)) in
              (audit, if-true _ t ∙ r))
        | inr f ↦ (none, if-false _ f)
      ]
