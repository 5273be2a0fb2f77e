-- ===== src/Overlay/Merge/Newest.antt =====
-- The merge of src/overlay.rs under a plan by which the newer of two rows wins everywhere.
use mikura.Common.{
  Bool, true, false, not, Option, none, some, List, [], ◌∷◌, ◌++◌, if◌then◌else◌, ◌||◌, Bool-cases,
  inl, inr, if-true, if-false,
}
use mikura.Common.{Result, ok, ◌≡◌, refl, sym, ap, ◌∙◌}
use mikura.Common.Text.{Str, str_lt}
use mikura.Common.Maps.{get, str_key}
use mikura.Log.Body.{keys_of}
use mikura.Schema.{newest, ConflictPlan, strategy_for, uses_newest, uses_newest_on, time_property}
use mikura.Overlay.{
  Props, ConflictAudit, OverlayPatch, overlay_wins, merge_all_cleared, merge_all_props, clear_all,
  set_all, apply, audit_of, overlay_newer, overlay_is_newer, merge_with, apply_with,
}
use mikura.Errors.{Error}
use mikura.Overlay.Merge.{Side, merge_with-Side}

module _ (canonicalize : Str → Result Error Str) where
  apply_with-compared :
      (patch : OverlayPatch) (plan : ConflictPlan) (source : Props) (b : Bool)
      → plan.default ≡ newest
      → plan.properties ≡ []
      → overlay_newer canonicalize patch plan source ≡ ok (some b)
      → (audit : Option ConflictAudit) × (apply_with canonicalize patch source (some plan)
          ≡ ok ((if b then apply patch source else source), audit))
  unfolding apply_with uses_newest strategy_for get
  apply_with-compared patch plan source b d p e =
      let (audit, r) = merge_with-Side canonicalize patch plan source (some b) b e side in
      (audit, if-true _ audited ∙ r)
    where
      takes : (name : Str) → strategy_for plan name ≡ newest
      takes name = rw p d

      side : Side (some b) plan source b
      side name = ap (overlay_wins (some b)) (takes name)

      or-true : (c : Bool) → (c || true) ≡ true
      or-true true = refl
      or-true false = refl

      audited : (plan.record_audit || uses_newest plan) ≡ true
      audited = rw d (or-true plan.record_audit)

  -- An overlay that names no property leaves the source as it is.
  apply_with-empty :
      (patch : OverlayPatch) (plan : ConflictPlan) (source : Props)
      → patch.props ≡ []
      → patch.cleared ≡ []
      → (audit : Option ConflictAudit) × (apply_with canonicalize patch source (some plan)
          ≡ ok (source, audit))
        × (apply patch source ≡ source)
  unfolding apply_with merge_with overlay_newer uses_newest_on merge_all_cleared merge_all_props
      apply clear_all set_all
  apply_with-empty patch plan source p q =
      elim (Bool-cases (plan.record_audit || uses_newest plan)) [
        | inl t ↦ (
          audit_of plan (record { merged = source; strategies = []; lost = [] }),
          if-true _ t ∙ rw p (rw q refl),
          rw p (rw q refl),
        )
        | inr f ↦ (none, if-false _ f ∙ rw p (rw q refl), rw p (rw q refl))
      ]

  swapped : (b : Bool) (x y : Props) → (if not b then x else y) ≡ (if b then y else x)
  swapped true x y = refl
  swapped false x y = refl

  module _ (patch : OverlayPatch) (plan : ConflictPlan) (source : Props)
      (name overlay_at source_at overlay_ts source_ts : Str) (by_default : plan.default ≡ newest)
      (no_others : plan.properties ≡ []) (clock : plan.time_property ≡ some name)
      (at : patch.at ≡ some overlay_at) (stamped : get name source ≡ some source_at)
      (overlay_read : canonicalize overlay_at ≡ ok overlay_ts)
      (source_read : canonicalize source_at ≡ ok source_ts) where
    overlay_newer-compared :
        uses_newest_on plan (keys_of patch.props ++ patch.cleared) ≡ true
        → overlay_newer canonicalize patch plan source
          ≡ ok (some (not (str_lt overlay_ts source_ts)))
    unfolding overlay_newer overlay_is_newer time_property
    overlay_newer-compared names =
        if-true _ names ∙ rw clock (rw at (rw stamped (rw overlay_read (rw source_read refl))))

    takes_newest : (name : Str) (names : List Str) → uses_newest_on plan (name ∷ names) ≡ true
    unfolding uses_newest_on strategy_for get
    takes_newest name names = rw no_others (rw by_default refl)

    compared :
        uses_newest_on plan (keys_of patch.props ++ patch.cleared) ≡ true
        → (audit : Option ConflictAudit) × (apply_with canonicalize patch source (some plan)
            ≡ ok ((if str_lt overlay_ts source_ts then source else apply patch source), audit))
    compared names =
        let (audit, r) =
          apply_with-compared patch plan source (not (str_lt overlay_ts source_ts)) by_default
            no_others (overlay_newer-compared names) in
        (
          audit,
          r
              ∙ ap (λ p. ok (p, audit))
                  (swapped (str_lt overlay_ts source_ts) (apply patch source) source),
        )

    -- Under a plan whose default is newest, that names no other property and that has a time, where
    -- overlay and source have timestamps and both have a canonical form: the merge succeeds, and
    -- its row is the source as it was if the overlay's timestamp is before the source's, and else,
    -- also where they are the same, the source with the overlay applied.
    pub apply_with-newest :
        (audit : Option ConflictAudit) × (apply_with canonicalize patch source (some plan)
          ≡ ok ((if str_lt overlay_ts source_ts then source else apply patch source), audit))
    apply_with-newest = by_names patch.props patch.cleared refl refl
      where
        same : (b : Bool) (x y : Props) → x ≡ y → x ≡ (if b then x else y)
        same true x y e = refl
        same false x y e = e

        by_names :
            (props : Props) (cleared : List Str)
            → patch.props ≡ props
            → patch.cleared ≡ cleared
            → (audit : Option ConflictAudit) × (apply_with canonicalize patch source (some plan)
                ≡ ok ((if str_lt overlay_ts source_ts then source else apply patch source), audit))
        by_names [] [] p q =
            let (audit, r, applied) = apply_with-empty patch plan source p q in
            (
              audit,
              r
                  ∙ ap (λ s. ok (s, audit))
                      (same (str_lt overlay_ts source_ts) source (apply patch source)
                        (sym applied)),
            )
        by_names [] (n ∷ cleared) p q = compared (rw p (rw q (takes_newest n cleared)))
        by_names ((n, v) ∷ props) cleared p q =
            compared (rw p (takes_newest n (keys_of props ++ patch.cleared)))
