-- ===== src/Schema/Replace/Declares.antt =====
-- What an accepted replacement of a descriptor declares, and what it does to instances.
use mikura.Common.{
  ◌≡◌, refl, sym, ap, subst, ◌∙◌, arith, true, false, not, ◌&&◌, none, List, [], ◌∷◌, All, any,
  length, ◌==◌, ==→eq, ok, >>=-eq-ok, ok-eq,
}
use mikura.Common.Text.{Str, str_eq, str_eq_iff, contains_str}
use mikura.Common.Maps.{get, str_key}
use mikura.Errors.{
  kind_mismatch, version_invalid, rename_duplicate, rename_target_duplicate, rename_no_op,
  rename_source_unknown, rename_target_unknown, rename_target_taken, rename_source_kept,
  property_unknown,
}
use mikura.Record.{Props}
use mikura.Schema.Descriptor.{
  SchemaLink, SchemaDescriptor, declares, property_type, collect, effective_version,
}
use mikura.Schema.Check.{check}
use mikura.Schema.Check.Declared.{unit-ok, guard-ok, IsWellFormed, check-IsWellFormed}
use mikura.Schema.Replace.Needs.{
  needs_drop, needs_cast, needs_retarget, has_cast, has_link, check_drop-same, check_cast-same,
  check_retarget-same, expected_retarget-needed, expected_changes-Needed,
}
use mikura.Value.Types.{PropertyType}
use mikura.Schema.Instance.{check_known}
use mikura.Schema.Migration.{Free, Apart, Undone, undo_renames-apply_renames}
use mikura.Schema.Replace.{
  after, next_version, check_targets, expected_changes, check_rename, check_drop, check_cast,
  expected_retarget, check_retarget, stamped, Changes, check_replacement,
}

-- The tests that an accepted replacement has passed.
record Passes (d next s : SchemaDescriptor) : Type 0 where
  same_kind : d.kind ≡ next.kind
  version : s.version ≡ after (effective_version d)
  stamp : s ≡ stamped (next_version d next) next
  checked : check s ≡ ok tt
  targets : check_targets [] next.migration.rename ≡ ok tt
  renames : check_rename d next next.migration.rename ≡ ok tt
  changes : Changes
  needed : expected_changes d next (collect [] next.migration.rename) d.properties ≡ ok changes
  drops : check_drop next.migration.drop changes.drop ≡ ok tt
  casts : check_cast next.migration.cast changes.cast ≡ ok tt
  retargets :
      check_retarget next.migration.retarget
        (expected_retarget next (collect [] next.migration.rename) d.links)
      ≡ ok tt

check_replacement-Passes :
    (d next s : SchemaDescriptor) → check_replacement d next ≡ ok s → Passes d next s
unfolding check_replacement
check_replacement-Passes d next s h =
    let (kinds, rest) = guard-ok (str_eq d.kind next.kind) kind_mismatch _ h in
    let (version, rest) =
      guard-ok (next_version d next == after (effective_version d)) version_invalid _ rest in
    let (single, rest) =
      guard-ok (length (collect [] next.migration.rename) == length next.migration.rename)
        rename_duplicate _ rest in
    let (targets, rest) = unit-ok (check_targets [] next.migration.rename) _ rest in
    let (changes, needed, rest) =
      >>=-eq-ok (expected_changes d next (collect [] next.migration.rename) d.properties) _ rest in
    let (renames, rest) = unit-ok (check_rename d next next.migration.rename) _ rest in
    let (drops, rest) = unit-ok (check_drop next.migration.drop changes.drop) _ rest in
    let (casts, rest) = unit-ok (check_cast next.migration.cast changes.cast) _ rest in
    let (retargets, rest) =
      unit-ok
        (check_retarget next.migration.retarget
          (expected_retarget next (collect [] next.migration.rename) d.links))
        _ rest in
    let (checked, last) = unit-ok (check (stamped (next_version d next) next)) _ rest in
    subst (Passes d next) (ok-eq _ _ last) (record {
      same_kind = (str_eq_iff d.kind next.kind).0 kinds;
      version = ==→eq _ _ version;
      stamp = refl;
      checked = checked;
      targets = targets;
      renames = renames;
      changes = changes;
      needed = needed;
      drops = drops;
      casts = casts;
      retargets = retargets;
    })

targets-Apart :
    (seen : List Str) (rename : List (Str × Str))
    → check_targets seen rename ≡ ok tt
    → Apart rename × All (λ (p : Str × Str). contains_str p.1 seen ≡ false) rename
unfolding check_targets
targets-Apart seen [] h = (tt, tt)
targets-Apart seen ((old, new) ∷ rename) h =
    let (fresh, rest) = guard-ok (not (contains_str new seen)) rename_target_duplicate _ h in
    let (apart, others) = targets-Apart (new ∷ seen) rename rest in
    ((heads new rename others, apart), (ground arith, tails new rename others))
  where
    heads :
        (new : Str) (pairs : List (Str × Str))
        → All (λ (p : Str × Str). contains_str p.1 (new ∷ seen) ≡ false) pairs
        → All (λ (p : Str × Str). str_eq new p.1 ≡ false) pairs
    heads new [] q = tt
    heads new (p ∷ pairs) (q, qs) = (ground arith, heads new pairs qs)

    tails :
        (new : Str) (pairs : List (Str × Str))
        → All (λ (p : Str × Str). contains_str p.1 (new ∷ seen) ≡ false) pairs
        → All (λ (p : Str × Str). contains_str p.1 seen ≡ false) pairs
    tails new [] q = tt
    tails new (p ∷ pairs) (q, qs) = (ground arith, tails new pairs qs)

-- A name that is not declared is on no instance of the kind.
known-absent :
    (properties : List Str) (props : Props) (name : Str)
    → check_known properties props ≡ ok tt
    → contains_str name properties ≡ false
    → get name props ≡ none
unfolding check_known get
known-absent properties [] name h e = refl
known-absent properties ((key, value) ∷ props) name h e =
    let (declared, rest) = guard-ok (contains_str key properties) property_unknown _ h in
    ground (arith, str_eq_iff key name, known-absent properties props name rest e)

rename-Free :
    (d next : SchemaDescriptor) (rename : List (Str × Str)) (props : Props)
    → check_known d.properties props ≡ ok tt
    → check_rename d next rename ≡ ok tt
    → Free rename props
unfolding check_rename
rename-Free d next [] props known h = tt
rename-Free d next ((old, new) ∷ rename) props known h =
    let (moves, rest) = guard-ok (not (str_eq old new)) rename_no_op _ h in
    let (source, rest) = guard-ok (declares d.properties old) rename_source_unknown _ rest in
    let (target, rest) = guard-ok (declares next.properties new) rename_target_unknown _ rest in
    let (free, rest) = guard-ok (not (declares d.properties new)) rename_target_taken _ rest in
    let (gone, rest) = guard-ok (not (declares next.properties old)) rename_source_kept _ rest in
    (
      known-absent d.properties props new known (ground arith),
      rename-Free d next rename props known rest,
    )

-- A rename of an accepted replacement: from a property that goes to one that is new.
pub record IsRename (previous current : List Str) (rename : Str × Str) : Type 0 where
  pub old_declared : declares previous rename.0 ≡ true
  pub old_gone : declares current rename.0 ≡ false
  pub new_declared : declares current rename.1 ≡ true
  pub new_fresh : declares previous rename.1 ≡ false

renames-IsRename :
    (d next : SchemaDescriptor) (rename : List (Str × Str))
    → check_rename d next rename ≡ ok tt
    → All (IsRename d.properties next.properties) rename
unfolding check_rename
renames-IsRename d next [] h = tt
renames-IsRename d next ((old, new) ∷ rename) h =
    let (moves, rest) = guard-ok (not (str_eq old new)) rename_no_op _ h in
    let (source, rest) = guard-ok (declares d.properties old) rename_source_unknown _ rest in
    let (target, rest) = guard-ok (declares next.properties new) rename_target_unknown _ rest in
    let (free, rest) = guard-ok (not (declares d.properties new)) rename_target_taken _ rest in
    let (gone, rest) = guard-ok (not (declares next.properties old)) rename_source_kept _ rest in
    (
      record {
        old_declared = source;
        old_gone = ground arith;
        new_declared = target;
        new_fresh = ground arith;
      },
      renames-IsRename d next rename rest,
    )

-- What an accepted replacement `s` of `d` declares of its changes.
pub record Replaces (d s : SchemaDescriptor) : Type 0 where
  pub same_kind : s.kind ≡ d.kind
  pub version : s.version ≡ after (effective_version d)
  pub well_formed : IsWellFormed s
  pub renames : All (IsRename d.properties s.properties) s.migration.rename
  pub drops :
      (name : Str)
      → contains_str name s.migration.drop
        ≡ any
            (λ old. str_eq old name && needs_drop s (collect [] s.migration.rename) old)
            d.properties
  pub casts :
      (t : Str × PropertyType)
      → has_cast t s.migration.cast
        ≡ any (needs_cast d s (collect [] s.migration.rename) t) d.properties
  pub retargets :
      (t : SchemaLink)
      → has_link t s.migration.retarget
        ≡ any (needs_retarget s (collect [] s.migration.rename) t) d.links

-- A replacement that is accepted is the next descriptor, stamped with the version behind the
-- previous one in 32 bits; it has the kind of the previous one and is well formed. Each of its
-- renames goes from a property of the previous descriptor only to a property of the next only. A
-- name is among its drops exactly when it is a previous property whose name behind the renames is
-- no next property; a name with a type is among its recasts exactly when it is the next name and
-- type of a previous property whose type was another; and a link is among its retargets exactly
-- when it is what the next descriptor makes of a previous outgoing link, with another far kind or
-- direction.
pub check_replacement-Replaces :
    (d next s : SchemaDescriptor)
    → check_replacement d next ≡ ok s
    → Replaces d s × (s ≡ stamped (after (effective_version d)) next)
unfolding needs_cast needs_drop needs_retarget property_type
check_replacement-Replaces d next s h =
    let p = check_replacement-Passes d next s h in
    let needed =
      expected_changes-Needed d next (collect [] next.migration.rename) d.properties p.changes
        p.needed in
    let numbered : next_version d next ≡ after (effective_version d) =
      sym (ap (λ (t : SchemaDescriptor). t.version) p.stamp) ∙ p.version in
    (
      subst (Replaces d) (sym p.stamp) (record {
        same_kind = sym p.same_kind;
        version = numbered;
        well_formed = subst IsWellFormed p.stamp (check-IsWellFormed s p.checked);
        renames = renames-IsRename d next next.migration.rename p.renames;
        drops = λ name.
            check_drop-same next.migration.drop p.changes.drop name p.drops ∙ needed.drops name;
        casts = λ t. check_cast-same next.migration.cast p.changes.cast t p.casts ∙ needed.casts t;
        retargets = λ t.
            check_retarget-same next.migration.retarget
              (expected_retarget next (collect [] next.migration.rename) d.links) t p.retargets
            ∙ expected_retarget-needed next (collect [] next.migration.rename) t d.links;
      }),
      p.stamp ∙ ap (λ n. stamped n next) numbered,
    )

-- For a replacement that is accepted, and properties that the previous descriptor declares: the
-- renames apply without a collision, and undoing them gives every property its value back.
pub check_replacement-Undone :
    (d next s : SchemaDescriptor) (props : Props)
    → check_replacement d next ≡ ok s
    → check_known d.properties props ≡ ok tt
    → Undone s.migration.rename props
check_replacement-Undone d next s props h known =
    let r = check_replacement-Passes d next s h in
    subst (λ t. Undone t.migration.rename props) (sym r.stamp)
      (undo_renames-apply_renames next.migration.rename props
        (rename-Free d next next.migration.rename props known r.renames)
        (targets-Apart [] next.migration.rename r.targets).0)
