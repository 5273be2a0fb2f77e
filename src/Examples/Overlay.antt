-- ===== src/Examples/Overlay.antt =====
-- An overlay that sets one property and clears another, under two plans.
use mikura.Common.{true, false, Option, none, some, [], ◌∷◌, Result, ok, ◌≡◌, refl, if◌then◌else◌}
use mikura.Common.Text.{Str, ascii, str_eq, str_lt}
use mikura.Common.Maps.{get, str_key}
use mikura.Schema.{ConflictPlan, user, newest, uses_newest}
use mikura.Overlay.{Props, OverlayPatch, ConflictAudit, apply, apply_with}
use mikura.Overlay.Merge.{apply_with-user}
use mikura.Overlay.Merge.Newest.{apply_with-newest}
use mikura.Errors.{Error}

-- Timestamps that are canonical already.
canonical : Str → Result Error Str
canonical raw = ok raw

abbrev patch : OverlayPatch
patch = record {
  namespace = ascii "ns";
  kind = ascii "incident";
  key = ascii "inc-1";
  props = (ascii "note", ascii "acked") ∷ [];
  cleared = ascii "tmp" ∷ [];
  action_id = none;
  at = some (ascii "2024-01-01T00:00:00.000Z");
}

abbrev source : Props
source =
    (ascii "note", ascii "new")
    ∷ (ascii "tmp", ascii "x")
    ∷ (ascii "seen", ascii "2024-01-01T00:00:00.000Z")
    ∷ []

abbrev user_plan : ConflictPlan
user_plan = record { default = user; properties = []; time_property = none; record_audit = true }

abbrev newest_plan : ConflictPlan
newest_plan = record {
  default = newest;
  properties = [];
  time_property = some (ascii "seen");
  record_audit = true;
}

no_newest : uses_newest user_plan ≡ false
unfolding uses_newest
no_newest = refl

apply_with-user_example :
    (audit : Option ConflictAudit) × (apply_with canonical patch source (some user_plan)
      ≡ ok (apply patch source, audit))
apply_with-user_example = apply_with-user canonical patch user_plan source no_newest

-- The two timestamps are the same.
seen_at : get (ascii "seen") source ≡ some (ascii "2024-01-01T00:00:00.000Z")
unfolding get str_eq
seen_at = refl

is_canonical : canonical (ascii "2024-01-01T00:00:00.000Z") ≡ ok (ascii "2024-01-01T00:00:00.000Z")
unfolding canonical
is_canonical = refl

apply_with-newest_example :
    (audit : Option ConflictAudit) × (apply_with canonical patch source (some newest_plan)
      ≡ ok (
        (if str_lt (ascii "2024-01-01T00:00:00.000Z") (ascii "2024-01-01T00:00:00.000Z")
            then source
            else apply patch source),
        audit,
      ))
apply_with-newest_example =
    apply_with-newest canonical patch newest_plan source (ascii "seen")
      (ascii "2024-01-01T00:00:00.000Z") (ascii "2024-01-01T00:00:00.000Z")
      (ascii "2024-01-01T00:00:00.000Z") (ascii "2024-01-01T00:00:00.000Z") refl refl refl refl
      seen_at is_canonical is_canonical
