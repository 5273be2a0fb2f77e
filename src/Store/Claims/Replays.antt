-- ===== src/Store/Claims/Replays.antt =====
-- A write under an Action id, and the same write again.
use mikura.Common.{
  ◌≡◌, refl, ap, ◌∙◌, arith, Bool, true, false, not, ◌&&◌, Option, none, some, length, ◌==◌,
  if◌then◌else◌, if-true, if-false, Result, ok, err, ◌>>=◌,
}
use mikura.Common.Text.{Str, str_eq, str_eq_refl}
use mikura.Common.Maps.{get, get-insert, str_key, pair_key, pair_eq_iff}
use mikura.Errors.{Error, action_id_reused, body_conflict}
use mikura.Record.{Props, ObjectRecord}
use mikura.Actions.{change_set_kind}
use mikura.Schema.Descriptor.{SchemaDescriptor}
use mikura.Value.Geo.{Floats}
use mikura.Store.{
  View, opened, remember_under, commit_under, add_to_commit, remember_action, same_props,
}
use mikura.Store.Claims.{
  ActionClaim, replay, schema, body_of, validated, claim_of, claim_under, action_claim,
}

-- A visible record that is the first under its id.
pub record IsFirst (r : ObjectRecord) (id : Str) (v : View) : Type 0 where
  pub claimed : r.action_id ≡ some id
  pub full : (length id == 0) ≡ false
  pub fresh : get (r.namespace, id) v.action_commits ≡ none
  pub plain : str_eq r.kind change_set_kind ≡ false
  pub visible : r.hidden ≡ false

-- The commit that a first record opens.
-- The record that opens a commit adds nothing more to it.
add_to_commit-opened :
    (r : ObjectRecord)
    → str_eq r.kind change_set_kind ≡ false
    → r.hidden ≡ false
    → add_to_commit r (opened r) ≡ opened r
unfolding add_to_commit opened
add_to_commit-opened r plain visible =
    if-false _ plain
    ∙ if-false
        {b = r.hidden
          && not r.hidden
          && str_eq r.namespace r.namespace
          && str_eq r.kind r.kind
          && str_eq r.key r.key
          && same_props r.props r.props}
        _ (ground arith)

remember_action-first :
    (r : ObjectRecord) (id : Str) (v : View)
    → IsFirst r id v
    → get (r.namespace, id) (remember_action r v.action_commits) ≡ some (opened r)
unfolding remember_action remember_under commit_under
remember_action-first r id v h =
    ap (λ a. get (r.namespace, id) (remember_under a r v.action_commits)) h.claimed
    ∙ ap (get (r.namespace, id)) (if-false _ h.full)
    ∙ get-insert (r.namespace, id) (r.namespace, id) _ v.action_commits
    ∙ if-true _ ((pair_eq_iff (r.namespace, id) (r.namespace, id)).1 refl)
    ∙ ap (λ c. some (add_to_commit r (commit_under r c))) h.fresh
    ∙ ap some (add_to_commit-opened r h.plain h.visible)

module _ (f : Floats) where
  decided :
      (a b c p h : Bool) (s : Result Error (Option SchemaDescriptor))
      (next : Option SchemaDescriptor → Result Error ActionClaim)
      → a ≡ true
      → h ≡ false
      → s ≡ ok none
      → next none ≡ ok replay
      → (if not (a && b && c)
          then err action_id_reused
          else if not p
          then err body_conflict
          else if h
          then err body_conflict
          else (s >>= next))
        ≡ (if not (b && c)
            then err action_id_reused
            else if not p
            then err body_conflict
            else ok replay)
  decided a b c p h s next ea eh es en = rw (ea, eh, es, en) refl

  claim_of-opened :
      (r : ObjectRecord) (id kind key : Str) (props : Props) (w : View)
      → r.hidden ≡ false
      → schema r.namespace kind w ≡ ok none
      → claim_of f (opened r) r.namespace id kind key false props w ≡ (
          if not (str_eq r.kind kind && str_eq r.key key)
          then err action_id_reused
          else if not (same_props r.props props)
          then err body_conflict
          else ok replay)
  unfolding claim_of opened validated
  claim_of-opened r id kind key props w visible s =
      decided (str_eq r.namespace r.namespace) (str_eq r.kind kind) (str_eq r.key key)
        (same_props r.props props) r.hidden (schema r.namespace kind w)
        (λ d. validated f d (body_of r.namespace id kind key props)) (str_eq_refl r.namespace)
        visible s refl

  -- After a first visible record under a non-empty Action id, which is not a change set, where its
  -- kind has no schema: a visible write under the id is a replay if it has the same place and the
  -- same properties, and else it is refused, for another place as a reuse of the id and for other
  -- properties as a conflict.
  pub action_claim-remember_action :
      (r : ObjectRecord) (id kind key : Str) (props : Props) (v w : View)
      → IsFirst r id v
      → w.action_commits ≡ remember_action r v.action_commits
      → schema r.namespace kind w ≡ ok none
      → action_claim f r.namespace id kind key false props w ≡ (
          if not (str_eq r.kind kind && str_eq r.key key)
          then err action_id_reused
          else if not (same_props r.props props)
          then err body_conflict
          else ok replay)
  unfolding action_claim claim_under
  action_claim-remember_action r id kind key props v w h e s =
      ap (λ c. claim_under f c r.namespace id kind key false props w)
        (ap (get (r.namespace, id)) e ∙ remember_action-first r id v h)
      ∙ claim_of-opened r id kind key props w h.visible s
