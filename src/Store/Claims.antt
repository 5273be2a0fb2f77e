-- ===== src/Store/Claims.antt =====
-- Action ids in src/store/mod.rs: what a write under an id that is already committed is taken for. The
-- commits of the log are those of the view.
pub mod Replays
use mikura.Common.{
  ℕ, ◌≡◌, Bool, true, false, not, ◌&&◌, ◌||◌, Option, none, some, List, [], ◌∷◌, length, ltb, ◌==◌,
  if◌then◌else◌, Result, ok, err, ◌>>=◌, ◌>>◌, guard,
}
use mikura.Common.Text.{Str, ascii, str_eq}
use mikura.Common.Strings.{contains_char, parse_unsigned}
use mikura.Common.Maps.{Map, get, str_key, pair_key}
use mikura.Errors.{
  Error, action_id_required, action_id_reused, body_conflict, cursor_hidden, cursor_key_invalid,
  cursor_props_invalid, cursor_offset_invalid,
}
use mikura.Record.{Props, ObjectRecord}
use mikura.Actions.{Edit, put, hide, change_set_kind, kind_of, key_of}
use mikura.Schema.Descriptor.{schema_kind, SchemaDescriptor}
use mikura.Schema.Rows
use mikura.Schema.Instance
use mikura.Value.Geo.{Floats}
use mikura.Store.Loads.{loaded, require_known_namespace}
use mikura.Store.{
  Identity, identity_key, Row, View, SetMember, ActionCommit, find_live, same_props, covers,
}

unfoldable pub require_action_id : Str → Result Error (Unit {0})
require_action_id id = if length id == 0 then err action_id_required else ok tt

-- `new` is a write to be made, `replay` one that was made.
pub data ActionClaim : Type 0 where
  new replay : ActionClaim

-- `load_reserved` of a descriptor: the reserved kinds have no schema view of their own.
unfoldable pub schema_of_row : Str → Str → Option Row → Result Error (Option SchemaDescriptor)
unfolding Rows.from_record
schema_of_row namespace kind none = ok none
schema_of_row namespace kind (some row) =
    if row.hidden
    then ok none
    else (Rows.from_record (loaded namespace schema_kind kind row) >>= λ d. ok (some d))

unfoldable pub schema : Str → Str → View → Result Error (Option SchemaDescriptor)
unfolding require_known_namespace find_live schema_of_row
schema namespace kind v = do
  namespace ← require_known_namespace namespace v
  schema_of_row namespace kind (find_live namespace schema_kind kind v)

abbrev pub body_of : Str → Str → Str → Str → Props → ObjectRecord
body_of namespace id kind key props = record {
  gen = 0;
  namespace = namespace;
  kind = kind;
  key = key;
  hidden = false;
  action_id = some id;
  props = props;
  schema_version = 1;
}

abbrev pub same_place : ActionCommit → Str → Str → Str → Bool
same_place c namespace kind key =
    str_eq c.namespace namespace && str_eq c.kind kind && str_eq c.key key

module _ (f : Floats) where
  unfoldable pub validated : Option SchemaDescriptor → ObjectRecord → Result Error ActionClaim
  unfolding Instance.validate
  validated none r = ok replay
  validated (some d) r = Instance.validate f d r >> ok replay

  -- A write under an id that a commit has.
  unfoldable pub claim_of :
      ActionCommit → Str → Str → Str → Str → Bool → Props → View → Result Error ActionClaim
  unfolding str_eq same_props schema validated
  claim_of c namespace id kind key hidden props v =
      if not (same_place c namespace kind key)
      then err action_id_reused
      else if not (same_props c.props props)
      then err body_conflict
      else if hidden
      then ok (if c.hidden || c.hide_applied then replay else new)
      else if c.hidden
      then err body_conflict
      else (schema namespace kind v >>= λ d. validated d (body_of namespace id kind key props))

  unfoldable pub claim_under :
      Option ActionCommit → Str → Str → Str → Str → Bool → Props → View → Result Error ActionClaim
  unfolding claim_of
  claim_under none namespace id kind key hidden props v = ok new
  claim_under (some c) namespace id kind key hidden props v =
      claim_of c namespace id kind key hidden props v

  unfoldable pub action_claim :
      Str → Str → Str → Str → Bool → Props → View → Result Error ActionClaim
  unfolding get claim_under
  action_claim namespace id kind key hidden props v =
      claim_under (get (namespace, id) v.action_commits) namespace id kind key hidden props v

  -- The body of a put as it was stored.
  unfoldable pub stored_body : Option SchemaDescriptor → ObjectRecord → Result Error ObjectRecord
  unfolding Instance.canonicalize_instance Instance.validate
  stored_body none r = ok r
  stored_body (some d) r = do
    r ← Instance.canonicalize_instance f d r
    Instance.validate f d r
    ok r

  abbrev pub has_body : Option Props → Props → Bool
  has_body none props = false
  has_body (some stored) props = same_props stored props

  unfoldable pub replay_edit : Str → Str → SetMember → Edit → View → Result Error (Unit {0})
  unfolding schema stored_body same_props
  replay_edit namespace id member (hide kind key expected) v =
      if member.hide then ok tt else err body_conflict
  replay_edit namespace id member (put kind key props expected) v =
      if member.hide then err body_conflict else (do
        d ← schema namespace member.kind v
        r ← stored_body d (body_of namespace id member.kind member.key props)
        (if has_body member.props r.props then ok tt else err body_conflict))

  unfoldable pub replay_edits :
      Str → Str → List SetMember → List Edit → View → Result Error (Unit {0})
  unfolding replay_edit str_eq
  replay_edits namespace id (member ∷ members) (edit ∷ edits) v = do
    guard (str_eq member.kind (kind_of edit) && str_eq member.key (key_of edit)) body_conflict
    replay_edit namespace id member edit v
    replay_edits namespace id members edits v
  replay_edits namespace id _ _ v = ok tt

  unfoldable pub replay_change_set : ActionCommit → List Edit → Str → View → Result Error (Unit {0})
  unfolding str_eq replay_edits
  replay_change_set c edits id v =
      if not (str_eq c.kind change_set_kind)
      then err action_id_reused
      else if not (length c.members == length edits)
      then err body_conflict
      else replay_edits c.namespace id c.members edits v

-- A row of the kind of source cursors.
unfoldable pub require_source_cursor : ObjectRecord → Result Error ℕ
unfolding get parse_unsigned
require_source_cursor r =
    if r.hidden
    then err cursor_hidden
    else if (length r.key == 0) || contains_char 47 r.key
    then err cursor_key_invalid
    else if not (length r.props == 1)
    then err cursor_props_invalid
    else (elim (get (ascii "offset") r.props) [
      | none ↦ err cursor_props_invalid
      | some raw ↦ (elim (parse_unsigned 18446744073709551615 raw) [
        | none ↦ err cursor_offset_invalid
        | some n ↦ ok n
      ])
    ])
