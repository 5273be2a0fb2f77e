-- ===== src/Overlay/Rows.antt =====
-- The rows of src/overlay.rs that patches and the audits of their conflicts are stored as.
use mikura.Common.{
  Bool, false, not, ◌&&◌, ◌||◌, Option, none, some, List, [], ◌∷◌, ◌++◌, length, any, sort_by, ◌==◌,
  if◌then◌else◌, Result, ok, err, ok_or, ◌>>=◌, ◌>>◌, guard,
}
use mikura.Common.Text.{Str, ascii, str_eq, str_lt, sort, contains_str}
use mikura.Common.Strings.{
  split_once, split_char, join_with, starts_with, strip_prefix, contains_char,
}
use mikura.Common.Maps.{get, insert, contains_key, str_key}
use mikura.Codec.Csv.{split_unique_csv}
use mikura.Errors.{
  Error, namespace_required, overlay_kind_expected, overlay_kind_reserved, overlay_key_malformed,
  overlay_identity_empty, overlay_key_slash, overlay_name_reserved, overlay_entry_empty,
  overlay_entry_duplicate, cleared_overridden,
}
use mikura.Record.{ObjectRecord}
use mikura.Schema.{ConflictStrategy, token}
use mikura.Schema.Descriptor.{schema_kind, is_nil, find_pair}
use mikura.Schema.Rows.{typed_entries, entries_text, pair_by_name}
use mikura.Schema
use mikura.Overlay.{Props, ConflictAudit, OverlayPatch}

abbrev pub overlay_kind : Str
overlay_kind = ascii "mikura.overlay"

abbrev pub source_kind : Str
source_kind = ascii "mikura.source"

abbrev pub lost_prefix : Str
lost_prefix = ascii "@lost:"

unfoldable pub identity_key : Str → Str → Str
identity_key kind key = kind ++ (47 ∷ key)

unfoldable pub split_identity_key : Str → Result Error (Str × Str)
unfolding split_once
split_identity_key raw = do
  (kind, key) ← ok_or (split_once 47 raw) overlay_key_malformed
  (if (length kind == 0) || (length key == 0) || contains_char 47 key
      then err overlay_key_malformed
      else ok (kind, key))

-- The kinds that no overlay describes.
abbrev pub is_reserved : Str → Bool
unfolding str_eq
is_reserved kind = str_eq kind schema_kind || str_eq kind overlay_kind || str_eq kind source_kind

unfoldable pub split_csv : Str → Result Error (List Str)
unfolding split_unique_csv
split_csv raw = split_unique_csv raw overlay_entry_empty overlay_entry_duplicate

-- What the loop of `from_record` has read.
pub record Body : Type 0 where
  pub props : Props
  pub cleared : List Str
  pub at : Option Str

-- No cleared name twice, and none with an override.
unfoldable pub check_cleared : Props → List Str → List Str → Result Error (Unit {0})
unfolding contains_key
check_cleared props seen [] = ok tt
check_cleared props seen (name ∷ names) = do
  guard (not (contains_str name seen)) overlay_entry_duplicate
  guard (not (contains_key name props)) cleared_overridden
  check_cleared props (name ∷ seen) names

module _ (canonicalize : Str → Result Error Str) where
  -- One property of the row.
  unfoldable pub read_prop : Str → Str → Body → Result Error Body
  unfolding split_csv strip_prefix insert str_eq
  read_prop name value body =
      if str_eq name (ascii "cleared")
      then (split_csv value >>= λ cleared. ok (record body { cleared = cleared }))
      else if str_eq name (ascii "@at")
      then (canonicalize value >>= λ at. ok (record body { at = some at }))
      else if str_eq name (ascii "@conflict") || starts_with lost_prefix name
      then ok body
      else ok (record body { props = insert name value body.props })

  unfoldable pub read_props : Props → Body → Result Error Body
  unfolding read_prop
  read_props [] body = ok body
  read_props ((name, value) ∷ props) body = do
    body ← read_prop name value body
    read_props props body

  unfoldable pub from_record : ObjectRecord → Result Error OverlayPatch
  unfolding split_identity_key is_reserved read_props check_cleared
  from_record r = do
    guard (str_eq r.kind overlay_kind) overlay_kind_expected
    (kind, key) ← split_identity_key r.key
    guard (not (is_reserved kind)) overlay_kind_reserved
    body ← read_props r.props (record { props = []; cleared = []; at = none })
    check_cleared body.props [] body.cleared
    guard (not (length r.namespace == 0)) namespace_required
    ok (record {
      namespace = r.namespace;
      kind = kind;
      key = key;
      props = body.props;
      cleared = body.cleared;
      action_id = r.action_id;
      at = body.at;
    })

  unfoldable pub canonical_at : OverlayPatch → Result Error (Option Str)
  canonical_at patch = elim patch.at [
    | none ↦ ok none
    | some raw ↦ canonicalize raw >>= λ at. ok (some at)
  ]

  abbrev pub put_cleared : List Str → Props → Props
  unfolding join_with insert
  put_cleared cleared props =
      if is_nil cleared
      then props
      else insert (ascii "cleared") (join_with (ascii ",") cleared) props

  abbrev pub put_at : Option Str → Props → Result Error Props
  unfolding insert
  put_at none props = ok props
  put_at (some at) props = canonicalize at >>= λ at. ok (insert (ascii "@at") at props)

  abbrev pub reserved_names : Props → Bool
  unfolding contains_key strip_prefix
  reserved_names props =
      contains_key (ascii "cleared") props
      || contains_key (ascii "@at") props
      || contains_key (ascii "@conflict") props
      || any (λ (p : Str × Str). starts_with lost_prefix p.0) props

  unfoldable pub to_record : OverlayPatch → Result Error ObjectRecord
  unfolding identity_key is_reserved put_cleared put_at reserved_names
  to_record patch = do
    guard (not (is_reserved patch.kind)) overlay_kind_reserved
    guard (not (length patch.namespace == 0)) namespace_required
    guard (not ((length patch.kind == 0) || (length patch.key == 0))) overlay_identity_empty
    guard (not (contains_char 47 patch.key)) overlay_key_slash
    guard (not (reserved_names patch.props)) overlay_name_reserved
    props ← put_at patch.at (put_cleared patch.cleared patch.props)
    ok (record {
      gen = 0;
      namespace = patch.namespace;
      kind = overlay_kind;
      key = identity_key patch.kind patch.key;
      hidden = false;
      action_id = patch.action_id;
      props = props;
      schema_version = 1;
    })

  unfoldable pub encode_conflict_strategies : List (Str × ConflictStrategy) → Str
  unfolding join_with sort token
  encode_conflict_strategies strategies =
      join_with (ascii ",") (sort (entries_text token strategies))

  unfoldable pub put_lost : Props → Props → Props
  unfolding insert
  put_lost [] props = props
  put_lost ((name, value) ∷ lost) props = put_lost lost (insert (lost_prefix ++ name) value props)

  unfoldable pub to_audit_record : OverlayPatch → ConflictAudit → Result Error ObjectRecord
  unfolding to_record encode_conflict_strategies put_lost insert
  to_audit_record patch audit = do
    r ← to_record patch
    ok (record r {
      props =
          put_lost audit.lost
            (insert (ascii "@conflict") (encode_conflict_strategies audit.strategies) r.props);
    })

-- Strategies on a row: entries `name:strategy` without trimming.
unfoldable pub decode_conflict_strategies : Str → Result Error (List (Str × ConflictStrategy))
unfolding split_char typed_entries Schema.from_token str_lt
decode_conflict_strategies raw =
    if length raw == 0
    then ok []
    else (typed_entries Schema.from_token [] (split_char 44 raw) >>= λ pairs.
        ok (sort_by pair_by_name pairs))

unfoldable pub recorded_lost : Props → Props
unfolding strip_prefix insert
recorded_lost [] = []
recorded_lost ((name, value) ∷ props) =
    let rest = recorded_lost props in
    elim (strip_prefix lost_prefix name) [ none ↦ rest | some property ↦ (property, value) ∷ rest ]

-- The name behind a migration: none where it is dropped.
unfoldable pub map_name : List (Str × Str) → List Str → Str → Option Str
unfolding find_pair
map_name rename drop name =
    if contains_str name drop
    then none
    else (elim (find_pair name rename) [ none ↦ some name | some new ↦ some new ])

unfoldable pub map_strategies :
    (Str → Option Str) → List (Str × ConflictStrategy) → List (Str × ConflictStrategy)
map_strategies on [] = []
map_strategies on ((name, strategy) ∷ pairs) =
    let rest = map_strategies on pairs in
    elim (on name) [ none ↦ rest | some new ↦ (new, strategy) ∷ rest ]

unfoldable pub map_lost : (Str → Option Str) → Props → Props → Props
unfolding insert
map_lost on [] lost = lost
map_lost on ((name, value) ∷ pairs) lost =
    map_lost on pairs (elim (on name) [ none ↦ lost | some new ↦ insert new value lost ])

unfoldable pub remapped_audit :
    ObjectRecord → List (Str × Str) → List Str → Result Error (Option ConflictAudit)
unfolding get decode_conflict_strategies recorded_lost map_name map_strategies map_lost str_lt
remapped_audit r rename drop = do
  recorded ← (elim (get (ascii "@conflict") r.props) [
    | none ↦ ok []
    | some raw ↦ decode_conflict_strategies raw
  ])
  let strategies : List (Str × ConflictStrategy) = map_strategies (map_name rename drop) recorded
  let lost : Props = map_lost (map_name rename drop) (recorded_lost r.props) []
  ok (
      if is_nil strategies && is_nil lost
      then none
      else some (record { strategies = sort_by pair_by_name strategies; lost = lost }))
