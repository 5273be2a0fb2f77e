-- ===== src/Schema/Rows.antt =====
-- The rows of src/schema.rs that descriptors are stored as.
pub mod Links
use mikura.Common.{
  ℕ, ◌+◌, ◌-◌, ◌^◌, Bool, true, false, not, ◌&&◌, ◌||◌, Option, none, some, List, [], ◌∷◌, ◌++◌,
  length, map, sort_by, all, ltb, leb, ◌==◌, if◌then◌else◌, Result, ok, err, ok_or, ◌>>=◌, ◌>>◌,
  guard,
}
use mikura.Common.Text.{Str, ascii, str_eq, str_lt, sort, contains_str}
use mikura.Common.Strings.{
  split_once, split_char, join_with, starts_with, strip_prefix, parse_unsigned, show_nat,
}
use mikura.Common.Maps.{Map, get, insert, str_key}
use mikura.Codec.Csv.{split_unique_csv}
use mikura.Errors.{
  Error, namespace_required, schema_kind_expected, schema_property_missing, schema_entry_empty,
  schema_entry_duplicate, schema_token_empty, version_not_canonical, version_not_integer,
  version_zero, entry_malformed, entry_part_empty, entry_duplicate, direction_invalid,
  cardinality_invalid, schema_property_unknown,
}
use mikura.Record.{Props, ObjectRecord}
use mikura.Schema.{ConflictStrategy, from_token}
use mikura.Schema
use mikura.Schema.Descriptor.{schema_kind, SchemaLink, SchemaMigration, SchemaDescriptor, is_nil}
use mikura.Schema.Check.{check}
use mikura.Value.Types
use mikura.Value.Types.{PropertyType}

-- The names of the row's properties.
abbrev pub row_names : List Str
row_names =
    ascii "properties"
    ∷ ascii "required"
    ∷ ascii "links"
    ∷ ascii "sums"
    ∷ ascii "indexes"
    ∷ ascii "types"
    ∷ ascii "conflict"
    ∷ ascii "conflict_properties"
    ∷ ascii "conflict_time"
    ∷ ascii "version"
    ∷ ascii "migrate_rename"
    ∷ ascii "migrate_cast"
    ∷ ascii "migrate_drop"
    ∷ ascii "migrate_retarget"
    ∷ []

unfoldable pub split_csv : Str → Result Error (List Str)
unfolding split_unique_csv
split_csv raw = split_unique_csv raw schema_entry_empty schema_entry_duplicate

unfoldable pub required_csv : Props → Str → Result Error (List Str)
unfolding get split_csv
required_csv props name = ok_or (get name props) schema_property_missing >>= split_csv

unfoldable pub optional_csv : Props → Str → Result Error (List Str)
unfolding get split_csv
optional_csv props name = elim (get name props) [ none ↦ ok [] | some raw ↦ split_csv raw ]

unfoldable pub optional_token : Props → Str → Result Error (Option Str)
unfolding get
optional_token props name = elim (get name props) [
  | none ↦ ok none
  | some raw ↦ if length raw == 0 then err schema_token_empty else ok (some raw)
]

unfoldable pub parse_version : Str → Result Error ℕ
unfolding parse_unsigned strip_prefix
parse_version raw =
    if ltb 1 (length raw) && starts_with (ascii "0") raw then err version_not_canonical else (do
      version ← ok_or (parse_unsigned (2 ^ 32 - 1) raw) version_not_integer
      (if version == 0 then err version_zero else ok version))

unfoldable pub optional_version : Props → Result Error ℕ
unfolding get parse_version
optional_version props = elim (get (ascii "version") props) [
  | none ↦ ok 0
  | some raw ↦ parse_version raw
]

-- An entry `name:rest` with nothing empty.
unfoldable pub split_entry : Str → Result Error (Str × Str)
unfolding split_once
split_entry entry = do
  (name, rest) ← ok_or (split_once 58 entry) entry_malformed
  (if (length name == 0) || (length rest == 0) then err entry_part_empty else ok (name, rest))

abbrev pub pair_by_name {ℓ} : {V : Type ℓ} → Str × V → Str × V → Bool
pair_by_name a b = str_lt a.0 b.0

-- The loop of `parse_rename`.
unfoldable pub rename_entries : List Str → List Str → List Str → Result Error (List (Str × Str))
unfolding split_entry
rename_entries seen seen_new [] = ok []
rename_entries seen seen_new (entry ∷ entries) = do
  (old, new) ← split_entry entry
  guard (not (contains_str old seen)) entry_duplicate
  guard (not (contains_str new seen_new)) entry_duplicate
  rest ← rename_entries (old ∷ seen) (new ∷ seen_new) entries
  ok ((old, new) ∷ rest)

unfoldable pub parse_rename : List Str → Result Error (List (Str × Str))
unfolding rename_entries str_lt
parse_rename entries = rename_entries [] [] entries >>= λ rename. ok (sort_by pair_by_name rename)

-- `out` and `in`.
unfoldable pub direction : Str → Result Error Bool
unfolding str_eq
direction dir =
    if str_eq dir (ascii "out")
    then ok true
    else if str_eq dir (ascii "in")
    then ok false
    else err direction_invalid

abbrev pub retarget_entry : List Str → List Str → Result Error SchemaLink
unfolding direction
retarget_entry seen (name ∷ far_kind ∷ dir ∷ []) =
    if (length name == 0) || (length far_kind == 0)
    then err entry_part_empty
    else if contains_str name seen
    then err entry_duplicate
    else (do
      outgoing ← direction dir
      ok (record { name = name; far_kind = far_kind; outgoing = outgoing }))
retarget_entry seen other = err entry_malformed

unfoldable pub retarget_entries : List Str → List Str → Result Error (List SchemaLink)
unfolding split_char retarget_entry
retarget_entries seen [] = ok []
retarget_entries seen (entry ∷ entries) = do
  link ← retarget_entry seen (split_char 58 entry)
  links ← retarget_entries (link.name ∷ seen) entries
  ok (link ∷ links)

abbrev pub link_by_name : SchemaLink → SchemaLink → Bool
link_by_name a b = str_lt a.name b.name

unfoldable pub parse_retarget : List Str → Result Error (List SchemaLink)
unfolding retarget_entries str_lt
parse_retarget entries = retarget_entries [] entries >>= λ links. ok (sort_by link_by_name links)

unfoldable pub optional_conflict : Props → Result Error (Option ConflictStrategy)
unfolding get from_token
optional_conflict props = elim (get (ascii "conflict") props) [
  | none ↦ ok none
  | some raw ↦ from_token raw >>= λ strategy. ok (some strategy)
]

-- The loops of `parse_conflict_properties` and of `parse_types`, by the reader of the token.
unfoldable pub typed_entries :
    {V : Type 0} → (Str → Result Error V) → List Str → List Str → Result Error (List (Str × V))
unfolding split_entry
typed_entries read seen [] = ok []
typed_entries read seen (entry ∷ entries) = do
  (name, token) ← split_entry entry
  guard (not (contains_str name seen)) entry_duplicate
  value ← read token
  rest ← typed_entries read (name ∷ seen) entries
  ok ((name, value) ∷ rest)

unfoldable pub parse_conflict_properties : List Str → Result Error (List (Str × ConflictStrategy))
unfolding typed_entries from_token str_lt
parse_conflict_properties entries =
    typed_entries from_token [] entries >>= λ pairs. ok (sort_by pair_by_name pairs)

unfoldable pub parse_types : List Str → Result Error (List (Str × PropertyType))
unfolding typed_entries Types.from_token str_lt
parse_types entries =
    typed_entries Types.from_token [] entries >>= λ pairs. ok (sort_by pair_by_name pairs)

abbrev pub link_parts : List Str → Result Error SchemaLink
unfolding direction str_eq
link_parts (name ∷ far_kind ∷ dir ∷ cardinality ∷ []) = do
  outgoing ← direction dir
  (if not (str_eq cardinality (ascii "0..1"))
      then err cardinality_invalid
      else ok (record { name = name; far_kind = far_kind; outgoing = outgoing }))
link_parts other = err entry_malformed

unfoldable pub parse_link : Str → Result Error SchemaLink
unfolding split_char link_parts
parse_link entry = link_parts (split_char 58 entry)

unfoldable pub parse_links : List Str → Result Error (List SchemaLink)
unfolding parse_link
parse_links [] = ok []
parse_links (entry ∷ entries) = do
  link ← parse_link entry
  links ← parse_links entries
  ok (link ∷ links)

abbrev pub migration_of : Props → Result Error SchemaMigration
unfolding optional_csv parse_rename parse_types parse_retarget
migration_of props = do
  rename ← optional_csv props (ascii "migrate_rename")
  rename ← parse_rename rename
  cast ← optional_csv props (ascii "migrate_cast")
  cast ← parse_types cast
  drop ← optional_csv props (ascii "migrate_drop")
  retarget ← optional_csv props (ascii "migrate_retarget")
  retarget ← parse_retarget retarget
  ok (record { rename = rename; cast = cast; drop = drop; retarget = retarget })

abbrev pub known_row : Props → Bool
unfolding str_eq
known_row props = all (λ (p : Str × Str). contains_str p.0 row_names) props

unfoldable pub from_record : ObjectRecord → Result Error SchemaDescriptor
unfolding required_csv optional_csv parse_links parse_types optional_conflict
    parse_conflict_properties optional_token optional_version migration_of check known_row
from_record r = do
  guard (str_eq r.kind schema_kind) schema_kind_expected
  properties ← required_csv r.props (ascii "properties")
  required ← optional_csv r.props (ascii "required")
  links ← optional_csv r.props (ascii "links")
  links ← parse_links links
  sums ← optional_csv r.props (ascii "sums")
  indexes ← optional_csv r.props (ascii "indexes")
  types ← optional_csv r.props (ascii "types")
  types ← parse_types types
  conflict ← optional_conflict r.props
  conflict_properties ← optional_csv r.props (ascii "conflict_properties")
  conflict_properties ← parse_conflict_properties conflict_properties
  conflict_time ← optional_token r.props (ascii "conflict_time")
  version ← optional_version r.props
  migration ← migration_of r.props
  let d : SchemaDescriptor = record {
    kind = r.key;
    properties = properties;
    required = required;
    links = links;
    sums = sums;
    indexes = indexes;
    types = types;
    conflict = conflict;
    conflict_properties = conflict_properties;
    conflict_time = conflict_time;
    version = version;
    migration = migration;
  }
  check d
  guard (known_row r.props) schema_property_unknown
  ok d

-- `out` or `in`, and a link as an entry.
abbrev pub direction_text : Bool → Str
direction_text true = ascii "out"
direction_text false = ascii "in"

unfoldable pub encode_link : SchemaLink → Str
encode_link link =
    link.name ++ (58 ∷ (link.far_kind ++ (58 ∷ (direction_text link.outgoing ++ ascii ":0..1"))))

abbrev pub encode_retarget : SchemaLink → Str
encode_retarget link = link.name ++ (58 ∷ (link.far_kind ++ (58 ∷ direction_text link.outgoing)))

abbrev pub entries_text : {V : Type 0} → (V → Str) → List (Str × V) → List Str
entries_text show [] = []
entries_text show ((name, v) ∷ pairs) = (name ++ (58 ∷ show v)) ∷ entries_text show pairs

-- A list, sorted, where it is not empty.
unfoldable pub put_csv : Str → List Str → Props → Props
unfolding insert sort join_with
put_csv name entries props =
    if is_nil entries then props else insert name (join_with (ascii ",") (sort entries)) props

abbrev pub put_some : Str → Option Str → Props → Props
unfolding insert
put_some name none props = props
put_some name (some value) props = insert name value props

abbrev pub conflict_text : Option ConflictStrategy → Option Str
unfolding Schema.token
conflict_text none = none
conflict_text (some strategy) = some (Schema.token strategy)

unfoldable pub row_props : SchemaDescriptor → Props
unfolding put_csv encode_link put_some conflict_text Types.token show_nat sort join_with
row_props d = put_csv (ascii "migrate_retarget") (map encode_retarget d.migration.retarget) (
    put_csv (ascii "migrate_drop") d.migration.drop (
      put_csv (ascii "migrate_cast") (entries_text Types.token d.migration.cast) (
        put_csv (ascii "migrate_rename") (entries_text (λ new. new) d.migration.rename) (
          put_some (ascii "version") (if ltb 0 d.version then some (show_nat d.version) else none) (
            put_some (ascii "conflict_time") d.conflict_time (
              put_csv (ascii "conflict_properties")
                (entries_text Schema.token d.conflict_properties)
                (put_some (ascii "conflict") (conflict_text d.conflict) (
                  put_csv (ascii "types") (entries_text Types.token d.types) (
                    put_csv (ascii "indexes") d.indexes (
                      put_csv (ascii "sums") d.sums (
                        put_csv (ascii "links") (map encode_link d.links) (
                          put_csv (ascii "required") d.required (
                            (ascii "properties", join_with (ascii ",") (sort d.properties))
                            ∷ [])))))))))))))

unfoldable pub to_record : SchemaDescriptor → Str → Result Error ObjectRecord
unfolding check row_props
to_record d namespace = do
  check d
  guard (not (length namespace == 0)) namespace_required
  ok (record {
    gen = 0;
    namespace = namespace;
    kind = schema_kind;
    key = d.kind;
    hidden = false;
    action_id = none;
    props = row_props d;
    schema_version = 1;
  })
