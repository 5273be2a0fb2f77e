-- ===== src/Store/Schemas.antt =====
-- A record on the log becomes live, in src/store/mod.rs: the commit of its Action id, the history of its
-- kind's descriptors, its row, and the rows that a new descriptor migrates.
use mikura.Common.{
  Bool, false, not, ◌&&◌, ◌||◌, Option, none, some, List, [], ◌∷◌, ◌++◌, retain, sort_by, ltb, ◌==◌,
  if◌then◌else◌, Result, ok, err,
}
use mikura.Common.Text.{Str, str_eq, contains_str}
use mikura.Common.Maps.{Map, get, insert, contains_key, add, str_key, pair_key}
use mikura.Errors.{Error}
use mikura.Record.{Props, ObjectRecord, effective, nonempty}
use mikura.Schema.Descriptor.{schema_kind, SchemaDescriptor, SchemaMigration, effective_version}
use mikura.Schema.Descriptor
use mikura.Schema.Check.{firsts}
use mikura.Schema.Migration
use mikura.Schema.Rows
use mikura.Value.Geo.{Floats}
use mikura.Store.{Identity, identity_key, Row, View, install_live, remember_action}

abbrev pub older : SchemaDescriptor → SchemaDescriptor → Bool
older a b = ltb (effective_version a) (effective_version b)

abbrev pub rows_or_none : Option (List SchemaDescriptor) → List SchemaDescriptor
rows_or_none none = []
rows_or_none (some rows) = rows

-- The row of this version is replaced, and the rows stay sorted by version.
unfoldable pub remember_schema : Str → SchemaDescriptor → View → View
unfolding get insert
remember_schema namespace d v =
    let rows = rows_or_none (get (namespace, d.kind) v.schema_history) in
    let others = retain (λ row. not (effective_version row == effective_version d)) rows in
    record v {
      schema_history =
          insert (namespace, d.kind) (sort_by older (others ++ (d ∷ []))) v.schema_history;
    }

-- The last row of a version before this one; the rows are sorted.
unfoldable pub previous_row :
    SchemaDescriptor → Option SchemaDescriptor → List SchemaDescriptor → Option SchemaDescriptor
previous_row d found [] = found
previous_row d found (row ∷ rows) = previous_row d (if older row d then some row else found) rows

-- The names that a migration may touch: those of the previous row and of the renames' sources.
abbrev pub keeps : SchemaDescriptor → SchemaDescriptor → Str → Bool
keeps previous d name =
    contains_str name previous.properties || contains_str name (firsts d.migration.rename)

abbrev pub kept : Option SchemaDescriptor → SchemaDescriptor → Props → Props
kept none d props = props
kept (some previous) d props = retain (λ (p : Str × Str). keeps previous d p.0) props

abbrev pub extras : Option SchemaDescriptor → SchemaDescriptor → Props → Props
extras none d props = []
extras (some previous) d props = retain (λ (p : Str × Str). not (keeps previous d p.0)) props

-- `entry(name).or_insert(value)`.
unfoldable pub or_insert_all : Props → Props → Props
unfolding contains_key insert
or_insert_all [] props = props
or_insert_all ((name, value) ∷ more) props =
    or_insert_all more (if contains_key name props then props else insert name value props)

module _ (f : Floats) where
  unfoldable pub remapped :
      Option SchemaDescriptor → SchemaDescriptor → Row → Result Error Props → Row
  unfolding or_insert_all
  remapped previous d row (err e) = row
  remapped previous d row (ok props) = record row {
    props = or_insert_all (extras previous d row.props) props;
  }

  unfoldable pub remap_row : Option SchemaDescriptor → SchemaDescriptor → Row → Row
  unfolding Migration.apply remapped
  remap_row previous d row =
      remapped previous d row (Migration.apply f d.migration (kept previous d row.props) false)

  unfoldable pub in_kind : Str → SchemaDescriptor → Identity → Bool
  unfolding str_eq
  in_kind namespace d (ns, kind, key) = str_eq ns namespace && str_eq kind d.kind

  unfoldable pub remap_rows :
      Str → Option SchemaDescriptor → SchemaDescriptor → Map Identity Row → Map Identity Row
  unfolding remap_row in_kind
  remap_rows namespace previous d [] = []
  remap_rows namespace previous d ((id, row) ∷ rows) =
      (id, (if in_kind namespace d id then remap_row previous d row else row))
      ∷ remap_rows namespace previous d rows

  unfoldable pub remap_kind : Str → SchemaDescriptor → View → View
  unfolding get previous_row remap_rows
  remap_kind namespace d v =
      let previous =
        previous_row d none (rows_or_none (get (namespace, d.kind) v.schema_history)) in
      record v { identity = remap_rows namespace previous d v.identity }

  -- The descriptor of a visible row of the schema kind, where it can be read.
  unfoldable pub described : ObjectRecord → Option SchemaDescriptor
  unfolding str_eq Rows.from_record
  described r =
      if str_eq r.kind schema_kind && not r.hidden
      then (elim (Rows.from_record r) [ ok d ↦ some d | err e ↦ none ])
      else none

  abbrev pub row_of : ObjectRecord → Row
  row_of r = record {
    gen = r.gen;
    hidden = r.hidden;
    action_id = nonempty r.action_id;
    schema_version = effective r.schema_version;
    props = r.props;
  }

  unfoldable pub remember_described : Str → Option SchemaDescriptor → View → View
  unfolding remember_schema
  remember_described namespace none v = v
  remember_described namespace (some d) v = remember_schema namespace d v

  unfoldable pub remap_described : Str → Option SchemaDescriptor → View → View
  unfolding remap_kind Descriptor.is_empty
  remap_described namespace none v = v
  remap_described namespace (some d) v =
      if Descriptor.is_empty d.migration then v else remap_kind namespace d v

  unfoldable pub know_namespace : Str → View → View
  unfolding add
  know_namespace namespace v = record v { namespaces = (add namespace v.namespaces).0 }

  unfoldable pub apply_record : ObjectRecord → View → View
  unfolding remember_action described remember_described know_namespace install_live remap_described
  apply_record r v =
      let noted = record v { action_commits = remember_action r v.action_commits } in
      let known = know_namespace r.namespace (remember_described r.namespace (described r) noted) in
      remap_described r.namespace (described r)
        (install_live (r.namespace, r.kind, r.key) (row_of r) known)
