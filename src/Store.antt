-- ===== src/Store.antt =====
-- src/store/mod.rs: the live projection of the log, which decides what a write may do. Interned ids are
-- read as the texts that they stand for, so that a live identity is a triple of texts, and its row holds
-- the properties that the join maps or the table of hidden properties hold of it. The store is one
-- without encryption, so that no tenant's key is revoked.
pub mod Markers
pub mod Schemas
pub mod Loads
pub mod Claims
pub mod Generations
use mikura.Common.{
  ℕ, zero, suc, ◌+◌, ◌-◌, ◌%◌, ◌^◌, ◌≡◌, ◌↔◌, refl, arith, Bool, true, false, not, ◌&&◌, ◌||◌,
  Option, none, some, List, [], ◌∷◌, ◌++◌, length, any, ltb, leb, ◌==◌, if◌then◌else◌, Result, ok,
  err, ◌>>=◌, ◌>>◌, guard,
}
use mikura.Common.Text.{Str, ascii, str_eq, str_eq_iff}
use mikura.Common.Strings.{show_nat}
use mikura.Common.Maps.{Key, Map, get, insert, str_key, pair_key}
use mikura.Errors.{Error, expected_gen_mismatch}
use mikura.Record.{Props, ObjectRecord}
use mikura.Actions.{Edit, put, hide, change_set_kind, kind_of, key_of, is_hide}
use mikura.Schema.Descriptor.{SchemaDescriptor}

abbrev pub Identity : Type 0
Identity = Str × Str × Str

abbrev pub identity_eq : Identity → Identity → Bool
identity_eq (a, b, c) (x, y, z) = str_eq a x && str_eq b y && str_eq c z

pub identity_eq_iff : (p q : Identity) → (identity_eq p q ≡ true) ↔ (p ≡ q)
identity_eq_iff (a, b, c) (x, y, z) = (
  λ h. ground (arith, str_eq_iff a x, str_eq_iff b y, str_eq_iff c z),
  λ e. ground (arith, str_eq_iff a x, str_eq_iff b y, str_eq_iff c z),
)

instance abbrev pub identity_key : Key Identity
identity_key = record { eq = identity_eq; eq_iff = identity_eq_iff }

-- `LiveMeta` with the properties of the identity.
pub record Row : Type 0 where
  pub gen : ℕ
  pub hidden : Bool
  pub action_id : Option Str
  pub schema_version : ℕ
  pub props : Props

pub record SetMember : Type 0 where
  pub hide : Bool
  pub kind : Str
  pub key : Str
  pub props : Option Props

pub record ActionCommit : Type 0 where
  pub namespace : Str
  pub kind : Str
  pub key : Str
  pub gen : ℕ
  pub hidden : Bool
  pub hide_applied : Bool
  pub props : Props
  pub members : List SetMember

pub record View : Type 0 where
  pub namespaces : List Str
  pub identity : Map Identity Row
  pub action_commits : Map (Str × Str) ActionCommit
  pub schema_history : Map (Str × Str) (List SchemaDescriptor)

unfoldable pub find_live : Str → Str → Str → View → Option Row
unfolding get
find_live namespace kind key v = get (namespace, kind, key) v.identity

unfoldable pub install_live : Identity → Row → View → View
unfolding insert
install_live id row v = record v { identity = insert id row v.identity }

-- The three properties that a marker has for each edit.
pub data Part : Type 0 where
  edit_op edit_kind edit_key : Part

abbrev pub part_name : Part → Str
part_name Part.edit_op = ascii "op"
part_name Part.edit_kind = ascii "kind"
part_name Part.edit_key = ascii "key"

-- `format!("{i}.op")` and the like.
unfoldable pub part_key : ℕ → Part → Str
unfolding show_nat
part_key i p = show_nat i ++ (46 ∷ part_name p)

abbrev pub op_text : Bool → Str
op_text true = ascii "hide"
op_text false = ascii "put"

unfoldable pub marker_from : ℕ → List Edit → Props
unfolding part_key
marker_from i [] = []
marker_from i (edit ∷ edits) =
    (part_key i Part.edit_op, op_text (is_hide edit))
    ∷ (part_key i Part.edit_kind, kind_of edit)
    ∷ (part_key i Part.edit_key, key_of edit)
    ∷ marker_from (suc i) edits

unfoldable pub marker_props : List Edit → Props
unfolding marker_from
marker_props edits = marker_from 0 edits

abbrev pub member_of_parts : Option Str → Option Str → Option Str → Option SetMember
unfolding str_eq
member_of_parts (some op) (some kind) (some key) =
    some (record { hide = str_eq op (ascii "hide"); kind = kind; key = key; props = none })
member_of_parts _ _ _ = none

-- `map_while` ends at the first index without its three properties, and each index takes three, so a
-- fuel above the number of properties is enough.
unfoldable pub members_from : ℕ → ℕ → Props → List SetMember
unfolding get part_key member_of_parts
members_from zero i props = []
members_from (suc fuel) i props =
    let rest = members_from fuel (suc i) props in
    elim (member_of_parts (get (part_key i Part.edit_op) props)
      (get (part_key i Part.edit_kind) props) (get (part_key i Part.edit_key) props)) [
        | none ↦ []
        | some member ↦ member ∷ rest
      ]

unfoldable pub marker_members : Props → List SetMember
unfolding members_from
marker_members props = members_from (suc (length props)) 0 props

abbrev pub is_open : SetMember → Str → Str → Bool
unfolding str_eq
is_open member kind key =
    not member.hide
    && (elim member.props [ none ↦ true | some props ↦ false ])
    && str_eq member.kind kind
    && str_eq member.key key

-- The first put of the identity that has no body yet takes this one.
unfoldable pub fill_member : Str → Str → Props → List SetMember → List SetMember
unfolding is_open
fill_member kind key props [] = []
fill_member kind key props (member ∷ members) =
    if is_open member kind key
    then record member { props = some props } ∷ members
    else member ∷ fill_member kind key props members

-- `==` of two maps.
unfoldable pub covers : Props → Props → Bool
unfolding get str_eq
covers [] other = true
covers ((name, value) ∷ props) other =
    (elim (get name other) [ none ↦ false | some v ↦ str_eq value v ]) && covers props other

abbrev pub same_props : Props → Props → Bool
unfolding covers
same_props a b = (length a == length b) && covers a b

unfoldable pub opened : ObjectRecord → ActionCommit
unfolding marker_members str_eq
opened r = record {
  namespace = r.namespace;
  kind = r.kind;
  key = r.key;
  gen = r.gen;
  hidden = r.hidden;
  hide_applied = false;
  props = r.props;
  members = if str_eq r.kind change_set_kind then marker_members r.props else [];
}

-- What a record under an Action id adds to the commit of that id.
unfoldable pub add_to_commit : ObjectRecord → ActionCommit → ActionCommit
unfolding fill_member str_eq same_props
add_to_commit r commit =
    if str_eq commit.kind change_set_kind
    then (if r.hidden
        then commit
        else record commit { members = fill_member r.kind r.key r.props commit.members })
    else if r.hidden
        && not commit.hidden
        && str_eq commit.namespace r.namespace
        && str_eq commit.kind r.kind
        && str_eq commit.key r.key
        && same_props commit.props r.props
    then record commit { hide_applied = true }
    else commit

unfoldable pub commit_under : ObjectRecord → Option ActionCommit → ActionCommit
unfolding opened
commit_under r none = opened r
commit_under r (some commit) = commit

unfoldable pub remember_under :
    Option Str → ObjectRecord → Map (Str × Str) ActionCommit → Map (Str × Str) ActionCommit
unfolding get insert commit_under add_to_commit
remember_under none r commits = commits
remember_under (some id) r commits =
    if length id == 0
    then commits
    else insert (r.namespace, id) (add_to_commit r (commit_under r (get (r.namespace, id) commits)))
        commits

unfoldable pub remember_action :
    ObjectRecord → Map (Str × Str) ActionCommit → Map (Str × Str) ActionCommit
unfolding remember_under
remember_action r commits = remember_under r.action_id r commits

-- The generation of a row, with 0 for no row.
abbrev pub gen_matches : ℕ → Option Row → Bool
gen_matches expected none = expected == 0
gen_matches expected (some row) = row.gen == expected

unfoldable pub require_expected_gen : Str → Str → Str → Option ℕ → View → Result Error (Unit {0})
unfolding find_live
require_expected_gen namespace kind key none v = ok tt
require_expected_gen namespace kind key (some expected) v =
    if gen_matches expected (find_live namespace kind key v)
    then ok tt
    else err expected_gen_mismatch

-- `gen.max(1) + 1` of u64.
abbrev pub next_gen : ℕ → ℕ
next_gen gen = ((if ltb gen 1 then 1 else gen) + 1) % 2 ^ 64

abbrev pub gen_for : Option Row → ℕ → ℕ
gen_for none gen = if gen == 0 then 1 else gen
gen_for (some row) gen = next_gen row.gen

unfoldable pub assign_gen : ObjectRecord → View → ObjectRecord
unfolding find_live
assign_gen r v = record r { gen = gen_for (find_live r.namespace r.kind r.key v) r.gen }
