-- ===== src/Examples/Store.antt =====
-- A record that is written under an Action id into an empty view, and a change set.
use mikura.Common.{
  ◌+◌, ◌^◌, ◌≤◌, ◌<◌, ◌≡◌, refl, arith, false, not, ◌&&◌, none, some, List, [], ◌∷◌, map, inl,
  if◌then◌else◌, ok, err,
}
use mikura.Common.Text.{ascii, str_eq}
use mikura.Common.Maps.{get}
use mikura.Errors.{expected_gen_mismatch, action_id_reused, body_conflict}
use mikura.Record.{ObjectRecord}
use mikura.Actions.{Edit, put, hide}
use mikura.Acl.{PropertyAcl}
use mikura.Store.Loads.{load_in_view}
use mikura.Store.Loads.Withheld.{Withholds, load_in_view-Withholds}
use mikura.Store.{
  identity_key, View, find_live, require_expected_gen, marker_props, marker_members,
  remember_action, same_props,
}
use mikura.Store.Markers.{member_of, marker_members-marker_props}
use mikura.Store.Generations.{gen_of, written, none_yet, then_write, written-grows, Writes-le}
use mikura.Store.Claims.{replay, schema, action_claim}
use mikura.Store.Claims.Replays.{IsFirst, action_claim-remember_action}
use mikura.Examples.Value.{whole_floats}

abbrev edits : List Edit
edits =
    put (ascii "incident") (ascii "inc-1") ((ascii "note", ascii "down") ∷ []) none
    ∷ hide (ascii "service") (ascii "api") (some 4)
    ∷ []

marker_members-marker_props_example : marker_members (marker_props edits) ≡ map member_of edits
marker_members-marker_props_example = marker_members-marker_props edits

abbrev empty : View
empty = record { namespaces = []; identity = []; action_commits = []; schema_history = [] }

abbrev incident : ObjectRecord
incident = record {
  gen = 0;
  namespace = ascii "ns";
  kind = ascii "incident";
  key = ascii "inc-1";
  hidden = false;
  action_id = some (ascii "act-1");
  props = (ascii "note", ascii "down") ∷ [];
  schema_version = 1;
}

room : gen_of (find_live (ascii "ns") (ascii "incident") (ascii "inc-1") empty) + 2 < 2 ^ 64
unfolding find_live get
room = omega arith

written-grows_example :
    (gen_of (find_live (ascii "ns") (ascii "incident") (ascii "inc-1") empty)
      < gen_of (
          find_live
            (ascii "ns")
            (ascii "incident")
            (ascii "inc-1")
            (written whole_floats incident empty)))
    × (require_expected_gen
          (ascii "ns")
          (ascii "incident")
          (ascii "inc-1")
          (some (gen_of (find_live (ascii "ns") (ascii "incident") (ascii "inc-1") empty)))
          (written whole_floats incident empty)
        ≡ err expected_gen_mismatch)
written-grows_example = written-grows whole_floats incident empty room

Writes-le_example :
    gen_of (get (ascii "ns", ascii "incident", ascii "inc-1") empty.identity)
    ≤ gen_of (
        get
          (ascii "ns", ascii "incident", ascii "inc-1")
          (written whole_floats incident empty).identity)
Writes-le_example =
    Writes-le whole_floats empty (written whole_floats incident empty)
      (ascii "ns", ascii "incident", ascii "inc-1") (then_write incident none_yet room)

is_first : IsFirst incident (ascii "act-1") empty
unfolding get str_eq
is_first = record { claimed = refl; full = refl; fresh = refl; plain = refl; visible = refl }

abbrev remembered : View
unfolding remember_action
remembered = record {
  namespaces = ascii "ns" ∷ [];
  identity = [];
  action_commits = remember_action incident [];
  schema_history = [];
}

no_schema : schema (ascii "ns") (ascii "incident") remembered ≡ ok none
unfolding schema remembered
no_schema = refl

same_commits : remembered.action_commits ≡ remember_action incident []
unfolding remembered
same_commits = refl

action_claim-remember_action_example :
    action_claim whole_floats
      (ascii "ns")
      (ascii "act-1")
      (ascii "incident")
      (ascii "inc-1")
      false
      ((ascii "note", ascii "up") ∷ [])
      remembered
    ≡ (if not
          (str_eq (ascii "incident") (ascii "incident") && str_eq (ascii "inc-1") (ascii "inc-1"))
        then err action_id_reused
        else if not (same_props incident.props ((ascii "note", ascii "up") ∷ []))
        then err body_conflict
        else ok replay)
action_claim-remember_action_example =
    action_claim-remember_action whole_floats incident (ascii "act-1") (ascii "incident")
      (ascii "inc-1") ((ascii "note", ascii "up") ∷ []) empty remembered is_first same_commits
      no_schema

-- A live row of which a request may not see the amount.
abbrev shelf : View
shelf = record {
  namespaces = ascii "ns" ∷ [];
  identity =
      (
        (ascii "ns", ascii "order", ascii "o-1"),
        record {
          gen = 3;
          hidden = false;
          action_id = none;
          schema_version = 1;
          props = (ascii "amount", ascii "10") ∷ (ascii "status", ascii "open") ∷ [];
        },
      )
      ∷ [];
  action_commits = [];
  schema_history = [];
}

abbrev clerk : PropertyAcl
clerk = record {
  denied = (ascii "order", ascii "amount") ∷ [];
  hide_kinds = [];
  hide_identities = [];
  row_filters = [];
}

abbrev given : ObjectRecord
given = record {
  gen = 3;
  namespace = ascii "ns";
  kind = ascii "order";
  key = ascii "o-1";
  hidden = false;
  action_id = none;
  props = (ascii "status", ascii "open") ∷ [];
  schema_version = 1;
}

loads_given : load_in_view (ascii "ns") (ascii "order") (ascii "o-1") clerk shelf ≡ ok given
unfolding load_in_view str_eq mikura.Acl.check
loads_given = refl

load_in_view-Withholds_example : Withholds clerk (ascii "order") (ascii "o-1") given
load_in_view-Withholds_example =
    load_in_view-Withholds (ascii "ns") (ascii "order") (ascii "o-1") clerk 1 shelf given
      (inl loads_given)
