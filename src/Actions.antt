-- ===== src/Actions.antt =====
-- src/actions.rs: what a clerk asks of the store.
use mikura.Common.{ℕ, Bool, true, false, Option, List}
use mikura.Common.Text.{Str, ascii}
use mikura.Record.{Props}

pub record Action : Type 0 where
  pub id : Str
  pub namespace : Str
  pub kind : Str
  pub key : Str
  pub props : Props

abbrev pub change_set_kind : Str
change_set_kind = ascii "mikura.change_set"

abbrev pub change_set_bound : ℕ
change_set_bound = 64

-- The last argument of each is `expected_gen`.
pub data Edit : Type 0 where
  put : Str → Str → Props → Option ℕ → Edit
  hide : Str → Str → Option ℕ → Edit

pub record ChangeSet : Type 0 where
  pub id : Str
  pub namespace : Str
  pub edits : List Edit

abbrev pub kind_of : Edit → Str
kind_of (put kind key props expected) = kind
kind_of (hide kind key expected) = kind

abbrev pub key_of : Edit → Str
key_of (put kind key props expected) = key
key_of (hide kind key expected) = key

abbrev pub expected_gen : Edit → Option ℕ
expected_gen (put kind key props expected) = expected
expected_gen (hide kind key expected) = expected

abbrev pub is_hide : Edit → Bool
is_hide (put kind key props expected) = false
is_hide (hide kind key expected) = true
