-- ===== src/Record.antt =====
-- `ObjectRecord` of src/store/mod.rs. `gen` is a u64, `schema_version` a u32, and the texts are
-- UTF-8: `IsStorable` says so, with the limits of the log body.
use mikura.Common.{ℕ, ◌^◌, ◌<◌, ◌≡◌, ◌≢◌, Bool, Option, none, some, [], ◌∷◌, length, All}
use mikura.Common.{if◌then◌else◌, ltb, false}
use mikura.Common.Text.{Str, IsText}
use mikura.Common.Maps.{Map, get, str_key}

abbrev pub Props : Type 0
Props = Map Str Str

pub record ObjectRecord : Type 0 where
  pub gen : ℕ
  pub namespace : Str
  pub kind : Str
  pub key : Str
  pub hidden : Bool
  pub action_id : Option Str
  pub props : Props
  pub schema_version : ℕ

abbrev pub schema_version_one : ℕ
schema_version_one = 1

-- `ObjectRecord::default()`
abbrev pub default_record : ObjectRecord
default_record = record {
  gen = 0;
  namespace = [];
  kind = [];
  key = [];
  hidden = false;
  action_id = none;
  props = [];
  schema_version = 1;
}

-- A text that a two-byte length can carry.
pub record IsShort (s : Str) : Type 0 where
  pub text : IsText s
  pub short : length s < 2 ^ 16

abbrev pub AllShort : Option Str → Type 0
AllShort none = Unit
AllShort (some s) = IsShort s

pub record IsStorable (r : ObjectRecord) : Type 0 where
  pub gen_u64 : r.gen < 2 ^ 64
  pub named : r.namespace ≢ []
  pub namespace_short : IsShort r.namespace
  pub kind_short : IsShort r.kind
  pub key_short : IsShort r.key
  pub action_short : AllShort r.action_id
  pub props_count : length r.props < 2 ^ 16
  pub props_short : All (λ (p : Str × Str). IsShort p.0 × IsShort p.1) r.props
  pub version_u32 : r.schema_version < 2 ^ 32

-- An empty Action id is no Action id.
abbrev pub nonempty : Option Str → Option Str
nonempty none = none
nonempty (some []) = none
nonempty (some (c ∷ s)) = some (c ∷ s)

-- Version 0 means 1.
abbrev pub effective : ℕ → ℕ
effective v = if ltb 0 v then v else 1

-- Two records that no reader of the store tells apart: their maps agree at each key, and an absent
-- Action id or version is read as its default.
pub record SameRecord (r s : ObjectRecord) : Type 0 where
  pub gen : r.gen ≡ s.gen
  pub namespace : r.namespace ≡ s.namespace
  pub kind : r.kind ≡ s.kind
  pub key : r.key ≡ s.key
  pub hidden : r.hidden ≡ s.hidden
  pub action_id : nonempty r.action_id ≡ nonempty s.action_id
  pub props : (k : Str) → get k r.props ≡ get k s.props
  pub schema_version : effective r.schema_version ≡ effective s.schema_version
