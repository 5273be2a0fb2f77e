-- ===== src/Request.antt =====
-- src/objectset.rs: the request of an evaluation. `object_bound`, `page_size` and `max_groups` are
-- usize. `Aggregate` has one variant. `Vec<Predicate>` inside `Predicate` is the type `Predicates`.
use mikura.Common.{ℕ, Bool, Option, List, [], ◌∷◌, ◌++◌}
use mikura.Common.Text.{Str}
use mikura.Acl.{PropertyAcl}

pub data Aggregate : Type 0 where
  count_and_sum : Aggregate

pub record ExactMatch : Type 0 where
  pub property : Str
  pub value : Str

mutual
  pub data Predicate : Type 0 where
    eq neq : Str → Str → Predicate
    range : Str → Option Str → Option Str → Predicate
    missing : Str → Predicate
    and_all or_any : Predicates → Predicate
    negate : Predicate → Predicate
    bbox : Str → Str → Str → Str → Str → Predicate

  pub data Predicates : Type 0 where
    nil : Predicates
    cons : Predicate → Predicates → Predicates

-- `Predicate::properties`, in the order of `collect_properties`.
unfoldable mutual
  pub properties : Predicate → List Str
  properties (eq property value) = property ∷ []
  properties (neq property value) = property ∷ []
  properties (range property min max) = property ∷ []
  properties (missing property) = property ∷ []
  properties (and_all args) = properties_all args
  properties (or_any args) = properties_all args
  properties (negate inner) = properties inner
  properties (bbox property min_lat min_lon max_lat max_lon) = property ∷ []

  pub properties_all : Predicates → List Str
  properties_all nil = []
  properties_all (cons p ps) = properties p ++ properties_all ps

pub record Hop : Type 0 where
  pub far_kind : Str
  pub join_property : Str
  pub incoming : Bool
  pub predicate : Option Predicate

pub record Sort : Type 0 where
  pub property : Str
  pub descending : Bool
  pub nearest : Option Str

pub record Breakdown : Type 0 where
  pub group_by : List Str
  pub max_groups : ℕ
  pub distinct : Option Str

pub record EvaluateRequest : Type 0 where
  pub namespace : Str
  pub root_kind : Str
  pub hops : List Hop
  pub sum_kind : Str
  pub sum_property : Str
  pub aggregate : Aggregate
  pub acl : PropertyAcl
  pub filter : Option ExactMatch
  pub predicate : Option Predicate
  pub object_bound : ℕ
  pub sort : Option Sort
  pub then_by : List Sort
  pub page_size : ℕ
  pub cursor : Option Str
  pub breakdown : Option Breakdown
