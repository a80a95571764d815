-- ===== src/Abuse/Policy.antt =====
-- crates/weaver-abuse/src/policy.rs: budgets, policies and the views that select them. An identifier is
-- the bytes of its text.
use tunnel_weaver.Base.{ℕ, if◌then◌else◌, List, [], ◌∷◌, Option, none, some, bytes_eq, ascii}
use tunnel_weaver.Abuse.Gcra.{Quota}
use tunnel_weaver.Abuse.Key.{KeyKind}

abbrev pub PolicyId : Type 0
PolicyId = List ℕ

abbrev pub ViewId : Type 0
ViewId = List ℕ

abbrev pub relay_web : List ℕ
relay_web = ascii "relay-web"

pub record Budget : Type 0 where
  pub key : KeyKind
  pub quota : Quota

pub data StoreErrorPolicy : Type 0 where
  fail_closed degraded : StoreErrorPolicy

pub record Policy : Type 0 where
  pub id : PolicyId
  pub budgets : List Budget
  pub on_store_error : StoreErrorPolicy

pub record PolicySet : Type 0 where
  pub policies : List Policy

abbrev pub find_policy : PolicyId → List Policy → Option Policy
find_policy id [] = none
find_policy id (p ∷ ps) = if bytes_eq p.id id then some p else find_policy id ps

-- `PolicySet::get`.
unfoldable pub get_policy : PolicySet → PolicyId → Option Policy
get_policy set id = find_policy id set.policies

pub record RouteTable : Type 0 where
  pub routes : List (ViewId × PolicyId)

abbrev pub find_route : ViewId → List (ViewId × PolicyId) → Option PolicyId
find_route view [] = none
find_route view ((candidate, policy) ∷ rest) =
    if bytes_eq candidate view then some policy else find_route view rest

-- `RouteTable::get`.
unfoldable pub get_route : RouteTable → ViewId → Option PolicyId
get_route table view = find_route view table.routes
