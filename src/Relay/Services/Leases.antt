-- ===== src/Relay/Services/Leases.antt =====
-- The routes and the connections that hold them.
pub mod Tables
pub mod Steps
pub mod Numbers
pub mod Sections
pub mod Stale
use tunnel_weaver.Base.{
  ℕ, ◌≡◌, ◌≢◌, refl, ap, ◌∙◌, sym, subst, ◌==◌, ◌||◌, if◌then◌else◌, if_rule, Bool, Bool-cases, inl,
  inr, true, false, List, [], ◌∷◌, Option, Option-cases, none, some, bytes_eq, bytes_eq_iff,
  bytes_key, lookup, insert, remove, lookup-insert, lookup-remove, to_ascii_lowercase, arith,
}
use tunnel_weaver.Mux.Error.{CloseCode}
use tunnel_weaver.Mux.Wire.{KeyId}
use tunnel_weaver.Relay.Registry.{
  Host, TunnelRoute, ActiveConnection, TunnelRegistry, set_active, evict, supersede,
  register_connection, take_close, close_connection, drop_connection, unregister_connection,
}
use tunnel_weaver.Relay.Registry.Eviction.{evict-routes, evict-connections}
use tunnel_weaver.Relay.Registry.Keys.{
  key_beq, key_beq_iff, key_key, contains, contains-add, contains-without,
}
use tunnel_weaver.Relay.Services.{
  publish, insert_route, hold, unregister_service, drop_service, release,
}

-- The two tables, as functions.
abbrev pub Routes : Type 0
Routes = Host → Option TunnelRoute

abbrev pub Connections : Type 0
Connections = KeyId → Option ActiveConnection

-- A connection holds a host only if the host's route is its machine's.
abbrev pub IsOwned : Routes → Connections → Type 0
IsOwned routes conns =
    (k : KeyId) (c : ActiveConnection) (h : Host)
    → conns k ≡ some c
    → contains h c.services ≡ true
    → (route : TunnelRoute) × (routes h ≡ some route) × (route.key_id ≡ k)

-- A route is held by the connection of its machine.
abbrev pub IsHeld : Routes → Connections → Type 0
IsHeld routes conns =
    (h : Host) (route : TunnelRoute)
    → routes h ≡ some route
    → (c : ActiveConnection) × (conns route.key_id ≡ some c) × (contains h c.services ≡ true)

abbrev pub IsLeased : Routes → Connections → Type 0
IsLeased routes conns = IsOwned routes conns × IsHeld routes conns

-- Every route is held by the connection of the machine that it leads to, and by no other.
abbrev pub IsConsistent : TunnelRegistry → Type 0
IsConsistent r = IsLeased (λ h. lookup h r.routes) (λ k. lookup k r.connections)

-- Tables that agree everywhere are as consistent.
pub IsLeased-same :
    (routes routes' : Routes) (conns conns' : Connections)
    → ((h : Host) → routes' h ≡ routes h)
    → ((k : KeyId) → conns' k ≡ conns k)
    → IsLeased routes conns
    → IsLeased routes' conns'
IsLeased-same routes routes' conns conns' same same' l = (
  (λ k c h e i.
      let owned = l.0 k c h (sym (same' k) ∙ e) i in (owned.0, same h ∙ owned.1, owned.2)),
  (λ h route e.
      let held = l.1 h route (sym (same h) ∙ e) in (held.0, same' route.key_id ∙ held.1, held.2)),
)

abbrev pub services_of : Option ActiveConnection → List Host
services_of none = []
services_of (some c) = c.services
