-- ===== src/Relay/Rename.antt =====
-- crates/weaver-server/src/tunnel/registry.rs, `rename_machine`: the routes of a machine move to the
-- hostnames that its new name gives.
pub mod Derived
use tunnel_weaver.Base.{
  ℕ, ◌+◌, if◌then◌else◌, not, Bool, true, false, List, [], ◌∷◌, Option, none, some, bytes_eq,
  bytes_key, lookup, insert, remove,
}
use tunnel_weaver.Mux.Wire.{KeyId}
use tunnel_weaver.Relay.Registry.{
  Host, Identity, hostname, TunnelRoute, ActiveConnection, TunnelRegistry, set_active, is_active,
}
use tunnel_weaver.Relay.Registry.Keys.{key_beq, key_key}

-- The hosts whose routes lead to a machine.
unfoldable pub hosts_of : KeyId → List (Host × TunnelRoute) → List Host
hosts_of key [] = []
hosts_of key ((host, route) ∷ routes) =
    let rest = hosts_of key routes in if key_beq route.key_id key then host ∷ rest else rest

-- The active flag moves along where the hostname changes.
abbrev pub move_flag : Host → Host → TunnelRegistry → TunnelRegistry
move_flag old next r =
    if not (bytes_eq next old)
    then set_active (set_active r old false) next (is_active r old)
    else r

abbrev pub move_route :
    Identity → List ℕ → Host → Option TunnelRoute → TunnelRegistry → TunnelRegistry
move_route identity domain old none r = r
move_route identity domain old (some route) r =
    let next = hostname identity route.service domain in
    let moved = move_flag old next (record r { routes = remove old r.routes }) in
    record moved { routes = insert next (record route { hostname = next }) moved.routes }

abbrev pub one_if : Option TunnelRoute → ℕ
one_if none = 0
one_if (some route) = 1

-- The loop over the machine's hosts, and how many routes were moved.
unfoldable pub move_routes : Identity → List ℕ → List Host → TunnelRegistry → TunnelRegistry × ℕ
unfolding set_active is_active
move_routes identity domain [] r = (r, 0)
move_routes identity domain (old ∷ hosts) r =
    let route = lookup old r.routes in
    let (r', n) = move_routes identity domain hosts (move_route identity domain old route r) in
    (r', one_if route + n)

-- The section under the lock of the connections: the machine's connection holds what was routed to the machine
-- when the lock of the routes was released.
abbrev pub hold_live : KeyId → List Host → Option ActiveConnection → TunnelRegistry → TunnelRegistry
hold_live key live none r = r
hold_live key live (some conn) r = record r {
  connections = insert key (record conn { services = live }) r.connections;
}

-- `identity` is what the database says by then; the wait for it comes first. `others` is what other tasks
-- do between the two sections.
unfoldable pub rename_machine :
    (TunnelRegistry → TunnelRegistry)
    → TunnelRegistry
    → KeyId
    → Option Identity
    → List ℕ
    → TunnelRegistry × ℕ
unfolding hosts_of move_routes
rename_machine others r key none domain = (r, 0)
rename_machine others r key (some identity) domain =
    let (moved, n) = move_routes identity domain (hosts_of key r.routes) r in
    let live = hosts_of key moved.routes in
    let r' = others moved in (hold_live key live (lookup key r'.connections) r', n)
