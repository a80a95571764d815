-- ===== src/Relay/Services.antt =====
-- crates/weaver-server/src/tunnel/registry.rs: the services that the connections register.
pub mod Leases
pub mod Closing
pub mod Activity
use tunnel_weaver.Base.{
  ℕ, ◌==◌, ◌&&◌, if◌then◌else◌, Bool, true, false, List, [], ◌∷◌, ◌++◌, Option, none, some, is_some,
  Result, ok, err, bytes_eq, bytes_key, lookup, insert, remove, to_ascii_lowercase,
}
use tunnel_weaver.Mux.Wire.{KeyId}
use tunnel_weaver.Relay.Control.{RefusalCode}
use tunnel_weaver.Relay.Registry.{
  Host, Identity, hostname, TunnelRoute, ActiveConnection, Effect, TunnelRegistry, set_active,
  is_active,
}
use tunnel_weaver.Relay.Registry.Keys.{key_beq, key_key, contains, add, without}

-- The identity, and the first test for a duplicate.
abbrev pub claim : TunnelRegistry → Option Identity → List ℕ → List ℕ → Result RefusalCode Host
claim r none service domain = err RefusalCode.unauthorized
claim r (some identity) service domain =
    let host = hostname identity service domain in
    if is_some (lookup host r.routes) then err RefusalCode.already_registered else ok host

-- The connection's own set of services, if it is still the one that the machine holds.
abbrev pub hold : ℕ → Host → Option ActiveConnection → KeyId → TunnelRegistry → TunnelRegistry
hold connection_id host none key_id r = r
hold connection_id host (some conn) key_id r =
    if conn.connection_id == connection_id
    then record r {
      connections = insert key_id (record conn { services = add host conn.services }) r.connections;
    }
    else r

-- The section under the lock of the routes: the second test for a duplicate, and the route.
abbrev pub insert_route :
    TunnelRegistry → KeyId → List ℕ → Host → ℕ → TunnelRegistry × Result RefusalCode Host
insert_route r key_id service host service_id =
    let route : TunnelRoute = record {
      hostname = host;
      service = service;
      service_id = service_id;
      key_id = key_id;
    } in
    if is_some (lookup host r.routes)
    then (r, err RefusalCode.already_registered)
    else (record r { routes = insert host route r.routes }, ok host)

-- The section of the meter.
abbrev pub meter : ℕ → TunnelRegistry → TunnelRegistry
meter service_id r = record r { effects = r.effects ++ (Effect.meter service_id ∷ []) }

-- The places between the sections of a registration at which no lock is held.
pub data Gap : Type 0 where
  inserted metered activated : Gap

-- What other tasks do to the registry at each of these places; `alone` is a registration that none comes
-- in between of.
abbrev pub Others : Type 0
Others = Gap → TunnelRegistry → TunnelRegistry

abbrev pub alone : Others
alone gap r = r

-- The sections after that of the routes: the meter, the active flag, and the section under the lock of the
-- connections.
abbrev pub announce_route :
    Others
    → KeyId
    → ℕ
    → ℕ
    → TunnelRegistry × Result RefusalCode Host
    → TunnelRegistry × Result RefusalCode Host
announce_route others key_id connection_id service_id (r, err code) = (r, err code)
announce_route others key_id connection_id service_id (r, ok host) =
    let metered = meter service_id (others Gap.inserted r) in
    let activated = set_active (others Gap.metered metered) host true in
    let r' = others Gap.activated activated in
    (hold connection_id host (lookup key_id r'.connections) key_id r', ok host)

-- From the second test for a duplicate to the wait for the certificate.
unfoldable pub publish :
    Others
    → TunnelRegistry
    → KeyId
    → ℕ
    → List ℕ
    → Host
    → ℕ
    → TunnelRegistry × Result RefusalCode Host
unfolding set_active
publish others r key_id connection_id service host service_id =
    announce_route others key_id connection_id service_id
      (insert_route r key_id service host service_id)

abbrev pub is_routed_to : KeyId → Option TunnelRoute → Bool
is_routed_to key_id none = false
is_routed_to key_id (some route) = key_beq route.key_id key_id

-- After the wait, the active flag is set to what the routes say by then.
unfoldable pub settle : TunnelRegistry → KeyId → Host → TunnelRegistry
settle r key_id host = set_active r host (is_routed_to key_id (lookup host r.routes))

-- After the sections that publish: the wait, during which `ensure` is done by others.
abbrev pub finish :
    (TunnelRegistry → TunnelRegistry)
    → KeyId
    → TunnelRegistry × Result RefusalCode Host
    → TunnelRegistry × Result RefusalCode Host
finish ensure key_id (r, err code) = (r, err code)
finish ensure key_id (r, ok host) = (settle (ensure r) key_id host, ok host)

-- After the database has answered, with the service's id if it was written.
abbrev pub persisted :
    Others
    → (TunnelRegistry → TunnelRegistry)
    → KeyId
    → ℕ
    → List ℕ
    → Host
    → TunnelRegistry × Option ℕ
    → TunnelRegistry × Result RefusalCode Host
persisted others ensure key_id connection_id service host (r, none) = (r, err RefusalCode.other)
persisted others ensure key_id connection_id service host (r, some service_id) =
    finish ensure key_id (publish others r key_id connection_id service host service_id)

abbrev pub claimed :
    (TunnelRegistry → TunnelRegistry × Option ℕ)
    → Others
    → (TunnelRegistry → TunnelRegistry)
    → TunnelRegistry
    → KeyId
    → ℕ
    → List ℕ
    → Result RefusalCode Host
    → TunnelRegistry × Result RefusalCode Host
claimed persist others ensure r key_id connection_id service (err code) = (r, err code)
claimed persist others ensure r key_id connection_id service (ok host) =
    persisted others ensure key_id connection_id service host (persist r)

-- `persist` and `ensure` are the two waits: what the registry has become at their end, and the answer
-- of the database. `others` is what is done between the sections of its own.
unfoldable pub register_service :
    (TunnelRegistry → TunnelRegistry × Option ℕ)
    → Others
    → (TunnelRegistry → TunnelRegistry)
    → TunnelRegistry
    → Option Identity
    → List ℕ
    → KeyId
    → ℕ
    → List ℕ
    → TunnelRegistry × Result RefusalCode Host
unfolding publish settle
register_service persist others ensure r identity domain key_id connection_id service =
    claimed persist others ensure r key_id connection_id service (claim r identity service domain)

abbrev pub release : Host → Option ActiveConnection → KeyId → TunnelRegistry → TunnelRegistry
release host none key_id r = r
release host (some conn) key_id r = record r {
  connections = insert key_id (record conn { services = without host conn.services }) r.connections;
}

abbrev pub drop_service : TunnelRegistry → KeyId → Host → Option TunnelRoute → TunnelRegistry
drop_service r key_id host none = r
drop_service r key_id host (some route) =
    if key_beq route.key_id key_id
    then release host (lookup key_id r.connections) key_id (
        set_active
          (record r {
            routes = remove host r.routes;
            effects = r.effects ++ (Effect.unmeter route.service_id ∷ []);
          })
          host false)
    else r

unfoldable pub unregister_service : TunnelRegistry → KeyId → Host → TunnelRegistry
unregister_service r key_id name =
    let lower = to_ascii_lowercase name in drop_service r key_id lower (lookup lower r.routes)

-- The row of `domains` names the service; the route must agree.
abbrev pub agreeing : ℕ → Option TunnelRoute → Option TunnelRoute
agreeing service_id none = none
agreeing service_id (some route) = if route.service_id == service_id then some route else none

-- `domain` is the answer of the database: the service that the hostname is linked to.
unfoldable pub resolve : TunnelRegistry → (Host → Option ℕ) → Host → Option TunnelRoute
resolve r domain name =
    let lower = to_ascii_lowercase name in
    elim (domain lower) [
      | none ↦ none
      | some service_id ↦ agreeing service_id (lookup lower r.routes)
    ]
