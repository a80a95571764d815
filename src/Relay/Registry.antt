-- ===== src/Relay/Registry.antt =====
-- crates/weaver-server/src/tunnel/registry.rs: which connection serves which hostname. Each section under
-- the locks is one step; between them, at an `await`, other tasks may do any of the others. A hostname
-- is the bytes of its text; the announcements to the console and the copy of the active flag in the
-- database are left out, since nothing here reads them.
pub mod Keys
pub mod Eviction
use tunnel_weaver.Base.{
  ℕ, ◌+◌, ◌==◌, ◌&&◌, ◌||◌, if◌then◌else◌, Bool, true, false, List, [], ◌∷◌, ◌++◌, Option, none,
  some, is_some, Result, ok, err, bytes_eq, bytes_key, Eq, lookup, insert, remove,
  to_ascii_lowercase, ascii,
}
use tunnel_weaver.Mux.Error.{CloseCode}
use tunnel_weaver.Mux.Wire.{KeyId}
use tunnel_weaver.Relay.Registry.Keys.{key_beq, key_key, contains, add, without}

abbrev pub Host : Type 0
Host = List ℕ

-- `Identity`, and `Identity::hostname`.
pub record Identity : Type 0 where
  pub machine_id : ℕ
  pub person_id : ℕ
  pub person : List ℕ
  pub machine : List ℕ

unfoldable pub flat_hostname : List ℕ → List ℕ → List ℕ → List ℕ → Host
flat_hostname person machine service root =
    to_ascii_lowercase person
    ++ (b'-' ∷ to_ascii_lowercase machine
        ++ (b'-' ∷ to_ascii_lowercase service ++ (b'.' ∷ to_ascii_lowercase root)))

abbrev pub hostname : Identity → List ℕ → List ℕ → Host
hostname identity service root = flat_hostname identity.person identity.machine service root

-- A route, without its channel.
pub record TunnelRoute : Type 0 where
  pub hostname : Host
  pub service : List ℕ
  pub service_id : ℕ
  pub key_id : KeyId

-- A connection; its `close_tx` is there until it is used.
pub record ActiveConnection : Type 0 where
  pub connection_id : ℕ
  pub close_tx : Bool
  pub services : List Host

-- What the registry does to other parts: it asks a connection to close, and starts and stops a meter.
pub data Effect : Type 0 where
  close : (connection_id : ℕ) (code : CloseCode) → Effect
  meter : (service_id : ℕ) → Effect
  unmeter : (service_id : ℕ) → Effect

pub record TunnelRegistry : Type 0 where
  pub routes : List (Host × TunnelRoute)
  pub connections : List (KeyId × ActiveConnection)
  pub active_hosts : List Host
  pub next_conn_id : ℕ
  pub effects : List Effect

-- `TunnelRegistry::new`.
unfoldable pub new : TunnelRegistry
new = record { routes = []; connections = []; active_hosts = []; next_conn_id = 1; effects = [] }

unfoldable pub set_active : TunnelRegistry → Host → Bool → TunnelRegistry
set_active r name active =
    let lower = to_ascii_lowercase name in
    record r {
      active_hosts = if active then add lower r.active_hosts else without lower r.active_hosts;
    }

unfoldable pub is_active : TunnelRegistry → Host → Bool
is_active r name = contains (to_ascii_lowercase name) r.active_hosts

-- A route is removed, and its meter stopped.
abbrev pub drop_route : TunnelRegistry → Host → Option TunnelRoute → TunnelRegistry
drop_route r host none = r
drop_route r host (some route) = record r {
  routes = remove host r.routes;
  effects = r.effects ++ (Effect.unmeter route.service_id ∷ []);
}

-- The loop over the services of a connection that is gone.
unfoldable pub evict : List Host → TunnelRegistry → TunnelRegistry
unfolding set_active
evict [] r = r
evict (host ∷ hosts) r =
    evict hosts (set_active (drop_route r host (lookup host r.routes)) host false)

abbrev pub supersede : Option ActiveConnection → TunnelRegistry → TunnelRegistry
supersede none r = r
supersede (some old) r = evict old.services (record r {
  effects =
      if old.close_tx
      then r.effects ++ (Effect.close old.connection_id CloseCode.superseded ∷ [])
      else r.effects;
})

-- The number of a new connection, which is drawn before the lock is taken.
abbrev pub draw : TunnelRegistry → TunnelRegistry × ℕ
draw r = (record r { next_conn_id = r.next_conn_id + 1 }, r.next_conn_id)

-- The section under the lock of the connections.
unfoldable pub connect : TunnelRegistry → KeyId → ℕ → TunnelRegistry
unfolding evict
connect r key_id conn_id = supersede (lookup key_id r.connections) (record r {
  connections =
      insert key_id (record { connection_id = conn_id; close_tx = true; services = [] })
        r.connections;
})

-- The two together, with no other task in between; Services/Leases/Stale takes them one by one.
unfoldable pub register_connection : TunnelRegistry → KeyId → TunnelRegistry × ℕ
unfolding connect
register_connection r key_id =
    let (drawn, conn_id) = draw r in (connect drawn key_id conn_id, conn_id)

unfoldable pub is_connected : TunnelRegistry → KeyId → Bool
is_connected r key_id = is_some (lookup key_id r.connections)

-- The connection's `close_tx` is taken; `receiving` says whether its other end is still there.
abbrev pub take_close :
    TunnelRegistry → KeyId → CloseCode → Bool → Option ActiveConnection → TunnelRegistry × Bool
take_close r key_id code receiving none = (r, false)
take_close r key_id code receiving (some conn) =
    if conn.close_tx
    then (
      record r {
        connections = insert key_id (record conn { close_tx = false }) r.connections;
        effects =
            if receiving
            then r.effects ++ (Effect.close conn.connection_id code ∷ [])
            else r.effects;
      },
      receiving,
    )
    else (r, false)

unfoldable pub close_connection : TunnelRegistry → KeyId → CloseCode → Bool → TunnelRegistry × Bool
close_connection r key_id code receiving =
    take_close r key_id code receiving (lookup key_id r.connections)

abbrev pub drop_connection : TunnelRegistry → KeyId → ℕ → Option ActiveConnection → TunnelRegistry
drop_connection r key_id connection_id none = r
drop_connection r key_id connection_id (some entry) =
    if entry.connection_id == connection_id
    then evict entry.services (record r { connections = remove key_id r.connections })
    else r

unfoldable pub unregister_connection : TunnelRegistry → KeyId → ℕ → TunnelRegistry
unfolding evict
unregister_connection r key_id connection_id =
    drop_connection r key_id connection_id (lookup key_id r.connections)
