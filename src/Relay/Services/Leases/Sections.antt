-- ===== src/Relay/Services/Leases/Sections.antt =====
-- crates/weaver-server/src/tunnel/registry.rs, one section after another, as the tasks of the relay go
-- through them.
use tunnel_weaver.Base.{ℕ, ◌≤◌, ◌∷◌, selected, delete_rows, ◌==◌, Bool, List, [], bytes_key, lookup}
use tunnel_weaver.Mux.Error.{CloseCode}
use tunnel_weaver.Mux.Wire.{KeyId}
use tunnel_weaver.Relay.Registry.{
  Host, Identity, TunnelRegistry, set_active, draw, connect, new, close_connection,
  unregister_connection, draw, connect, new,
}
use tunnel_weaver.Relay.Registry.Keys.{key_key}
use tunnel_weaver.Relay.Services.{hold, insert_route, meter, settle, unregister_service}
use tunnel_weaver.Relay.Rename.{hosts_of, move_routes, hold_live}

-- The sections that change the registry, each under its locks, but for those of a new connection: a
-- registration and a rename are several of them, in any order and with any arguments.
pub data Section : TunnelRegistry → TunnelRegistry → Type 0 where
  disconnect :
      (r : TunnelRegistry) (key : KeyId) (id : ℕ) → Section r (unregister_connection r key id)
  close :
      (r : TunnelRegistry) (key : KeyId) (code : CloseCode) (receiving : Bool)
      → Section r (close_connection r key code receiving).0
  routed :
      (r : TunnelRegistry) (key : KeyId) (service : List ℕ) (host : Host) (service_id : ℕ)
      → Section r (insert_route r key service host service_id).0
  metered : (r : TunnelRegistry) (service_id : ℕ) → Section r (meter service_id r)
  flagged :
      (r : TunnelRegistry) (host : Host) (active : Bool) → Section r (set_active r host active)
  held :
      (r : TunnelRegistry) (key : KeyId) (id : ℕ) (host : Host)
      → Section r (hold id host (lookup key r.connections) key r)
  settled : (r : TunnelRegistry) (key : KeyId) (host : Host) → Section r (settle r key host)
  leave :
      (r : TunnelRegistry) (key : KeyId) (host : Host) → Section r (unregister_service r key host)
  remapped :
      (r : TunnelRegistry) (key : KeyId) (identity : Identity) (domain : List ℕ)
      → Section r (move_routes identity domain (hosts_of key r.routes) r).0
  renamed :
      (r : TunnelRegistry) (key : KeyId) (live : List Host)
      → Section r (hold_live key live (lookup key r.connections) r)

abbrev pub is_number : ℕ → ℕ → Bool
is_number id n = n == id

-- The registry, and the numbers that were drawn for connections that are not in its table yet.
pub record World : Type 0 where
  pub registry : TunnelRegistry
  pub drawn : List ℕ

abbrev pub IsDrawn : World → ℕ → Type 0
IsDrawn w id = 1 ≤ selected (is_number id) w.drawn

abbrev pub draw_number : World → World
draw_number w = record { registry = (draw w.registry).0; drawn = (draw w.registry).1 ∷ w.drawn }

abbrev pub connect_as : World → KeyId → ℕ → World
connect_as w key id = record {
  registry = connect w.registry key id;
  drawn = delete_rows (is_number id) w.drawn;
}

pub data Step : World → World → Type 0 where
  drawing : (w : World) → Step w (draw_number w)
  connecting : (w : World) (key : KeyId) (id : ℕ) → IsDrawn w id → Step w (connect_as w key id)
  section :
      (w : World) (s : TunnelRegistry)
      → Section w.registry s
      → Step w (record { registry = s; drawn = w.drawn })

pub data Steps : World → World → Type 0 where
  none_yet : (w : World) → Steps w w
  and_then : (w s t : World) → Steps w s → Step s t → Steps w t

abbrev pub begin : World
begin = record { registry = new; drawn = [] }
