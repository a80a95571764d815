-- ===== src/Relay/Services/Leases/Steps.antt =====
-- Each operation of the registry, on tables that are consistent.
use tunnel_weaver.Base.{
  ℕ, ◌+◌, ◌≡◌, refl, ap, ◌∙◌, sym, subst, ◌==◌, if◌then◌else◌, if_rule, Bool, inl, inr, true, false,
  List, [], ◌∷◌, ◌++◌, Option, Option-cases, none, some, Result, bytes_key, lookup, insert, remove,
  lookup-insert, lookup-remove, to_ascii_lowercase, arith,
}
use tunnel_weaver.Mux.Error.{CloseCode}
use tunnel_weaver.Mux.Wire.{KeyId}
use tunnel_weaver.Relay.Registry.{
  Host, TunnelRoute, ActiveConnection, TunnelRegistry, Effect, new, set_active, evict, supersede,
  register_connection, take_close, close_connection, drop_connection, unregister_connection,
}
use tunnel_weaver.Relay.Registry.Eviction.{evict-routes, evict-connections, evict-next_conn_id}
use tunnel_weaver.Relay.Registry.Keys.{
  key_beq, key_beq_iff, key_key, contains, contains-add, contains-without, add, without,
}
use tunnel_weaver.Relay.Control.{RefusalCode}
use tunnel_weaver.Relay.Services.{
  alone, meter, announce_route, publish, hold, unregister_service, drop_service, release,
}
use tunnel_weaver.Relay.Services.Leases.{IsConsistent, IsLeased-same, services_of}
use tunnel_weaver.Relay.Services.Leases.Tables.{evicted, replaced, added, removed}

-- A registry whose tables are those of `evicted`.
from-evicted :
    (r r' : TunnelRegistry) (key : KeyId) (next : Option ActiveConnection)
    → IsConsistent r
    → services_of next ≡ []
    → ((h : Host)
        → lookup h r'.routes ≡ (
            if contains h (services_of (lookup key r.connections))
            then none
            else lookup h r.routes))
    → ((k : KeyId)
        → lookup k r'.connections ≡ (if key_beq key k then next else lookup k r.connections))
    → IsConsistent r'
from-evicted r r' key next c fresh routes conns =
    IsLeased-same _ _ _ _ routes conns
      (evicted (λ h. lookup h r.routes) (λ k. lookup k r.connections) key next c fresh)

supersede-routes :
    (o : Option ActiveConnection) (r : TunnelRegistry) (h : Host)
    → lookup h (supersede o r).routes
      ≡ (if contains h (services_of o) then none else lookup h r.routes)
unfolding contains
supersede-routes none r h = refl
supersede-routes (some old) r h = evict-routes old.services _ h

pub supersede-connections :
    (o : Option ActiveConnection) (r : TunnelRegistry) → (supersede o r).connections ≡ r.connections
supersede-connections none r = refl
supersede-connections (some old) r = evict-connections old.services _

pub supersede-next_conn_id :
    (o : Option ActiveConnection) (r : TunnelRegistry)
    → (supersede o r).next_conn_id ≡ r.next_conn_id
supersede-next_conn_id none r = refl
supersede-next_conn_id (some old) r = evict-next_conn_id old.services _

register_connection-IsConsistent :
    (r : TunnelRegistry) (key : KeyId) → IsConsistent r → IsConsistent (register_connection r key).0
unfolding register_connection
register_connection-IsConsistent r key c =
    let conn : ActiveConnection = record {
      connection_id = r.next_conn_id;
      close_tx = true;
      services = [];
    } in
    from-evicted r (register_connection r key).0 key (some conn) c refl
      (supersede-routes (lookup key r.connections) (record r {
        next_conn_id = r.next_conn_id + 1;
        connections = insert key conn r.connections;
      }))
      (λ k.
        ap (lookup k) (
          supersede-connections (lookup key r.connections) (record r {
            next_conn_id = r.next_conn_id + 1;
            connections = insert key conn r.connections;
          }))
        ∙ lookup-insert key k conn r.connections)

drop_connection-IsConsistent :
    (r : TunnelRegistry) (key : KeyId) (id : ℕ) (o : Option ActiveConnection)
    → IsConsistent r
    → lookup key r.connections ≡ o
    → IsConsistent (drop_connection r key id o)
drop_connection-IsConsistent r key id none c e = c
drop_connection-IsConsistent r key id (some entry) c e =
    if_rule IsConsistent (entry.connection_id == id) _ _
      (λ _.
        let gone = record r { connections = remove key r.connections } in
        from-evicted r (evict entry.services gone) key none c refl
          (λ h.
            evict-routes entry.services gone h
            ∙ ap (λ o. if contains h (services_of o) then none else lookup h r.routes) (sym e))
          (λ k.
            ap (lookup k) (evict-connections entry.services gone)
            ∙ lookup-remove key k r.connections))
      (λ _. c)

take_close-IsConsistent :
    (r : TunnelRegistry) (key : KeyId) (code : CloseCode) (receiving : Bool)
    (o : Option ActiveConnection)
    → IsConsistent r
    → lookup key r.connections ≡ o
    → IsConsistent (take_close r key code receiving o).0
take_close-IsConsistent r key code receiving none c e = c
take_close-IsConsistent r key code receiving (some conn) c e =
    if_rule (λ (a : TunnelRegistry × Bool). IsConsistent a.0) conn.close_tx _ _
      (λ _.
        IsLeased-same _ _ _ _ (λ h. refl)
          (λ k. lookup-insert key k (record conn { close_tx = false }) r.connections)
          (replaced (λ h. lookup h r.routes) (λ k. lookup k r.connections) key conn
            (record conn { close_tx = false }) c e refl))
      (λ _. c)

-- The machine's connection is the one that publishes, so that it holds the route.
publish-IsConsistent :
    (r : TunnelRegistry) (key : KeyId) (id : ℕ) (service : List ℕ) (host : Host) (service_id : ℕ)
    (conn : ActiveConnection)
    → IsConsistent r
    → lookup key r.connections ≡ some conn
    → conn.connection_id ≡ id
    → IsConsistent (publish alone r key id service host service_id).0
unfolding publish set_active
publish-IsConsistent r key id service host service_id conn c e current =
    let route : TunnelRoute = record {
      hostname = host;
      service = service;
      service_id = service_id;
      key_id = key;
    } in
    let next : ActiveConnection = record conn { services = add host conn.services } in
    let routed = record r { routes = insert host route r.routes } in
    let before = set_active (meter service_id routed) host true in
    let Published : TunnelRegistry × Result RefusalCode Host → Type 0 =
      λ answer. IsConsistent (announce_route alone key id service_id answer).0 in
    elim (Option-cases (lookup host r.routes)) [
      | inr (taken, f) ↦ rw f c
      | inl free ↦
          let test : (conn.connection_id == id) ≡ true = ground arith in
          let held : hold id host (lookup key r.connections) key before
              ≡ record before { connections = insert key next r.connections } =
            ap (λ o. hold id host o key before) e
            ∙ ap
                (λ b.
                  if b
                  then record before { connections = insert key next r.connections }
                  else before)
                test in
          rw free (
            subst IsConsistent (sym held) (
              IsLeased-same _ _ _ _ (λ h. lookup-insert host h route r.routes)
                (λ k. lookup-insert key k next r.connections)
                (added (λ h. lookup h r.routes) (λ k. lookup k r.connections) host route conn next c
                  free e (λ h. contains-add host h conn.services))))
    ]

drop_service-IsConsistent :
    (r : TunnelRegistry) (key : KeyId) (host : Host) (o : Option TunnelRoute)
    → IsConsistent r
    → lookup host r.routes ≡ o
    → IsConsistent (drop_service r key host o)
unfolding set_active
drop_service-IsConsistent r key host none c e = c
drop_service-IsConsistent r key host (some route) c e =
    if_rule IsConsistent (key_beq route.key_id key) _ _
      (λ same.
        let route-key : route.key_id ≡ key = (key_beq_iff route.key_id key).0 same in
        let held = c.1 host route e in
        let its : lookup key r.connections ≡ some held.0 =
          ap (λ k. lookup k r.connections) (sym route-key) ∙ held.1 in
        let next : ActiveConnection = record (held.0) { services = without host held.0.services } in
        let before =
          set_active
            (record r {
              routes = remove host r.routes;
              effects = r.effects ++ (Effect.unmeter route.service_id ∷ []);
            })
            host false in
        subst (λ o. IsConsistent (release host o key before)) (sym its)
          (IsLeased-same _ _ _ _ (λ h. lookup-remove host h r.routes)
            (λ k.
              lookup-insert key k next r.connections
              ∙ ap (λ key. if key_beq key k then some next else lookup k r.connections)
                  (sym route-key))
            (removed (λ h. lookup h r.routes) (λ k. lookup k r.connections) host route held.0 next c
              e held.1 (λ h. contains-without host h held.0.services))))
      (λ _. c)

-- Operations that nothing comes in between of, and in which a registration publishes while its connection is
-- the one that the machine holds. The relay does not see to either of these two conditions.
pub data Whole : TunnelRegistry → TunnelRegistry → Type 0 where
  connect : (r : TunnelRegistry) (key : KeyId) → Whole r (register_connection r key).0
  disconnect :
      (r : TunnelRegistry) (key : KeyId) (id : ℕ) → Whole r (unregister_connection r key id)
  close :
      (r : TunnelRegistry) (key : KeyId) (code : CloseCode) (receiving : Bool)
      → Whole r (close_connection r key code receiving).0
  serve :
      (r : TunnelRegistry) (key : KeyId) (id : ℕ) (service : List ℕ) (host : Host) (service_id : ℕ)
      (conn : ActiveConnection)
      → lookup key r.connections ≡ some conn
      → conn.connection_id ≡ id
      → Whole r (publish alone r key id service host service_id).0
  leave : (r : TunnelRegistry) (key : KeyId) (host : Host) → Whole r (unregister_service r key host)

-- An operation of the registry, other than a rename, keeps consistent tables consistent if no other task
-- comes between the sections of a registration, and the connection that registers is the machine's own by
-- then. Neither condition is one that the relay sees to.
pub Whole-IsConsistent : (r r' : TunnelRegistry) → Whole r r' → IsConsistent r → IsConsistent r'
unfolding unregister_connection close_connection unregister_service
Whole-IsConsistent r _ (Whole.connect _ key) c = register_connection-IsConsistent r key c
Whole-IsConsistent r _ (Whole.disconnect _ key id) c =
    drop_connection-IsConsistent r key id (lookup key r.connections) c refl
Whole-IsConsistent r _ (Whole.close _ key code receiving) c =
    take_close-IsConsistent r key code receiving (lookup key r.connections) c refl
Whole-IsConsistent r _ (Whole.serve _ key id service host service_id conn e current) c =
    publish-IsConsistent r key id service host service_id conn c e current
Whole-IsConsistent r _ (Whole.leave _ key name) c =
    drop_service-IsConsistent r key (to_ascii_lowercase name)
      (lookup (to_ascii_lowercase name) r.routes) c refl

pub new-IsConsistent : IsConsistent new
unfolding new lookup
new-IsConsistent = ((λ k c h e i. absurd (cc)), (λ h route e. absurd (cc)))
