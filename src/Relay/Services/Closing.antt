-- ===== src/Relay/Services/Closing.antt =====
-- What is left of a connection's services when it closes.
use tunnel_weaver.Base.{
  ℕ, ◌≡◌, ◌≢◌, refl, ap, ◌∙◌, sym, subst, ◌==◌, if◌then◌else◌, Bool, Bool-cases, inl, inr, true,
  false, List, [], ◌∷◌, Option, none, some, is_some, Result, ok, err, bytes_eq_iff, bytes_key,
  lookup, insert, remove, lookup-insert, lookup-remove, bytes_eq, arith,
}
use tunnel_weaver.Mux.Wire.{KeyId}
use tunnel_weaver.Relay.Registry.{
  Host, Identity, hostname, TunnelRoute, ActiveConnection, TunnelRegistry, set_active, is_active,
  drop_route, evict, supersede, register_connection, drop_connection, unregister_connection,
}
use tunnel_weaver.Relay.Registry.Eviction.{evict-routes, evict-connections}
use tunnel_weaver.Relay.Registry.Keys.{key_beq, key_key, contains, add}
use tunnel_weaver.Relay.Control.{RefusalCode}
use tunnel_weaver.Relay.Services.{claim, alone, meter, announce_route, publish, hold}
use tunnel_weaver.Relay.Services.Activity.{
  is_active-set_active, set_active-is_active-false, drop_route-is_active,
}
use tunnel_weaver.Relay.Services.Leases.{IsConsistent, services_of}
use tunnel_weaver.Relay.Services.Leases.Tables.{services_of-owned}

evict-is_active-false :
    (hosts : List Host) (r : TunnelRegistry) (h : Host)
    → is_active r h ≡ false
    → is_active (evict hosts r) h ≡ false
unfolding evict
evict-is_active-false [] r h f = f
evict-is_active-false (host ∷ hosts) r h f =
    evict-is_active-false hosts (set_active (drop_route r host (lookup host r.routes)) host false) h
      (set_active-is_active-false _ host h
        (drop_route-is_active r host (lookup host r.routes) h ∙ f))

evict-is_active :
    (hosts : List Host) (r : TunnelRegistry) (h : Host)
    → contains h hosts ≡ true
    → is_active (evict hosts r) h ≡ false
unfolding evict contains
evict-is_active [] r h c = absurd (cc)
evict-is_active (host ∷ hosts) r h c =
    let next = set_active (drop_route r host (lookup host r.routes)) host false in
    elim (Bool-cases (bytes_eq host h)) [
      | inl same ↦ evict-is_active-false hosts next h (
          ap (is_active next) (sym ((bytes_eq_iff host h).0 same))
          ∙ is_active-set_active _ host false)
      | inr apart ↦ evict-is_active hosts next h (rw apart at c)
    ]

-- When the connection that a machine holds closes, the machine has no connection and the others keep
-- theirs; the hosts that the connection held are neither routed nor active any more, and every other host
-- keeps the route that it had, even one that leads to the machine.
pub unregister_connection-routes :
    (r : TunnelRegistry) (key : KeyId) (id : ℕ) (conn : ActiveConnection)
    → lookup key r.connections ≡ some conn
    → conn.connection_id ≡ id
    → (let after = unregister_connection r key id in
        ((k : KeyId)
          → lookup k after.connections ≡ (if key_beq key k then none else lookup k r.connections))
        × ((h : Host)
            → lookup h after.routes
              ≡ (if contains h conn.services then none else lookup h r.routes))
        × ((h : Host) → contains h conn.services ≡ true → is_active after h ≡ false))
unfolding unregister_connection
unregister_connection-routes r key id conn e current =
    let gone = record r { connections = remove key r.connections } in
    let test : (conn.connection_id == id) ≡ true = ground arith in
    let closed : unregister_connection r key id ≡ evict conn.services gone =
      ap (drop_connection r key id) e ∙ ap (λ b. if b then evict conn.services gone else r) test in
    (
      (λ k.
          ap (λ (s : TunnelRegistry). lookup k s.connections) closed
          ∙ ap (lookup k) (evict-connections conn.services gone)
          ∙ lookup-remove key k r.connections),
      (λ h.
          ap (λ (s : TunnelRegistry). lookup h s.routes) closed
          ∙ evict-routes conn.services gone h),
      (λ h held. ap (λ s. is_active s h) closed ∙ evict-is_active conn.services gone h held),
    )

-- The machine has no connection, or another one than that of the registration.
abbrev pub IsStale : ℕ → Option ActiveConnection → Type 0
IsStale id none = Unit {0}
IsStale id (some conn) = conn.connection_id ≢ id

hold-stale :
    (id : ℕ) (host : Host) (o : Option ActiveConnection) (key : KeyId) (r : TunnelRegistry)
    → IsStale id o
    → hold id host o key r ≡ r
hold-stale id host none key r s = refl
hold-stale id host (some conn) key r s =
    let test : (conn.connection_id == id) ≡ false = ground arith in
    ap
      (λ b.
        if b
        then record r {
          connections =
              insert key (record conn { services = add host conn.services }) r.connections;
        }
        else r)
      test

-- A route that no connection holds stays when the machine connects again.
supersede-keeps :
    (o : Option ActiveConnection) (r : TunnelRegistry) (h : Host)
    → contains h (services_of o) ≡ false
    → lookup h (supersede o r).routes ≡ lookup h r.routes
supersede-keeps none r h f = refl
supersede-keeps (some old) r h f = evict-routes old.services _ h ∙ rw f refl

abbrev choose :
    Bool
    → TunnelRegistry × Result RefusalCode Host
    → TunnelRegistry × Result RefusalCode Host
    → TunnelRegistry × Result RefusalCode Host
choose b x y = if b then x else y

-- Where the tables are consistent and the hostname is free, a registration whose connection is no longer the
-- machine's when the database has answered succeeds all the same, even if no other task comes between its
-- sections, and leaves a route that no connection holds: the tables are not consistent, and when the machine
-- connects again its registration of that service is refused as a duplicate.
pub publish-stale :
    (r : TunnelRegistry) (key : KeyId) (id : ℕ) (identity : Identity) (service domain : List ℕ)
    (service_id : ℕ)
    → IsConsistent r
    → IsStale id (lookup key r.connections)
    → lookup (hostname identity service domain) r.routes ≡ none
    → (let after = publish alone r key id service (hostname identity service domain) service_id in
        (after.1 ≡ ok (hostname identity service domain))
        × (¬ IsConsistent after.0)
        × (claim (register_connection after.0 key).0 (some identity) service domain
            ≡ err RefusalCode.already_registered))
unfolding publish register_connection set_active
publish-stale r key id identity service domain service_id c stale free =
    let host = hostname identity service domain in
    let route : TunnelRoute = record {
      hostname = host;
      service = service;
      service_id = service_id;
      key_id = key;
    } in
    let routed = record r { routes = insert host route r.routes } in
    let r1 = set_active (meter service_id routed) host true in
    let published : publish alone r key id service host service_id ≡ (r1, ok host) =
      ap
        (λ (o : Option TunnelRoute).
          announce_route alone key id service_id
            (choose (is_some o) (r, err RefusalCode.already_registered) (routed, ok host)))
        free
      ∙ ap (λ s. (s, ok host)) (hold-stale id host (lookup key r.connections) key r1 stale) in
    let there : lookup host r1.routes ≡ some route =
      lookup-insert host host route r.routes
      ∙ ap (λ b. if b then some route else lookup host r.routes)
          ((bytes_eq_iff host host).1 refl) in
    let loose : contains host (services_of (lookup key r.connections)) ≡ false =
      elim (Bool-cases (contains host (services_of (lookup key r.connections)))) [
        | inl held ↦
            let owned =
              services_of-owned (λ h. lookup h r.routes) (λ k. lookup k r.connections) key host c.0
                held in
            absurd (ground arith)
        | inr free ↦ free
      ] in
    let not_held : ¬ IsConsistent r1 = λ consistent.
      let held = consistent.1 host route there in
      let again : contains host (services_of (lookup key r.connections)) ≡ true =
        ap (λ o. contains host (services_of o)) held.1 ∙ held.2 in
      absurd (ground arith) in
    let kept : lookup host (register_connection r1 key).0.routes ≡ some route =
      supersede-keeps (lookup key r.connections) _ host loose ∙ there in
    let refused : claim (register_connection r1 key).0 (some identity) service domain
        ≡ err RefusalCode.already_registered =
      ap (λ o. if is_some o then err RefusalCode.already_registered else ok host) kept in
    let Left : TunnelRegistry × Result RefusalCode Host → Type 0 = λ after.
      (after.1 ≡ ok host)
      × (¬ IsConsistent after.0)
      × (claim (register_connection after.0 key).0 (some identity) service domain
          ≡ err RefusalCode.already_registered) in
    subst Left (sym published) (refl, not_held, refused)
