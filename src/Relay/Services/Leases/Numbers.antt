-- ===== src/Relay/Services/Leases/Numbers.antt =====
-- The numbers of connections through each section of the registry.
use tunnel_weaver.Base.{
  ℕ, ◌≡◌, refl, ap, ◌∙◌, sym, ◌==◌, Bool, if◌then◌else◌, if_rule, Bool-cases, inl, inr, false, List,
  [], ◌∷◌, Option, none, some, is_some, ◌++◌, Result, not, bytes_eq, bytes_key, lookup, insert,
  remove, lookup-insert, lookup-remove, arith,
}
use tunnel_weaver.Mux.Error.{CloseCode}
use tunnel_weaver.Mux.Wire.{KeyId}
use tunnel_weaver.Relay.Registry.{
  Host, Identity, hostname, TunnelRoute, ActiveConnection, TunnelRegistry, Effect, set_active,
  is_active, take_close, drop_connection,
}
use tunnel_weaver.Relay.Registry.Eviction.{evict-connections, evict-next_conn_id}
use tunnel_weaver.Relay.Registry.Keys.{key_beq, key_beq_iff, key_key, add, without}
use tunnel_weaver.Relay.Control.{RefusalCode}
use tunnel_weaver.Relay.Services.{hold, insert_route, drop_service, release}
use tunnel_weaver.Relay.Rename.{move_flag, move_route, move_routes, hold_live}

-- Each connection of the later state has the number of the one that its machine had earlier, and no number is
-- drawn.
abbrev pub Carries : TunnelRegistry → TunnelRegistry → Type 0
Carries r s =
    (s.next_conn_id ≡ r.next_conn_id)
    × ((k : KeyId) (conn : ActiveConnection)
        → lookup k s.connections ≡ some conn
        → (old : ActiveConnection) × (lookup k r.connections ≡ some old)
          × (conn.connection_id ≡ old.connection_id))

pub Carries-same :
    (r s : TunnelRegistry)
    → s.connections ≡ r.connections
    → s.next_conn_id ≡ r.next_conn_id
    → Carries r s
Carries-same r s same next = (next, (λ k conn e. (conn, ap (lookup k) (sym same) ∙ e, refl)))

Carries-trans : (r s t : TunnelRegistry) → Carries r s → Carries s t → Carries r t
Carries-trans r s t first second = (
  second.0 ∙ first.0,
  (λ k conn e.
      let (mid, at, same) = second.1 k conn e in
      let (old, before, earlier) = first.1 k mid at in (old, before, same ∙ earlier)),
)

pub some-connection : {a b : ActiveConnection} → some a ≡ some b → a ≡ b
some-connection h = ground arith

-- A machine's connection is replaced by one with the same number.
Carries-update :
    (r s : TunnelRegistry) (key : KeyId) (conn next : ActiveConnection)
    → lookup key r.connections ≡ some conn
    → next.connection_id ≡ conn.connection_id
    → s.connections ≡ insert key next r.connections
    → s.next_conn_id ≡ r.next_conn_id
    → Carries r s
Carries-update r s key conn next e same stored kept = (
  kept,
  (λ k other f.
      let at : (if key_beq key k then some next else lookup k r.connections) ≡ some other =
        sym (lookup-insert key k next r.connections) ∙ ap (lookup k) (sym stored) ∙ f in
      elim (Bool-cases (key_beq key k)) [
        | inl b ↦
            let key-k : key ≡ k = (key_beq_iff key k).0 b in
            let its : next ≡ other = some-connection (rw b at at) in
            (
              conn,
              ap (λ k. lookup k r.connections) (sym key-k) ∙ e,
              ap (λ (c : ActiveConnection). c.connection_id) (sym its) ∙ same,
            )
        | inr b ↦ (other, rw b at at, refl)
      ]),
)

pub Carries-disconnect :
    (r : TunnelRegistry) (key : KeyId) (id : ℕ) (o : Option ActiveConnection)
    → Carries r (drop_connection r key id o)
Carries-disconnect r key id none = Carries-same r r refl refl
Carries-disconnect r key id (some entry) =
    let gone = record r { connections = remove key r.connections } in
    let next = evict-next_conn_id entry.services gone in
    if_rule (Carries r) (entry.connection_id == id) _ _
      (λ _. (
        next,
        (λ k conn e.
            let at : (if key_beq key k then none else lookup k r.connections) ≡ some conn =
              sym (lookup-remove key k r.connections)
              ∙ ap (lookup k) (sym (evict-connections entry.services gone))
              ∙ e in
            elim (Bool-cases (key_beq key k)) [
              | inl b ↦ absurd (ground arith)
              | inr b ↦ (conn, rw b at at, refl)
            ]),
      ))
      (λ _. Carries-same r r refl refl)

pub Carries-close :
    (r : TunnelRegistry) (key : KeyId) (code : CloseCode) (receiving : Bool)
    (o : Option ActiveConnection)
    → lookup key r.connections ≡ o
    → Carries r (take_close r key code receiving o).0
Carries-close r key code receiving none e = Carries-same r r refl refl
Carries-close r key code receiving (some conn) e =
    if_rule (λ (a : TunnelRegistry × Bool). Carries r a.0) conn.close_tx _ _
      (λ _.
        let taken : ActiveConnection = record conn { close_tx = false } in
        let closing = record r {
          connections = insert key taken r.connections;
          effects =
              if receiving
              then r.effects ++ (Effect.close conn.connection_id code ∷ [])
              else r.effects;
        } in
        Carries-update r closing key conn taken e refl refl refl)
      (λ _. Carries-same r r refl refl)

pub Carries-route :
    (r : TunnelRegistry) (key : KeyId) (service : List ℕ) (host : Host) (service_id : ℕ)
    → Carries r (insert_route r key service host service_id).0
Carries-route r key service host service_id =
    let to : TunnelRoute = record {
      hostname = host;
      service = service;
      service_id = service_id;
      key_id = key;
    } in
    if_rule (λ (a : TunnelRegistry × Result RefusalCode Host). Carries r a.0)
      (is_some (lookup host r.routes)) _ _ (λ _. Carries-same r r refl refl)
      (λ _. Carries-same r (record r { routes = insert host to r.routes }) refl refl)

pub Carries-hold :
    (r : TunnelRegistry) (key : KeyId) (id : ℕ) (host : Host) (o : Option ActiveConnection)
    → lookup key r.connections ≡ o
    → Carries r (hold id host o key r)
Carries-hold r key id host none e = Carries-same r r refl refl
Carries-hold r key id host (some conn) e =
    if_rule (Carries r) (conn.connection_id == id) _ _
      (λ _.
        let next : ActiveConnection = record conn { services = add host conn.services } in
        Carries-update r (record r { connections = insert key next r.connections }) key conn next e
          refl refl refl)
      (λ _. Carries-same r r refl refl)

pub Carries-release :
    (r s : TunnelRegistry) (key : KeyId) (host : Host) (o : Option ActiveConnection)
    → lookup key r.connections ≡ o
    → s.connections ≡ r.connections
    → s.next_conn_id ≡ r.next_conn_id
    → Carries r (release host o key s)
Carries-release r s key host none e same next = Carries-same r s same next
Carries-release r s key host (some conn) e same next =
    let without_it : ActiveConnection = record conn { services = without host conn.services } in
    Carries-update r (release host (some conn) key s) key conn without_it e refl
      (ap (insert key without_it) same) next

pub Carries-leave :
    (r : TunnelRegistry) (key : KeyId) (host : Host) (o : Option TunnelRoute)
    → Carries r (drop_service r key host o)
unfolding set_active
Carries-leave r key host none = Carries-same r r refl refl
Carries-leave r key host (some its) =
    if_rule (Carries r) (key_beq its.key_id key) _ _
      (λ _. Carries-release r _ key host (lookup key r.connections) refl refl refl)
      (λ _. Carries-same r r refl refl)

pub Carries-flag : (r : TunnelRegistry) (old next : Host) → Carries r (move_flag old next r)
unfolding set_active
Carries-flag r old next =
    if_rule (Carries r) (not (bytes_eq next old)) _ _
      (λ _. Carries-same r (set_active (set_active r old false) next (is_active r old)) refl refl)
      (λ _. Carries-same r r refl refl)

pub Carries-move :
    (identity : Identity) (domain : List ℕ) (old : Host) (o : Option TunnelRoute)
    (r : TunnelRegistry)
    → Carries r (move_route identity domain old o r)
Carries-move identity domain old none r = Carries-same r r refl refl
Carries-move identity domain old (some its) r =
    let gone = record r { routes = remove old r.routes } in
    let next = hostname identity its.service domain in
    let moved = move_flag old next gone in
    let to : TunnelRoute = record its { hostname = next } in
    let step = Carries-flag gone old next in
    Carries-trans r moved (record moved { routes = insert next to moved.routes }) (step.0, step.1)
      (Carries-same moved (record moved { routes = insert next to moved.routes }) refl refl)

pub Carries-remap :
    (identity : Identity) (domain : List ℕ) (hosts : List Host) (r : TunnelRegistry)
    → Carries r (move_routes identity domain hosts r).0
unfolding move_routes
Carries-remap identity domain [] r = Carries-same r r refl refl
Carries-remap identity domain (old ∷ hosts) r =
    let next = move_route identity domain old (lookup old r.routes) r in
    Carries-trans r next (move_routes identity domain hosts next).0
      (Carries-move identity domain old (lookup old r.routes) r)
      (Carries-remap identity domain hosts next)

pub Carries-live :
    (r : TunnelRegistry) (key : KeyId) (live : List Host) (o : Option ActiveConnection)
    → lookup key r.connections ≡ o
    → Carries r (hold_live key live o r)
Carries-live r key live none e = Carries-same r r refl refl
Carries-live r key live (some conn) e =
    let next : ActiveConnection = record conn { services = live } in
    Carries-update r (record r { connections = insert key next r.connections }) key conn next e refl
      refl refl
