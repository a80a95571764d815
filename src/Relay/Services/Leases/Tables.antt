-- ===== src/Relay/Services/Leases/Tables.antt =====
-- What each change of the two tables keeps.
use tunnel_weaver.Base.{
  ◌≡◌, ◌≢◌, refl, ap, ◌∙◌, sym, ◌||◌, if◌then◌else◌, Bool-cases, inl, inr, true, false, [], Option,
  Option-cases, none, some, bytes_eq, bytes_eq_iff, bytes_key, arith,
}
use tunnel_weaver.Mux.Wire.{KeyId}
use tunnel_weaver.Relay.Registry.{Host, TunnelRoute, ActiveConnection}
use tunnel_weaver.Relay.Registry.Keys.{key_beq, key_beq_iff, key_key, contains}
use tunnel_weaver.Relay.Services.Leases.{IsOwned, IsLeased, Routes, Connections, services_of}

nothing-held :
    (next : Option ActiveConnection) (c : ActiveConnection) (h : Host)
    → services_of next ≡ []
    → next ≡ some c
    → contains h c.services ≢ true
unfolding contains
nothing-held next c h fresh e i =
    let none-held : c.services ≡ [] = ap services_of (sym e) ∙ fresh in
    let cleared : contains h c.services ≡ false = ap (contains h) none-held in absurd (ground arith)

pub services_of-owned :
    (routes : Routes) (conns : Connections) (key : KeyId) (h : Host)
    → IsOwned routes conns
    → contains h (services_of (conns key)) ≡ true
    → (route : TunnelRoute) × (routes h ≡ some route) × (route.key_id ≡ key)
unfolding contains
services_of-owned routes conns key h own i = elim (Option-cases (conns key)) [
  | inl e ↦ absurd (ground arith)
  | inr (c, e) ↦ own key c h e (ap (λ o. contains h (services_of o)) (sym e) ∙ i)
]

routes-key :
    (o : Option TunnelRoute) (route other : TunnelRoute)
    → o ≡ some route
    → o ≡ some other
    → route ≡ other
routes-key o route other p q = ground arith

-- The hosts of a machine's connection lose their routes, and the machine has another connection, that
-- holds nothing, or none.
pub evicted :
    (routes : Routes) (conns : Connections) (key : KeyId) (next : Option ActiveConnection)
    → IsLeased routes conns
    → services_of next ≡ []
    → IsLeased
        (λ h. if contains h (services_of (conns key)) then none else routes h)
        (λ k. if key_beq key k then next else conns k)
unfolding contains
evicted routes conns key next l fresh = (
  (λ k c h e i. elim (Bool-cases (key_beq key k)) [
    | inl same ↦ absurd (nothing-held next c h fresh (rw same at e) i)
    | inr apart ↦
        let owned = l.0 k c h (rw apart at e) i in
        elim (Bool-cases (contains h (services_of (conns key)))) [
          | inl gone ↦
              let lost = services_of-owned routes conns key h l.0 gone in
              let route = routes-key (routes h) owned.0 lost.0 owned.1 lost.1 in
              let key-k : key ≡ k =
                sym lost.2 ∙ ap (λ (t : TunnelRoute). t.key_id) (sym route) ∙ owned.2 in
              absurd (ground (arith, key_beq_iff key k))
          | inr stays ↦ (owned.0, rw stays owned.1, owned.2)
        ]
  ]),
  (λ h route e. elim (Bool-cases (contains h (services_of (conns key)))) [
    | inl gone ↦ absurd (ground arith)
    | inr stays ↦
        let held = l.1 h route (rw stays at e) in
        elim (Bool-cases (key_beq key route.key_id)) [
          | inl same ↦
              let key-k : key ≡ route.key_id = (key_beq_iff key route.key_id).0 same in
              let back : contains h (services_of (conns key)) ≡ true =
                ap (λ k. contains h (services_of (conns k))) key-k
                ∙ ap (λ o. contains h (services_of o)) held.1
                ∙ held.2 in
              absurd (ground arith)
          | inr apart ↦ (held.0, rw apart held.1, held.2)
        ]
  ]),
)

-- A connection is replaced by one that holds the same.
pub replaced :
    (routes : Routes) (conns : Connections) (key : KeyId) (old next : ActiveConnection)
    → IsLeased routes conns
    → conns key ≡ some old
    → next.services ≡ old.services
    → IsLeased routes (λ k. if key_beq key k then some next else conns k)
replaced routes conns key old next l o same = (
  (λ k c h e i. elim (Bool-cases (key_beq key k)) [
    | inl b ↦
        let key-k : key ≡ k = (key_beq_iff key k).0 b in
        let services : c.services ≡ old.services = sym (ap services_of (rw b at e)) ∙ same in
        l.0 k old h (ap conns (sym key-k) ∙ o) (ap (contains h) (sym services) ∙ i)
    | inr b ↦ l.0 k c h (rw b at e) i
  ]),
  (λ h route e.
      let held = l.1 h route e in
      elim (Bool-cases (key_beq key route.key_id)) [
        | inl b ↦
            let key-k : key ≡ route.key_id = (key_beq_iff key route.key_id).0 b in
            let services : held.0.services ≡ next.services =
              sym (ap services_of (sym o ∙ ap conns key-k ∙ held.1)) ∙ sym same in
            (next, rw b refl, ap (contains h) (sym services) ∙ held.2)
        | inr b ↦ (held.0, rw b held.1, held.2)
      ]),
)

-- A route that a connection held is held by the one in its place.
held-next :
    (conns : Connections) (key k : KeyId) (old next : ActiveConnection) (h : Host)
    → conns key ≡ some old
    → (c : ActiveConnection) × (conns k ≡ some c) × (contains h c.services ≡ true)
    → (contains h old.services ≡ true → contains h next.services ≡ true)
    → (c : ActiveConnection) × ((if key_beq key k then some next else conns k) ≡ some c)
      × (contains h c.services ≡ true)
held-next conns key k old next h o held keep = elim (Bool-cases (key_beq key k)) [
  | inl b ↦
      let key-k : key ≡ k = (key_beq_iff key k).0 b in
      let services : old.services ≡ held.0.services =
        ap services_of (sym o ∙ ap conns key-k ∙ held.1) in
      (next, rw b refl, keep (ap (contains h) services ∙ held.2))
  | inr b ↦ (held.0, rw b held.1, held.2)
]

-- A host without a route gets one, which the machine's connection holds from then on.
pub added :
    (routes : Routes) (conns : Connections) (host : Host) (route : TunnelRoute)
    (old next : ActiveConnection)
    → IsLeased routes conns
    → routes host ≡ none
    → conns route.key_id ≡ some old
    → ((h : Host) → contains h next.services ≡ (bytes_eq host h || contains h old.services))
    → IsLeased
        (λ h. if bytes_eq host h then some route else routes h)
        (λ k. if key_beq route.key_id k then some next else conns k)
added routes conns host route old next l free o grows = (
  (λ k c h e i. elim (Bool-cases (key_beq route.key_id k)) [
    | inl b ↦
        let key-k : route.key_id ≡ k = (key_beq_iff route.key_id k).0 b in
        let held : contains h next.services ≡ true =
          ap (contains h) (ap services_of (rw b at e)) ∙ i in
        elim (Bool-cases (bytes_eq host h)) [
          | inl same ↦ (route, rw same refl, key-k)
          | inr other ↦
              let before : contains h old.services ≡ true = ground (arith, grows h) in
              let owned = l.0 route.key_id old h o before in
              (owned.0, rw other owned.1, owned.2 ∙ key-k)
        ]
    | inr b ↦
        let owned = l.0 k c h (rw b at e) i in
        elim (Bool-cases (bytes_eq host h)) [
          | inl same ↦
              let host-h : host ≡ h = (bytes_eq_iff host h).0 same in
              let taken : routes host ≡ some owned.0 = ap routes host-h ∙ owned.1 in absurd (cc)
          | inr other ↦ (owned.0, rw other owned.1, owned.2)
        ]
  ]),
  (λ h other e. elim (Bool-cases (bytes_eq host h)) [
    | inl b ↦
        let same : route ≡ other = ground arith in
        let key : key_beq route.key_id other.key_id ≡ true =
          (key_beq_iff route.key_id other.key_id).1 (ap (λ (t : TunnelRoute). t.key_id) same) in
        (next, rw key refl, ground (arith, grows h))
    | inr b ↦
        held-next conns route.key_id other.key_id old next h o (l.1 h other (rw b at e))
          (λ i. ground (arith, grows h))
  ]),
)

-- A host loses its route, and the machine's connection holds it no longer.
pub removed :
    (routes : Routes) (conns : Connections) (host : Host) (route : TunnelRoute)
    (old next : ActiveConnection)
    → IsLeased routes conns
    → routes host ≡ some route
    → conns route.key_id ≡ some old
    → ((h : Host)
        → contains h next.services ≡ (if bytes_eq host h then false else contains h old.services))
    → IsLeased
        (λ h. if bytes_eq host h then none else routes h)
        (λ k. if key_beq route.key_id k then some next else conns k)
removed routes conns host route old next l there o shrinks = (
  (λ k c h e i. elim (Bool-cases (key_beq route.key_id k)) [
    | inl b ↦
        let key-k : route.key_id ≡ k = (key_beq_iff route.key_id k).0 b in
        let held : contains h next.services ≡ true =
          ap (contains h) (ap services_of (rw b at e)) ∙ i in
        let before : (bytes_eq host h ≡ false) × (contains h old.services ≡ true) =
          ground (arith, shrinks h) in
        let owned = l.0 route.key_id old h o before.1 in
        (owned.0, rw before.0 owned.1, owned.2 ∙ key-k)
    | inr b ↦
        let owned = l.0 k c h (rw b at e) i in
        elim (Bool-cases (bytes_eq host h)) [
          | inl same ↦
              let host-h : host ≡ h = (bytes_eq_iff host h).0 same in
              let its =
                routes-key (routes h) route owned.0 (ap routes (sym host-h) ∙ there) owned.1 in
              let key-k : route.key_id ≡ k = ap (λ (t : TunnelRoute). t.key_id) its ∙ owned.2 in
              absurd (ground (arith, key_beq_iff route.key_id k))
          | inr other ↦ (owned.0, rw other owned.1, owned.2)
        ]
  ]),
  (λ h other e. elim (Bool-cases (bytes_eq host h)) [
    | inl b ↦ absurd (ground arith)
    | inr b ↦
        held-next conns route.key_id other.key_id old next h o (l.1 h other (rw b at e))
          (λ i. ground (arith, shrinks h))
  ]),
)
