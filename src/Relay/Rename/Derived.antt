-- ===== src/Relay/Rename/Derived.antt =====
-- The hostnames of a machine's routes, once it is renamed.
use tunnel_weaver.Base.{
  ℕ, ◌≡◌, ◌⊎◌, refl, ap, ◌∙◌, sym, ◌||◌, not, if_rule, if◌then◌else◌, Bool-cases, inl, inr, true,
  false, List, [], ◌∷◌, Option, none, some, bytes_eq, bytes_eq_iff, bytes_key, lookup, insert,
  remove, lookup-insert, lookup-remove, arith,
}
use tunnel_weaver.Mux.Wire.{KeyId}
use tunnel_weaver.Relay.Registry.{
  Host, Identity, hostname, TunnelRoute, ActiveConnection, TunnelRegistry, set_active,
}
use tunnel_weaver.Relay.Registry.Keys.{key_beq, key_beq_iff, key_key, contains}
use tunnel_weaver.Relay.Rename.{
  hosts_of, move_flag, move_route, move_routes, hold_live, rename_machine,
}

-- The machine's routes are under hosts that are still to be moved, or that its name gives.
abbrev IsMoving : Identity → List ℕ → KeyId → List Host → List (Host × TunnelRoute) → Type 0
IsMoving identity domain key hosts routes =
    (h : Host) (route : TunnelRoute)
    → lookup h routes ≡ some route
    → route.key_id ≡ key
    → (contains h hosts ≡ true) ⊎ (h ≡ hostname identity route.service domain)

hosts_of-contains :
    (key : KeyId) (routes : List (Host × TunnelRoute)) (h : Host) (route : TunnelRoute)
    → lookup h routes ≡ some route
    → route.key_id ≡ key
    → contains h (hosts_of key routes) ≡ true
unfolding hosts_of contains lookup
hosts_of-contains key [] h route e k = absurd (cc)
hosts_of-contains key ((host, other) ∷ routes) h route e k = elim (Bool-cases (bytes_eq host h)) [
  | inl same ↦
      let route-other : other ≡ route = ground arith in
      let its : key_beq other.key_id key ≡ true =
        (key_beq_iff other.key_id key).1 (ap (λ (t : TunnelRoute). t.key_id) route-other ∙ k) in
      ap (λ b. contains h (if b then host ∷ hosts_of key routes else hosts_of key routes)) its
      ∙ ap (λ b. b || contains h (hosts_of key routes)) same
  | inr apart ↦
      let rest = hosts_of-contains key routes h route (rw apart at e) k in
      if_rule (λ hosts. contains h hosts ≡ true) (key_beq other.key_id key) _ _
        (λ _. ap (λ b. b || contains h (hosts_of key routes)) apart ∙ rest) (λ _. rest)
]

move_flag-routes : (old next : Host) (r : TunnelRegistry) → (move_flag old next r).routes ≡ r.routes
unfolding set_active
move_flag-routes old next r =
    if_rule (λ (s : TunnelRegistry). s.routes ≡ r.routes) (not (bytes_eq next old)) _ _ (λ _. refl)
      (λ _. refl)

-- The routes of one round.
move_route-routes :
    (identity : Identity) (domain : List ℕ) (old : Host) (route : TunnelRoute) (r : TunnelRegistry)
    → (move_route identity domain old (some route) r).routes
      ≡ insert
          (hostname identity route.service domain)
          (record route { hostname = hostname identity route.service domain })
          (remove old r.routes)
move_route-routes identity domain old route r =
    let next = hostname identity route.service domain in
    ap (λ routes. insert next (record route { hostname = next }) routes)
      (move_flag-routes old next (record r { routes = remove old r.routes }))

-- A host that is not the one that is moved is among the others.
among-rest :
    (old h : Host) (hosts : List Host) (P : Type 0)
    → (contains h (old ∷ hosts) ≡ true) ⊎ P
    → bytes_eq old h ≡ false
    → (contains h hosts ≡ true) ⊎ P
unfolding contains
among-rest old h hosts P (inl c) apart = inl (ap (λ b. b || contains h hosts) (sym apart) ∙ c)
among-rest old h hosts P (inr p) apart = inr p

move_route-IsMoving :
    (identity : Identity) (domain : List ℕ) (key : KeyId) (old : Host) (hosts : List Host)
    (r : TunnelRegistry) (o : Option TunnelRoute)
    → lookup old r.routes ≡ o
    → IsMoving identity domain key (old ∷ hosts) r.routes
    → IsMoving identity domain key hosts (move_route identity domain old o r).routes
move_route-IsMoving identity domain key old hosts r none q m h route e k =
    elim (Bool-cases (bytes_eq old h)) [
      | inl same ↦
          let old-h : old ≡ h = (bytes_eq_iff old h).0 same in
          let gone : none ≡ some route = sym q ∙ ap (λ g. lookup g r.routes) old-h ∙ e in
          absurd (cc)
      | inr apart ↦ among-rest old h hosts _ (m h route e k) apart
    ]
move_route-IsMoving identity domain key old hosts r (some moved) q m h route e k =
    let next = hostname identity moved.service domain in
    let after : TunnelRoute = record moved { hostname = next } in
    let found : (if bytes_eq next h then some after else lookup h (remove old r.routes))
        ≡ some route =
      sym (
        ap (lookup h) (move_route-routes identity domain old moved r)
        ∙ lookup-insert next h after (remove old r.routes))
      ∙ e in
    elim (Bool-cases (bytes_eq next h)) [
      | inl same ↦
          let next-h : next ≡ h = (bytes_eq_iff next h).0 same in
          let route-after : after ≡ route = ground arith in
          inr
            (sym next-h ∙ ap (λ (t : TunnelRoute). hostname identity t.service domain) route-after)
      | inr other ↦
          let kept : lookup h (remove old r.routes) ≡ some route = ground arith in
          let before = sym (lookup-remove old h r.routes) ∙ kept in
          elim (Bool-cases (bytes_eq old h)) [
            | inl same ↦ absurd (ground arith)
            | inr apart ↦ among-rest old h hosts _ (m h route (rw apart at before) k) apart
          ]
    ]

move_routes-IsMoving :
    (identity : Identity) (domain : List ℕ) (key : KeyId) (hosts : List Host) (r : TunnelRegistry)
    → IsMoving identity domain key hosts r.routes
    → IsMoving identity domain key [] (move_routes identity domain hosts r).0.routes
unfolding move_routes
move_routes-IsMoving identity domain key [] r m = m
move_routes-IsMoving identity domain key (old ∷ hosts) r m =
    move_routes-IsMoving identity domain key hosts
      (move_route identity domain old (lookup old r.routes) r)
      (move_route-IsMoving identity domain key old hosts r (lookup old r.routes) refl m)

hold_live-routes :
    (key : KeyId) (live : List Host) (o : Option ActiveConnection) (r : TunnelRegistry)
    → (hold_live key live o r).routes ≡ r.routes
hold_live-routes key live none r = refl
hold_live-routes key live (some conn) r = refl

-- No other task gives the machine a route.
abbrev pub AddsNoRoute : KeyId → (TunnelRegistry → TunnelRegistry) → Type 0
AddsNoRoute key others =
    (r : TunnelRegistry) (h : Host) (route : TunnelRoute)
    → lookup h (others r).routes ≡ some route
    → route.key_id ≡ key
    → lookup h r.routes ≡ some route

-- After a rename, if no other task gives the machine a route between its two sections, every route of the machine is under the hostname that its new name gives for the
-- route's service, so none of the old hostnames is routed to it unless the new name gives it too.
pub rename_machine-hostname :
    (others : TunnelRegistry → TunnelRegistry) (r : TunnelRegistry) (key : KeyId)
    (identity : Identity) (domain : List ℕ) (h : Host) (route : TunnelRoute)
    → AddsNoRoute key others
    → lookup h (rename_machine others r key (some identity) domain).0.routes ≡ some route
    → route.key_id ≡ key
    → h ≡ hostname identity route.service domain
unfolding rename_machine contains
rename_machine-hostname others r key identity domain h route quiet e k =
    let moved = (move_routes identity domain (hosts_of key r.routes) r).0 in
    let live = hosts_of key moved.routes in
    let r' = others moved in
    let kept = hold_live-routes key live (lookup key r'.connections) r' in
    let at = quiet moved h route (ap (lookup h) (sym kept) ∙ e) k in
    elim (move_routes-IsMoving identity domain key (hosts_of key r.routes) r
      (λ h route e k. inl (hosts_of-contains key r.routes h route e k)) h route at k) [
        | inl c ↦ absurd (cc)
        | inr p ↦ p
      ]
