-- ===== src/Relay/Services/Leases/Stale.antt =====
-- What a connection that was superseded can still do by its number.
use tunnel_weaver.Base.{
  ℕ, ◌<◌, ◌≤◌, ◌∷◌, ◌&&◌, not, if◌then◌else◌, Bool-cases, selected, selected-delete_rows,
  selected_part, delete_rows, ltb, ◌≡◌, ◌≢◌, refl, ap, ◌∙◌, sym, ◌==◌, inl, inr, true, false, List,
  [], Option-cases, some, bytes_key, lookup, lookup-insert, to_ascii_lowercase, arith,
}
use tunnel_weaver.Mux.Wire.{KeyId}
use tunnel_weaver.Relay.Registry.{
  Host, ActiveConnection, TunnelRegistry, set_active, connect, close_connection,
  unregister_connection, connect,
}
use tunnel_weaver.Relay.Registry.Keys.{key_beq, key_beq_iff, key_key}
use tunnel_weaver.Relay.Services.{hold, meter, settle, unregister_service}
use tunnel_weaver.Relay.Services.Leases.Numbers.{
  Carries, Carries-same, some-connection, Carries-disconnect, Carries-close, Carries-route,
  Carries-hold, Carries-leave, Carries-remap, Carries-live,
}
use tunnel_weaver.Relay.Services.Leases.Steps.{supersede-connections, supersede-next_conn_id}
use tunnel_weaver.Relay.Rename.{hosts_of}
use tunnel_weaver.Relay.Services.Leases.Sections.{
  Section, World, Step, Steps, is_number, IsDrawn, connect_as, begin,
}

Section-Carries : (r s : TunnelRegistry) → Section r s → Carries r s
unfolding unregister_connection close_connection settle set_active unregister_service
Section-Carries r _ (Section.disconnect _ key id) =
    Carries-disconnect r key id (lookup key r.connections)
Section-Carries r _ (Section.close _ key code receiving) =
    Carries-close r key code receiving (lookup key r.connections) refl
Section-Carries r _ (Section.routed _ key service host service_id) =
    Carries-route r key service host service_id
Section-Carries r _ (Section.metered _ service_id) = Carries-same r (meter service_id r) refl refl
Section-Carries r _ (Section.flagged _ host active) =
    Carries-same r (set_active r host active) refl refl
Section-Carries r _ (Section.held _ key id host) =
    Carries-hold r key id host (lookup key r.connections) refl
Section-Carries r _ (Section.settled _ key host) = Carries-same r (settle r key host) refl refl
Section-Carries r _ (Section.leave _ key name) =
    let host = to_ascii_lowercase name in Carries-leave r key host (lookup host r.routes)
Section-Carries r _ (Section.remapped _ key identity domain) =
    Carries-remap identity domain (hosts_of key r.routes) r
Section-Carries r _ (Section.renamed _ key live) =
    Carries-live r key live (lookup key r.connections) refl

connect-next_conn_id :
    (r : TunnelRegistry) (key : KeyId) (id : ℕ) → (connect r key id).next_conn_id ≡ r.next_conn_id
unfolding connect
connect-next_conn_id r key id = supersede-next_conn_id (lookup key r.connections) _

connect-connections :
    (r : TunnelRegistry) (key : KeyId) (id : ℕ) (k : KeyId)
    → lookup k (connect r key id).connections ≡ (
        if key_beq key k
        then some (record { connection_id = id; close_tx = true; services = [] })
        else lookup k r.connections)
unfolding connect
connect-connections r key id k =
    ap (lookup k) (supersede-connections (lookup key r.connections) _)
    ∙ lookup-insert key k _ r.connections

-- No number is drawn that is not below the next one.
abbrev IsBelow : World → Type 0
IsBelow w = (id : ℕ) → w.registry.next_conn_id ≤ id → selected (is_number id) w.drawn ≡ 0

-- A number that was given out and is not drawn any more.
abbrev IsUsed : ℕ → World → Type 0
IsUsed id w = (id < w.registry.next_conn_id) × (selected (is_number id) w.drawn ≡ 0)

selected-none_both :
    (id : ℕ) (drawn : List ℕ) → selected (λ n. is_number id n && not (is_number id n)) drawn ≡ 0
unfolding selected
selected-none_both id [] = refl
selected-none_both id (n ∷ drawn) = ground (arith, selected-none_both id drawn)

fewer :
    (id used : ℕ) (drawn : List ℕ)
    → selected (is_number id) (delete_rows (is_number used) drawn) ≤ selected (is_number id) drawn
fewer id used drawn = omega (
  arith,
  selected-delete_rows (is_number used) (is_number id) drawn,
  selected_part (is_number id) (λ n. is_number id n && not (is_number used n)) (λ n e. ground arith)
      drawn,
)

Step-IsBelow : (w s : World) → Step w s → IsBelow w → IsBelow s
unfolding selected
Step-IsBelow w _ (Step.drawing _) h = λ id le. ground (arith, h id)
Step-IsBelow w _ (Step.connecting _ key id d) h = λ n le.
    omega
      (arith, fewer n id w.drawn, h n (omega (arith, le, connect-next_conn_id w.registry key id)))
Step-IsBelow w _ (Step.section _ s step) h =
    λ n le. h n (omega (arith, le, (Section-Carries w.registry s step).0))

Steps-IsBelow : (w s : World) → Steps w s → IsBelow w → IsBelow s
Steps-IsBelow w _ (Steps.none_yet _) h = h
Steps-IsBelow w t (Steps.and_then _ s _ before step) h =
    Step-IsBelow s t step (Steps-IsBelow w s before h)

Step-IsUsed : (id : ℕ) (w s : World) → Step w s → IsUsed id w → IsUsed id s
unfolding selected
Step-IsUsed id w _ (Step.drawing _) h = (omega (arith, h.0), ground (arith, h.0, h.1))
Step-IsUsed id w _ (Step.connecting _ key n d) h = (
  omega (arith, h.0, connect-next_conn_id w.registry key n),
  omega (arith, h.1, fewer id n w.drawn),
)
Step-IsUsed id w _ (Step.section _ s step) h =
    (omega (arith, h.0, (Section-Carries w.registry s step).0), h.1)

Steps-IsUsed : (id : ℕ) (w s : World) → Steps w s → IsUsed id w → IsUsed id s
Steps-IsUsed id w _ (Steps.none_yet _) h = h
Steps-IsUsed id w t (Steps.and_then _ s _ before step) h =
    Step-IsUsed id s t step (Steps-IsUsed id w s before h)

-- The machine's connection has another number.
abbrev IsPast : ℕ → KeyId → World → Type 0
IsPast id key w =
    (conn : ActiveConnection)
    → lookup key w.registry.connections ≡ some conn
    → conn.connection_id ≢ id

connect-IsPast :
    (id : ℕ) (key k : KeyId) (n : ℕ) (w : World)
    → n ≢ id
    → (key_beq k key ≡ false → IsPast id key w)
    → IsPast id key (connect_as w k n)
connect-IsPast id key k n w other before conn e same =
    let at = sym (connect-connections w.registry k n key) ∙ e in
    elim (Bool-cases (key_beq k key)) [
      | inl b ↦
          let number =
            ap (λ (c : ActiveConnection). c.connection_id) (some-connection (rw b at at)) in
          other (number ∙ same)
      | inr b ↦ before b conn (rw b at at) same
    ]

not-drawn : (id n : ℕ) (w : World) → IsUsed id w → IsDrawn w n → n ≢ id
not-drawn id n w h d same =
    let gone : selected (is_number n) w.drawn ≡ 0 =
      ap (λ i. selected (is_number i) w.drawn) same ∙ h.1 in
    omega (arith, gone, d)

Step-IsPast :
    (id : ℕ) (key : KeyId) (w s : World)
    → Step w s
    → IsUsed id w
    → IsPast id key w
    → IsPast id key s
Step-IsPast id key w _ (Step.drawing _) h past = past
Step-IsPast id key w _ (Step.connecting _ k n d) h past =
    connect-IsPast id key k n w (not-drawn id n w h d) (λ _. past)
Step-IsPast id key w _ (Step.section _ s step) h past = λ conn e same.
    let (old, at, number) = (Section-Carries w.registry s step).1 key conn e in
    past old at (sym number ∙ same)

Steps-IsPast :
    (id : ℕ) (key : KeyId) (w s : World)
    → Steps w s
    → IsUsed id w
    → IsPast id key w
    → IsPast id key s
Steps-IsPast id key w _ (Steps.none_yet _) h past = past
Steps-IsPast id key w t (Steps.and_then _ s _ before step) h past =
    Step-IsPast id key s t step (Steps-IsUsed id w s before h)
      (Steps-IsPast id key w s before h past)

past_unchanged :
    (id : ℕ) (key : KeyId) (w : World)
    → IsPast id key w
    → (unregister_connection w.registry key id ≡ w.registry)
      × ((host : Host)
          → hold id host (lookup key w.registry.connections) key w.registry ≡ w.registry)
unfolding unregister_connection
past_unchanged id key w past = elim (Option-cases (lookup key w.registry.connections)) [
  | inl e ↦ rw e (refl, (λ host. refl))
  | inr (conn, e) ↦
      let test : (conn.connection_id == id) ≡ false = ground (arith, past conn e) in
      rw (e, test) (refl, (λ host. refl))
]

-- Once a machine has connected under the number `id` and then again under another, its earlier connection
-- changes nothing more by its number: neither when it ends, nor in the last section of a registration that
-- it has begun. So it is whatever the tasks of the relay have done before, between and since, in any order:
-- each section of a registration, of a rename and of a new connection, whose number is drawn before, is a
-- step of its own. The 64-bit counter of the numbers is taken not to wrap.
pub unregister_connection-superseded :
    (w s t : World) (key : KeyId) (id next : ℕ)
    → Steps begin w
    → IsDrawn w id
    → Steps (connect_as w key id) s
    → IsDrawn s next
    → Steps (connect_as s key next) t
    → (unregister_connection t.registry key id ≡ t.registry)
      × ((host : Host)
          → hold id host (lookup key t.registry.connections) key t.registry ≡ t.registry)
unfolding selected
unregister_connection-superseded w s t key id next start drawn first drawn_next second =
    let below = Steps-IsBelow begin w start (λ n le. refl) in
    let small : id < w.registry.next_conn_id = elim (Bool-cases (ltb id w.registry.next_conn_id)) [
      | inl lt ↦ ground arith
      | inr ge ↦ absurd (omega (arith, drawn, below id (ground arith)))
    ] in
    let used : IsUsed id (connect_as w key id) = (
      omega (arith, small, connect-next_conn_id w.registry key id),
      omega (
        arith,
        selected-delete_rows (is_number id) (is_number id) w.drawn,
        selected-none_both id w.drawn,
      ),
    ) in
    let later = Steps-IsUsed id (connect_as w key id) s first used in
    let other = not-drawn id next s later drawn_next in
    let again = Step-IsUsed id s _ (Step.connecting s key next drawn_next) later in
    let past =
      connect-IsPast id key key next s other (λ b. absurd (ground (arith, key_beq_iff key key))) in
    past_unchanged id key t (Steps-IsPast id key _ t second again past)
