-- ===== src/Mux/Connection/Close/Laws.antt =====
-- What is left of a connection that closes.
use tunnel_weaver.Base.{
  ℕ, ◌≡◌, refl, ◌==◌, ◌||◌, Bool, true, false, List, [], ◌∷◌, ◌++◌, none, some, is_some, nat_eq,
  lookup, remove, All, Option-cases, inl, inr, arith, ◌∙◌, ap, sym, subst, Bool-cases, if_rule,
}
use tunnel_weaver.Mux.FrameType.{FrameType}
use tunnel_weaver.Mux.Error.{CloseReason}
use tunnel_weaver.Mux.Event.{Event}
use tunnel_weaver.Mux.Wire.{encode_payload}
use tunnel_weaver.Mux.Stream.{Stream, rst_code_connection_closed}
use tunnel_weaver.Mux.Sched.Tree.{clear_control}
use tunnel_weaver.Mux.Env.{Env}
use tunnel_weaver.Mux.Connection.{Connection, connection_frame, drop_stream, push_event}
use tunnel_weaver.Mux.Connection.Close.{
  insert_id, sorted_ids, reset_streams, close_internal, close_open, close, announce,
}

mem : ℕ → List ℕ → Bool
mem i [] = false
mem i (j ∷ js) = i == j || mem i js

mem-insert_id : (i j : ℕ) (js : List ℕ) → mem i (insert_id j js) ≡ (i == j || mem i js)
unfolding mem insert_id
mem-insert_id i j [] = refl
mem-insert_id i j (k ∷ js) = ground (arith, mem-insert_id i j js)

abbrev Covers : List ℕ → List (ℕ × Stream) → Type 0
Covers ids m = All (λ p. mem p.0 ids ≡ true) m

Covers-insert_id :
    (id : ℕ) (ids : List ℕ) (m : List (ℕ × Stream)) → Covers ids m → Covers (insert_id id ids) m
Covers-insert_id id ids [] h = tt
Covers-insert_id id ids ((j, s) ∷ m) h =
    (ground (arith, mem-insert_id j id ids), Covers-insert_id id ids m h.1)

Covers-sorted_ids : (m : List (ℕ × Stream)) → Covers (sorted_ids m) m
unfolding sorted_ids
Covers-sorted_ids [] = tt
Covers-sorted_ids ((id, s) ∷ m) = (
  ground (arith, mem-insert_id id id (sorted_ids m)),
  Covers-insert_id id (sorted_ids m) m (Covers-sorted_ids m),
)

Covers-remove :
    (id : ℕ) (ids : List ℕ) (m : List (ℕ × Stream)) → Covers (id ∷ ids) m → Covers ids (remove id m)
unfolding remove mem
Covers-remove id ids [] h = tt
Covers-remove id ids ((j, s) ∷ m) h = elim (Bool-cases (j == id)) [
  | inl b ↦ rw b (Covers-remove id ids m h.1)
  | inr b ↦ rw b (ground arith, Covers-remove id ids m h.1)
]

-- Nothing is left of a map whose keys are all removed.
remove_all : List ℕ → List (ℕ × Stream) → List (ℕ × Stream)
remove_all [] m = m
remove_all (id ∷ ids) m = remove_all ids (remove id m)

remove_all-Covers : (ids : List ℕ) (m : List (ℕ × Stream)) → Covers ids m → remove_all ids m ≡ []
unfolding remove_all mem
remove_all-Covers [] [] h = refl
remove_all-Covers [] (x ∷ m) h = cc (h.0)
remove_all-Covers (id ∷ ids) m h = remove_all-Covers ids (remove id m) (Covers-remove id ids m h)

remove_missing : (id : ℕ) (m : List (ℕ × Stream)) → lookup id m ≡ none → remove id m ≡ m
unfolding remove lookup
remove_missing id [] h = refl
remove_missing id ((j, s) ∷ m) h = ground (arith, remove_missing id m)

streams-drop_stream : (c : Connection) (id : ℕ) → (drop_stream c id).streams ≡ remove id c.streams
unfolding drop_stream
streams-drop_stream c id = elim (Option-cases (lookup id c.streams)) [
  | inl h ↦ ground (arith, remove_missing id c.streams)
  | inr (s, h) ↦ ground arith
]

-- A round of the loop.
abbrev reset_one : Connection → ℕ → Connection
reset_one c id = push_event (drop_stream c id) (Event.reset id rst_code_connection_closed)

streams-reset_streams :
    (ids : List ℕ) (c : Connection) → (reset_streams c ids).streams ≡ remove_all ids c.streams
unfolding reset_streams remove_all
streams-reset_streams [] c = refl
streams-reset_streams (id ∷ ids) c =
    streams-reset_streams ids (reset_one c id) ∙ ap (remove_all ids) (streams-drop_stream c id)

-- The fields that dropping streams leaves alone.
record SameOutput (c d : Connection) : Type 0 where
  priority : d.priority_out ≡ c.priority_out
  state : d.closed ≡ c.closed
  handshake : d.hs ≡ c.hs
  parameters : d.params ≡ c.params

drop_stream-SameOutput : (c : Connection) (id : ℕ) → SameOutput c (drop_stream c id)
unfolding drop_stream
drop_stream-SameOutput c id = ground arith

reset_streams-SameOutput : (ids : List ℕ) (c : Connection) → SameOutput c (reset_streams c ids)
unfolding reset_streams
reset_streams-SameOutput [] c = record {
  priority = refl;
  state = refl;
  handshake = refl;
  parameters = refl;
}
reset_streams-SameOutput (id ∷ ids) c =
    let d = drop_stream-SameOutput c id in
    let r = reset_streams-SameOutput ids (reset_one c id) in
    record {
      priority = r.priority ∙ d.priority;
      state = r.state ∙ d.state;
      handshake = r.handshake ∙ d.handshake;
      parameters = r.parameters ∙ d.parameters;
    }

-- What closing an open connection leaves.
abbrev pub ClosesWith : Env → CloseReason → Connection → Type 0
ClosesWith env reason d =
    (d.closed ≡ some reason)
    × (d.priority_out
        ≡ connection_frame FrameType.goaway (encode_payload env.goaway_codec reason) ∷ [])
    × (d.streams ≡ [])
    × ((before : List Event) × (d.events ≡ before ++ (Event.closed reason ∷ [])))
    × ((r : CloseReason) → close env d r ≡ d)

close_open-ClosesWith :
    (env : Env) (c : Connection) (reason : CloseReason)
    → ClosesWith env reason (close_open env c reason true)
unfolding close_open close
close_open-ClosesWith env c reason =
    let c1 = announce env (record c { sched = clear_control c.sched }) reason true in
    let c2 = reset_streams c1 (sorted_ids c1.streams) in
    (
      refl,
      (reset_streams-SameOutput (sorted_ids c1.streams) c1).priority,
      streams-reset_streams (sorted_ids c1.streams) c1
          ∙ remove_all-Covers (sorted_ids c1.streams) c1.streams (Covers-sorted_ids c1.streams),
      (c2.events, refl),
      λ r. refl,
    )

-- Closing an open connection leaves the reason, GOAWAY as the only frame in front of the scheduler,
-- no stream, and `Closed` as the last event; closing it once more changes nothing.
pub close_lem :
    (env : Env) (c : Connection) (reason : CloseReason)
    → c.closed ≡ none
    → ClosesWith env reason (close env c reason)
unfolding close close_internal
close_lem env c reason h =
    let open_there : is_some c.closed ≡ false = rw h in
    subst (ClosesWith env reason) (sym (rw (close, open_there)))
      (close_open-ClosesWith env c reason)

hs-close_open :
    (env : Env) (c : Connection) (reason : CloseReason) (b : Bool)
    → ((close_open env c reason b).hs ≡ c.hs) × ((close_open env c reason b).params ≡ c.params)
unfolding close_open
hs-close_open env c reason true =
    let c1 = announce env (record c { sched = clear_control c.sched }) reason true in
    let r = reset_streams-SameOutput (sorted_ids c1.streams) c1 in (r.handshake, r.parameters)
hs-close_open env c reason false =
    let c1 = announce env (record c { sched = clear_control c.sched }) reason false in
    let r = reset_streams-SameOutput (sorted_ids c1.streams) c1 in (r.handshake, r.parameters)

-- Closing is no step of the handshake.
pub hs-close_internal :
    (env : Env) (c : Connection) (reason : CloseReason) (b : Bool)
    → (close_internal env c reason b).hs ≡ c.hs
unfolding close_internal
hs-close_internal env c reason b =
    let P : Connection → Type 0 = λ d. d.hs ≡ c.hs in
    if_rule P (is_some c.closed) _ _ (λ _. refl) (λ _. (hs-close_open env c reason b).0)

pub params-close_internal :
    (env : Env) (c : Connection) (reason : CloseReason) (b : Bool)
    → (close_internal env c reason b).params ≡ c.params
unfolding close_internal
params-close_internal env c reason b =
    let P : Connection → Type 0 = λ d. d.params ≡ c.params in
    if_rule P (is_some c.closed) _ _ (λ _. refl) (λ _. (hs-close_open env c reason b).1)

pub closed-close_internal :
    (env : Env) (c : Connection) (reason : CloseReason) (b : Bool)
    → is_some (close_internal env c reason b).closed ≡ true
unfolding close_internal close_open
closed-close_internal env c reason b =
    let P : Connection → Type 0 = λ d. is_some d.closed ≡ true in
    if_rule P (is_some c.closed) _ _ (λ h. h) (λ _. refl)
