-- ===== src/Mux/Connection.antt =====
-- `Connection` of crates/weaver-mux/src/connection.rs: the state, and what its methods share. The
-- children hold the methods, in the order of the source.
--
-- A method that can fail after it has changed the state returns the state beside the error. The
-- order of the association list `streams` stands for the hash map's order. Where the source expects
-- a value that a handshake has left (`expect`), the model has a default
-- (`params_of`, `reason_of`).
pub mod Close
pub mod Handshake
pub mod Receive
pub mod Api
pub mod Transmit
pub mod Time
use tunnel_weaver.Base.{
  ℕ, ◌+◌, ◌%◌, ◌&&◌, ◌==◌, leb, ltb, if◌then◌else◌, not, Bool, true, false, String, List, [], ◌∷◌,
  ◌++◌, Option, none, some, is_some, Eq, nat_eq, lookup, insert, remove, Result, ok, err, unwrap_or,
}
use tunnel_weaver.Mux.Class.{Class}
use tunnel_weaver.Mux.FrameType.{FrameType}
use tunnel_weaver.Mux.Frame.{Frame}
use tunnel_weaver.Mux.Error.{ProtocolError, CloseReason, bad_stream_id, state_violation}
use tunnel_weaver.Mux.Event.{Event}
use tunnel_weaver.Mux.Wire.{KeyId, Params, Challenge, encode_payload}
use tunnel_weaver.Mux.Config.{Config, Role, is_server, normalize, default_params, handshake_timeout}
use tunnel_weaver.Mux.Handshake.{HandshakeState}
use tunnel_weaver.Mux.Timers.{Timers}
use tunnel_weaver.Mux.Timers
use tunnel_weaver.Mux.Sched.Tree.{SchedTree, push_control, remove_stream}
use tunnel_weaver.Mux.Sched.Tree
use tunnel_weaver.Mux.Stream.{Stream, is_finished}
use tunnel_weaver.Mux.Env.{Env}

-- One call of the `StreamBytesSink`: the stream, the bytes in and the bytes out.
pub record Report : Type 0 where
  pub id : ℕ
  pub bytes_in : ℕ
  pub bytes_out : ℕ

pub record Connection : Type 0 where
  pub cfg : Config
  pub hs : HandshakeState
  pub nonce_s : Option (List ℕ)
  pub key_id : Option KeyId
  pub version : Option ℕ
  pub params : Option Params
  pub streams : List (ℕ × Stream)
  pub bytes_sink : Option (List Report)  -- what an installed sink was told, in order
  pub next_stream_id : ℕ  -- u32
  pub last_peer_stream_id : ℕ  -- u32
  pub sched : SchedTree
  pub priority_out : List Frame
  pub closed : Option CloseReason
  pub timers : Timers
  pub events : List Event
  pub ping_counter : ℕ  -- u64

-- A frame on stream 0.
abbrev pub connection_frame : FrameType → List ℕ → Frame
connection_frame t bytes = record { stream_id = 0; frame_type = t; payload = bytes }

abbrev pub stream_frame : ℕ → FrameType → List ℕ → Frame
stream_frame id t bytes = record { stream_id = id; frame_type = t; payload = bytes }

abbrev pub push_event : Connection → Event → Connection
push_event c ev = record c { events = c.events ++ (ev ∷ []) }

abbrev pub push_priority : Connection → Frame → Connection
push_priority c f = record c { priority_out = c.priority_out ++ (f ∷ []) }

abbrev pub queue_control : Connection → Frame → Connection
queue_control c f = record c { sched = push_control c.sched f }

abbrev pub put_stream : Connection → ℕ → Stream → Connection
put_stream c id s = record c { streams = insert id s c.streams }

-- `sink.bytes(..)`, where a sink is installed.
abbrev pub add_report : Option (List Report) → Report → Option (List Report)
add_report none r = none
add_report (some rs) r = some (rs ++ (r ∷ []))

-- A connection before a server has drawn its nonce.
abbrev pub initial : Config → ℕ → HandshakeState → ℕ → ℕ → Option ℕ → Connection
initial cfg now hs next_stream_id max_frame reverify = record {
  cfg = cfg;
  hs = hs;
  nonce_s = none;
  key_id = none;
  version = none;
  params = none;
  streams = [];
  bytes_sink = none;
  next_stream_id = next_stream_id;
  last_peer_stream_id = 0;
  sched = Tree.new cfg.weights max_frame;
  priority_out = [];
  closed = none;
  timers = Timers.new now handshake_timeout cfg.ping_interval cfg.idle_timeout reverify;
  events = [];
  ping_counter = 0;
}

-- The match on the role in `Connection::new`.
abbrev pub start : Env → Config → ℕ → Role → Connection
start env cfg now Role.client = initial cfg now HandshakeState.await_challenge 1 0 none
start env cfg now (Role.server params reverify) =
    let c = initial cfg now HandshakeState.challenge_sent 2 params.max_frame reverify in
    push_priority (record c { nonce_s = some env.nonce })
      (connection_frame FrameType.challenge
        (encode_payload env.challenge_codec (record { nonce_s = env.nonce })))

-- `Connection::new`.
unfoldable pub new : Env → Config → ℕ → Connection
new env cfg now = let cfg' = normalize cfg in start env cfg' now cfg'.role

unfoldable pub is_done : HandshakeState → Bool
is_done HandshakeState.done = true
is_done _ = false

abbrev pub params_of : Connection → Params
params_of c = unwrap_or c.params default_params

unfoldable pub queue_fin : Connection → ℕ → Connection
queue_fin c id = queue_control c (stream_frame id FrameType.fin [])

unfoldable pub drop_stream : Connection → ℕ → Connection
drop_stream c id = elim (lookup id c.streams) [
  | none ↦ c
  | some s ↦ record c { streams = remove id c.streams; sched = remove_stream c.sched id s.class }
]

unfoldable pub maybe_forget : Connection → ℕ → Connection
unfolding drop_stream
maybe_forget c id = elim (lookup id c.streams) [
  | none ↦ c
  | some s ↦ if is_finished s then drop_stream c id else c
]

-- `finished`: the peer's direction has ended and everything was read.
unfoldable pub finished : Connection → ℕ → Connection
unfolding maybe_forget
finished c id = maybe_forget (push_event c (Event.finished id)) id

unfoldable pub peer_opens_odd : Connection → Bool
peer_opens_odd c = is_server c.cfg.role

-- `id % 2 == 1` compared with who opens odd streams.
abbrev pub same : Bool → Bool → Bool
same true b = b
same false b = not b

abbrev pub is_peer_parity : Connection → ℕ → Bool
is_peer_parity c id = same (id % 2 == 1) (peer_opens_odd c)

unfoldable pub stream_mut : Connection → ℕ → Result ProtocolError (Option Stream)
unfolding peer_opens_odd
stream_mut c id = elim (lookup id c.streams) [
  | some s ↦ ok (some s)
  | none ↦
      if (if is_peer_parity c id then leb id c.last_peer_stream_id else ltb id c.next_stream_id)
      then ok none
      else err (bad_stream_id id)
]
