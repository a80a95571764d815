-- ===== src/Mux/Connection/Transmit.antt =====
-- `poll_transmit`, `wants_transmit` and `poll_event` of connection.rs.
pub mod Credit
use tunnel_weaver.Base.{
  ℕ, ◌||◌, ◌&&◌, if◌then◌else◌, not, Bool, true, false, List, [], ◌∷◌, Option, none, some, is_some,
  nat_eq, lookup, length, is_empty, u32, sub32,
}
use tunnel_weaver.Mux.FrameType.{FrameType}
use tunnel_weaver.Mux.Frame.{Frame, encode_into}
use tunnel_weaver.Mux.Class.{Class}
use tunnel_weaver.Mux.Event.{Event}
use tunnel_weaver.Mux.Flow.SendWindow
use tunnel_weaver.Mux.Stream.{Stream, head_len}
use tunnel_weaver.Mux.Sched.Tree.{
  SchedTree, Pick, is_backlogged, pick, pop_control, served_control, served_stream, activate_if,
  frame_len,
}
use tunnel_weaver.Mux.Connection.{Connection, put_stream, stream_frame, queue_fin, maybe_forget}

unfoldable pub wants_transmit : Connection → Bool
wants_transmit c = not (is_empty c.priority_out) || is_backlogged c.sched

unfoldable pub on_open_sent : Connection → ℕ → Connection
on_open_sent c id = elim (lookup id c.streams) [
  | none ↦ c
  | some s ↦ record (put_stream c id (record s { open_sent = true })) {
    sched = activate_if c.sched id s.class (head_len s);
  }
]

abbrev pub is_open : FrameType → Bool
is_open FrameType.open_stream = true
is_open _ = false

-- The arm of `Pick::Control`. The list is the buffer, `none` is `false`.
unfoldable pub transmit_control : Connection → Connection × Option (List ℕ)
unfolding on_open_sent
transmit_control c =
    let (sched, popped) = pop_control c.sched in
    let c1 = record c { sched = sched } in
    elim popped [
      | none ↦ (c1, none)
      | some frame ↦
          let c2 = if is_open frame.frame_type then on_open_sent c1 frame.stream_id else c1 in
          (
            record c2 { sched = served_control c2.sched (frame_len frame) },
            some (encode_into frame []),
          )
    ]

-- The arm of `Pick::Stream`, on the payload at the front of the outbox.
unfoldable pub transmit_payload : Connection → ℕ → Stream → List ℕ → List (List ℕ) → Connection
transmit_payload c id s payload rest =
    let payload_len = u32 (length payload) in
    let s' = record s {
      outbox = rest;
      outbox_bytes = sub32 s.outbox_bytes payload_len;
      send = SendWindow.consume s.send payload_len;
    } in
    let len = frame_len (stream_frame id FrameType.payload payload) in
    let c1 = record (put_stream c id s') {
      sched = served_stream c.sched id s.class len (head_len s');
    } in
    let c2 = if not (is_some (head_len s')) && not s.local_open then queue_fin c1 id else c1 in
    maybe_forget c2 id

abbrev pub transmit_front : Connection → ℕ → Stream → List (List ℕ) → Connection × Option (List ℕ)
transmit_front c id s [] = (c, none)
transmit_front c id s (payload ∷ rest) = (
  transmit_payload c id s payload rest,
  some (encode_into (stream_frame id FrameType.payload payload) []),
)

unfoldable pub transmit_stream : Connection → ℕ → Connection × Option (List ℕ)
unfolding transmit_payload queue_fin maybe_forget
transmit_stream c id = elim (lookup id c.streams) [
  | none ↦ (c, none)
  | some s ↦ transmit_front c id s s.outbox
]

abbrev pub transmit_pick : Connection → Option Pick → Connection × Option (List ℕ)
transmit_pick c none = (c, none)
transmit_pick c (some Pick.control) = transmit_control c
transmit_pick c (some (Pick.stream id)) = transmit_stream c id

abbrev pub transmit_from : Connection → List Frame → Connection × Option (List ℕ)
transmit_from c (frame ∷ rest) = (record c { priority_out = rest }, some (encode_into frame []))
transmit_from c [] =
    let (sched, picked) = pick c.sched in transmit_pick (record c { sched = sched }) picked

unfoldable pub poll_transmit : Connection → Connection × Option (List ℕ)
unfolding transmit_control transmit_stream
poll_transmit c = transmit_from c c.priority_out

abbrev pub pop_event : Connection → List Event → Connection × Option Event
pop_event c [] = (c, none)
pop_event c (ev ∷ rest) = (record c { events = rest }, some ev)

unfoldable pub poll_event : Connection → Connection × Option Event
poll_event c = pop_event c c.events
