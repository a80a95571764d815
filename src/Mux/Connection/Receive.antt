-- ===== src/Mux/Connection/Receive.antt =====
-- The frames of a stream, and `dispatch` and `recv` of connection.rs.
pub mod Credit
pub mod Failure
pub mod Message
pub mod Payload
use Prim.Native.Nat.{bit_and}
use tunnel_weaver.Base.{
  ℕ, ◌+◌, ◌*◌, ◌==◌, leb, ltb, ◌&&◌, ◌||◌, if◌then◌else◌, not, Bool, true, false, List, [], ◌∷◌,
  ◌++◌, Option, none, some, is_some, Result, ok, err, length, is_empty, u32, sat_add32, ◌%◌,
}
use tunnel_weaver.Mux.FrameType.{FrameType}
use tunnel_weaver.Mux.Frame.{Frame, parse}
use tunnel_weaver.Mux.Error.{
  ProtocolError, bad_stream_id, bad_policy, state_violation, flow_control, message_too_large,
}
use tunnel_weaver.Mux.Class.{Class, class_beq}
use tunnel_weaver.Mux.Event.{Event}
use tunnel_weaver.Mux.Wire.{encode_payload, decode_payload, data_flag_compressed, data_flag_more}
use tunnel_weaver.Mux.Flow.RecvWindow
use tunnel_weaver.Mux.Flow.SendWindow
use tunnel_weaver.Mux.Timers
use tunnel_weaver.Mux.Stream.{Stream, free_credit}
use tunnel_weaver.Mux.Stream
use tunnel_weaver.Mux.Sched.Tree.{add_stream}
use tunnel_weaver.Mux.Env.{Env}
use tunnel_weaver.Mux.Connection.{
  Connection, Report, push_event, queue_control, stream_frame, put_stream, add_report, params_of,
  is_done, drop_stream, finished, is_peer_parity, stream_mut, peer_opens_odd,
}
use tunnel_weaver.Mux.Connection.Close.{fail}
use tunnel_weaver.Mux.Connection.Handshake.{
  Outcome, violation, on_challenge, on_hello, on_welcome, on_reject, on_ping, on_pong, on_goaway,
}

abbrev pub decompress_cap_factor : ℕ
decompress_cap_factor = 8

unfoldable pub accept_open : Connection → ℕ → Class → Outcome
accept_open c id class = if class_beq class Class.control then (c, some (bad_policy id)) else (
  push_event
      (record (put_stream c id (Stream.new class (params_of c).initial_window true)) {
        sched = add_stream c.sched id class;
        last_peer_stream_id = id;
      })
      (Event.stream_opened id class),
  none,
)

unfoldable pub on_stream_open : Env → Connection → Frame → Outcome
unfolding accept_open peer_opens_odd
on_stream_open env c frame =
    if not (is_peer_parity c frame.stream_id) || leb frame.stream_id c.last_peer_stream_id
    then (c, some (bad_stream_id frame.stream_id))
    else elim (decode_payload env.class_codec FrameType.open_stream frame.payload) [
      | err e ↦ (c, some e)
      | ok class ↦ accept_open c frame.stream_id class
    ]

-- The body of a DATA payload, decompressed where its flags say so.
unfoldable pub body_of : Env → Connection → ℕ → ℕ → List ℕ → Result ProtocolError (List ℕ)
body_of env c id flags body =
    if bit_and flags data_flag_compressed == 0
    then ok body
    else elim (env.zstd_decompress body ((params_of c).max_frame * decompress_cap_factor)) [
      | none ↦ err (ProtocolError.decompress id)
      | some out ↦ ok out
    ]

-- The end of `on_data`: the message under reassembly is complete.
unfoldable pub complete : Connection → ℕ → Stream → Connection
complete c id s =
    let c' = put_stream c id (record s {
      partial = [];
      partial_wire = 0;
      inbox = s.inbox ++ ((s.partial, s.partial_wire) ∷ []);
    }) in
    if is_empty s.inbox then push_event c' (Event.readable id) else c'

-- `on_data` from `stream.recv.on_data` on; `s` has taken the payload into account.
unfoldable pub reassemble : Connection → ℕ → Stream → ℕ → Bool → List ℕ → Outcome
unfolding complete
reassemble c id s wire_len more bytes =
    if ltb (params_of c).max_message (length s.partial + length bytes)
    then (put_stream c id s, some (message_too_large id))
    else let s' = record s {
      partial = s.partial ++ bytes;
      partial_wire = sat_add32 s.partial_wire wire_len;
    } in
      (if more then put_stream c id s' else complete c id s', none)

unfoldable pub take_data : Connection → ℕ → Stream → ℕ → Bool → List ℕ → Outcome
unfolding reassemble
take_data c id s wire_len more bytes =
    if not s.remote_open
    then violation c "DATA after FIN"
    else let (recv, fits) = RecvWindow.on_data s.recv wire_len in
      if not fits
      then (c, some (flow_control id))
      else reassemble
          (record c {
            bytes_sink =
                add_report c.bytes_sink (record { id = id; bytes_in = wire_len; bytes_out = 0 });
          })
          id (record s { recv = recv }) wire_len more bytes

-- `on_data` on a payload that is its flags and a body.
unfoldable pub on_payload : Env → Connection → ℕ → ℕ → List ℕ → Outcome
unfolding body_of take_data stream_mut
on_payload env c id flags body =
    if not (bit_and flags 0xfc == 0)
    then (c, some (ProtocolError.decode FrameType.payload))
    else elim (body_of env c id flags body) [
      | err e ↦ (c, some e)
      | ok bytes ↦ elim (stream_mut c id) [
        | err e ↦ (c, some e)
        | ok none ↦ (c, none)
        | ok (some s) ↦
            take_data c id s (u32 (length body + 1)) (not (bit_and flags data_flag_more == 0)) bytes
      ]
    ]

abbrev pub on_data_payload : Env → Connection → ℕ → List ℕ → Outcome
on_data_payload env c id [] = (c, some (ProtocolError.decode FrameType.payload))
on_data_payload env c id (flags ∷ body) = on_payload env c id flags body

unfoldable pub on_data : Env → Connection → Frame → Outcome
unfolding on_payload
on_data env c frame = on_data_payload env c frame.stream_id frame.payload

unfoldable pub on_fin : Connection → Frame → Outcome
unfolding stream_mut finished
on_fin c frame = elim (stream_mut c frame.stream_id) [
  | err e ↦ (c, some e)
  | ok none ↦ (c, none)
  | ok (some s) ↦
      if not s.remote_open
      then violation c "duplicate FIN"
      else let c' = put_stream c frame.stream_id (record s { remote_open = false }) in
        if not (is_empty s.partial)
        then violation c' "FIN inside a message"
        else (if is_empty s.inbox then finished c' frame.stream_id else c', none)
]

unfoldable pub on_rst : Env → Connection → Frame → Outcome
unfolding stream_mut drop_stream
on_rst env c frame = elim (decode_payload env.rst_codec FrameType.rst frame.payload) [
  | err e ↦ (c, some e)
  | ok rst ↦ elim (stream_mut c frame.stream_id) [
    | err e ↦ (c, some e)
    | ok none ↦ (c, none)
    | ok (some _) ↦
        (push_event (drop_stream c frame.stream_id) (Event.reset frame.stream_id rst.code), none)
  ]
]

-- A grant, and `Writable` where `send` waits for it.
unfoldable pub grant_credit : Connection → ℕ → Stream → ℕ → Connection
grant_credit c id s credit =
    let s' = record s { send = SendWindow.grant s.send credit } in
    let free = free_credit s' in
    if s'.wants_writable && ltb 0 free
    then push_event (put_stream c id (record s' { wants_writable = false }))
        (Event.writable id free)
    else put_stream c id s'

unfoldable pub on_window_update : Env → Connection → Frame → Outcome
unfolding stream_mut grant_credit
on_window_update env c frame =
    elim (decode_payload env.window_update_codec FrameType.window_update frame.payload) [
      | err e ↦ (c, some e)
      | ok wu ↦ elim (stream_mut c frame.stream_id) [
        | err e ↦ (c, some e)
        | ok none ↦ (c, none)
        | ok (some s) ↦ (grant_credit c frame.stream_id s wu.credit, none)
      ]
    ]

-- `after_auth` before a handler.
abbrev pub after_auth : Connection → Outcome → Outcome
after_auth c next = if is_done c.hs then next else violation c "frame before WELCOME"

unfoldable pub dispatch_connection : Env → Connection → ℕ → Frame → FrameType → Outcome
dispatch_connection env c now frame FrameType.challenge = on_challenge env c frame
dispatch_connection env c now frame FrameType.hello = on_hello env c now frame
dispatch_connection env c now frame FrameType.welcome = on_welcome env c now frame
dispatch_connection env c now frame FrameType.reject = on_reject env c frame
dispatch_connection env c now frame FrameType.goaway = on_goaway env c frame
dispatch_connection env c now frame FrameType.ping = after_auth c (on_ping env c frame)
dispatch_connection env c now frame FrameType.pong = after_auth c (on_pong env c frame)
dispatch_connection env c now frame _ = (c, some (bad_stream_id 0))

unfoldable pub dispatch_stream : Env → Connection → Frame → FrameType → Outcome
dispatch_stream env c frame FrameType.open_stream = on_stream_open env c frame
dispatch_stream env c frame FrameType.payload = on_data env c frame
dispatch_stream env c frame FrameType.fin = on_fin c frame
dispatch_stream env c frame FrameType.rst = on_rst env c frame
dispatch_stream env c frame FrameType.window_update = on_window_update env c frame
dispatch_stream env c frame _ = violation c "connection frame on a non-zero stream"

unfoldable pub dispatch : Env → Connection → ℕ → Frame → Outcome
unfolding dispatch_connection dispatch_stream
dispatch env c now frame =
    if frame.stream_id == 0
    then dispatch_connection env c now frame frame.frame_type
    else after_auth c (dispatch_stream env c frame frame.frame_type)

abbrev pub fail_on : Env → Outcome → Outcome
fail_on env (c, none) = (c, none)
fail_on env (c, some e) = (fail env c e, some e)

unfoldable pub recv : Env → Connection → ℕ → List ℕ → Outcome
unfolding dispatch
recv env c now bytes =
    let (timers, now') = Timers.observe c.timers now in
    let c1 = record c { timers = timers } in
    if is_some c1.closed then (c1, none) else elim (parse bytes) [
      | err e ↦ fail_on env (c1, some e)
      | ok frame ↦
          fail_on env
            (dispatch env (record c1 { timers = Timers.on_recv c1.timers now' }) now' frame)
    ]
