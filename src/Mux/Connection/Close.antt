-- ===== src/Mux/Connection/Close.antt =====
-- Closing a connection: `close`, `close_internal`, `fail` and `reject` of connection.rs.
pub mod Laws
use tunnel_weaver.Base.{
  ℕ, ltb, if◌then◌else◌, Bool, true, false, String, List, [], ◌∷◌, ◌++◌, Option, none, some,
  is_some,
}
use tunnel_weaver.Mux.FrameType.{FrameType}
use tunnel_weaver.Mux.Error.{ProtocolError, CloseReason, CloseCode, RejectCode}
use tunnel_weaver.Mux.Event.{Event}
use tunnel_weaver.Mux.Wire.{encode_payload}
use tunnel_weaver.Mux.Timers
use tunnel_weaver.Mux.Stream.{Stream, rst_code_connection_closed}
use tunnel_weaver.Mux.Sched.Tree.{clear_control}
use tunnel_weaver.Mux.Env.{Env}
use tunnel_weaver.Mux.Connection.{
  Connection, push_event, push_priority, connection_frame, drop_stream,
}

-- `ids.sort_unstable()` on the keys of the streams.
unfoldable pub insert_id : ℕ → List ℕ → List ℕ
insert_id id [] = id ∷ []
insert_id id (j ∷ ids) = if ltb j id then j ∷ insert_id id ids else id ∷ j ∷ ids

unfoldable pub sorted_ids : List (ℕ × Stream) → List ℕ
unfolding insert_id
sorted_ids [] = []
sorted_ids ((id, _) ∷ streams) = insert_id id (sorted_ids streams)

unfoldable pub reset_streams : Connection → List ℕ → Connection
unfolding drop_stream
reset_streams c [] = c
reset_streams c (id ∷ ids) =
    reset_streams (push_event (drop_stream c id) (Event.reset id rst_code_connection_closed)) ids

abbrev pub announce : Env → Connection → CloseReason → Bool → Connection
announce env c reason false = c
announce env c reason true = record c {
  priority_out = connection_frame FrameType.goaway (encode_payload env.goaway_codec reason) ∷ [];
}

-- The body of `close_internal`, on a connection that is open.
unfoldable pub close_open : Env → Connection → CloseReason → Bool → Connection
unfolding reset_streams sorted_ids
close_open env c reason send_goaway =
    let c1 = announce env (record c { sched = clear_control c.sched }) reason send_goaway in
    let c2 = reset_streams c1 (sorted_ids c1.streams) in
    push_event (record c2 { timers = Timers.clear c2.timers; closed = some reason })
      (Event.closed reason)

unfoldable pub close_internal : Env → Connection → CloseReason → Bool → Connection
unfolding close_open
close_internal env c reason send_goaway =
    if is_some c.closed then c else close_open env c reason send_goaway

unfoldable pub close : Env → Connection → CloseReason → Connection
unfolding close_internal
close env c reason = close_internal env c reason true

abbrev pub reason_of : CloseCode → String → CloseReason
reason_of code message = record { code = code; message = message }

-- `fail` closes the connection for a protocol error; the error itself is the caller's.
unfoldable pub fail : Env → Connection → ProtocolError → Connection
unfolding close_internal
fail env c e = close_internal env c (reason_of CloseCode.protocol_error (env.describe e)) true

unfoldable pub reject : Env → Connection → RejectCode → String → Connection
unfolding close_internal
reject env c code message =
    close_internal env
      (push_priority c (
        connection_frame FrameType.reject
          (encode_payload env.reject_codec (record { code = code; message = message }))))
      (reason_of CloseCode.rejected message) false
