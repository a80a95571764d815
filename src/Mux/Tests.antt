-- ===== src/Mux/Tests.antt =====
-- The theorems at concrete states.
use tunnel_weaver.Base.{
  ℕ, zero, suc, ◌≡◌, ◌+◌, ◌≤◌, refl, ◌↔◌, List, [], ◌∷◌, true, none, some, is_some, ok, All, arith,
  IsU32, IsByte, lookup, insert, insert_sorted, nat_eq, replicate,
}
use tunnel_weaver.Mux.FrameType.{FrameType}
use tunnel_weaver.Mux.Frame.{Frame, parse, encode_into}
use tunnel_weaver.Mux.Frame.RoundTrip.{parse-eq-ok_iff}
use tunnel_weaver.Mux.Flow.SendWindow
use tunnel_weaver.Mux.Flow.RecvWindow
use tunnel_weaver.Mux.Flow.Link.{Link, start, Step, Reach, Reach-on_data, Reach-credit}
use tunnel_weaver.Mux.Wire.{IsKeyId, decode_payload}
use tunnel_weaver.Mux.Wire.KeyText.{from_str, fmt, list_beq}
use tunnel_weaver.Mux.Wire.KeyText.RoundTrip.{from_str-eq-ok_iff}
use tunnel_weaver.Mux.Handshake.{negotiate}
use tunnel_weaver.Mux.Auth.{verify}
use tunnel_weaver.Mux.Auth.Transcript.{transcript-injective}
use tunnel_weaver.Mux.Timers.{expired, passed, next_timeout}
use tunnel_weaver.Mux.Timers
use tunnel_weaver.Mux.Config.{normalize, base}
use tunnel_weaver.Mux.Class.{Class, class_beq}
use tunnel_weaver.Mux.Compress.{Compress, should_compress}
use tunnel_weaver.Mux.Connection.{Connection, is_done}
use tunnel_weaver.Mux.Connection
use tunnel_weaver.Mux.Connection.Handshake.{on_hello, is_challenge_sent}
use tunnel_weaver.Mux.Connection.Handshake.Authentic.{IsAuthentic, on_hello-IsAuthentic}
use tunnel_weaver.Mux.Connection.Close.{close}
use tunnel_weaver.Mux.Connection.Close.Laws.{ClosesWith, close_lem}
use tunnel_weaver.Mux.Connection.Receive.{recv, dispatch_stream}
use tunnel_weaver.Mux.Connection.Receive.Credit.{dispatch_stream-AllBacked}
use tunnel_weaver.Mux.Connection.Receive.Failure.{closed-recv}
use tunnel_weaver.Mux.Connection.Receive.Payload.{IsZstd}
use tunnel_weaver.Mux.Connection.Receive.Message.{Delivered, IsReceived, payloads-IsReceived}
use tunnel_weaver.Mux.Connection.Api.{send, payloads, fragments, chunks_from}
use tunnel_weaver.Mux.Connection.Api.Credit.{AllBacked, send-AllBacked}
use tunnel_weaver.Mux.Connection.Transmit.{poll_transmit}
use tunnel_weaver.Mux.Connection.Transmit.Credit.{poll_transmit-AllBacked}
use tunnel_weaver.Mux.Connection.Time.{handle_timeout, fire_all}
use tunnel_weaver.Mux.Connection.Time.Termination.{handle_timeout_ends, fire_all-IsStuck, IsStuck}
use tunnel_weaver.Mux.Stream.{Stream, is_finished}
use tunnel_weaver.Mux.Stream
use tunnel_weaver.Mux.Sched.Flow.{Flow}
use tunnel_weaver.Mux.Sched.Qfq.{Qfq, new, add_flow, activate, peek, has_backlog}
use tunnel_weaver.Mux.Sched.Group.{place}
use tunnel_weaver.Mux.Sched.Qfq.Reach.{Reach-peek}
use tunnel_weaver.Mux.Sched.Qfq.Reach as Calls
use tunnel_weaver.Mux.Fixtures.{
  env, server, ready, hello_frame, incoming, client, bye, peer, message,
}

abbrev fin_bytes : List ℕ
fin_bytes = 0 ∷ 0 ∷ 1 ∷ 2 ∷ 7 ∷ 9 ∷ []

fin_bytes-IsByte : All IsByte fin_bytes
fin_bytes-IsByte = omega arith

parse-eq-ok_iff_example :
    (parse fin_bytes
      ≡ ok (record { stream_id = 258; frame_type = FrameType.fin; payload = 9 ∷ [] }))
    ↔ (IsU32 258
        × (encode_into (record { stream_id = 258; frame_type = FrameType.fin; payload = 9 ∷ [] }) []
            ≡ fin_bytes))
parse-eq-ok_iff_example = parse-eq-ok_iff fin_bytes _ fin_bytes-IsByte

abbrev key_text : List ℕ
key_text = fmt peer

from_str-eq-ok_iff_example : (from_str key_text ≡ ok peer) ↔ (IsKeyId peer × (fmt peer ≡ key_text))
from_str-eq-ok_iff_example = from_str-eq-ok_iff key_text peer

abbrev ones : List ℕ
ones = replicate 32 1

abbrev twos : List ℕ
twos = replicate 32 2

abbrev threes : List ℕ
threes = replicate 32 3

abbrev name : List ℕ
name = b'a' ∷ []

transcript-injective_example :
    (ones ≡ ones) × (twos ≡ twos) × (name ≡ name) × (some threes ≡ some threes)
transcript-injective_example =
    transcript-injective ones twos name ones twos name (some threes) (some threes) refl refl refl
      refl refl refl refl refl

-- A sender with a window of 10 that has 4 bytes on the way, and the end of their journey.
abbrev one_way : Link
one_way = record (start 10) { send = SendWindow.consume (SendWindow.new 10) 4; wire = 4 ∷ [] }

one_way-Reach : Reach (start 10) one_way
unfolding SendWindow.new
one_way-Reach = Reach.next Reach.here (Step.transmit (start 10) 4 (omega arith))

Reach-on_data_example : (RecvWindow.on_data one_way.recv 4).1 ≡ true
Reach-on_data_example = Reach-on_data 10 4 [] (omega arith) one_way-Reach refl

abbrev arrived_there : Link
arrived_there = record one_way { recv = (RecvWindow.on_data one_way.recv 4).0; wire = []; held = 4 }

abbrev consumed_there : Link
consumed_there = record arrived_there {
  recv = (RecvWindow.on_consumed arrived_there.recv 4).0;
  held = 0;
}

consumed_there-Reach : Reach (start 10) consumed_there
unfolding RecvWindow.on_data RecvWindow.on_consumed RecvWindow.new
consumed_there-Reach =
    Reach.next (Reach.next one_way-Reach (Step.deliver one_way 4 [] refl))
      (Step.consume arrived_there 4 (omega arith))

Reach-credit_example : 10 ≤ consumed_there.send.credit + consumed_there.send.credit
Reach-credit_example = Reach-credit 10 (omega arith) consumed_there-Reach refl refl refl

abbrev one_flow : Qfq ℕ
one_flow = activate (add_flow new 7 300 1000) 7 100

one_flow-Reach : Calls.Reach one_flow
unfolding lookup new
one_flow-Reach =
    Calls.Reach.call (Calls.Reach.call Calls.Reach.fresh (Calls.Call.register new 7 300 1000 refl))
      (Calls.Call.wake (add_flow new 7 300 1000) 7 100)

Reach-peek_example :
    (k : ℕ) × (flow : Flow) × (v : ℕ) × (peek one_flow ≡ (record one_flow { v = v }, some k))
    × (one_flow.v ≤ v)
    × (lookup k one_flow.flows ≡ some flow)
    × (flow.backlogged ≡ true)
unfolding has_backlog activate lookup add_flow insert new place insert_sorted
Reach-peek_example = Reach-peek one_flow-Reach refl

on_hello-IsAuthentic_example :
    IsAuthentic env server hello_frame (on_hello env server 5 hello_frame).0
unfolding is_done Connection.new normalize base on_hello is_challenge_sent decode_payload negotiate
    verify list_beq
on_hello-IsAuthentic_example = on_hello-IsAuthentic env server 5 hello_frame refl refl

close_lem_example : ClosesWith env bye (close env ready bye)
unfolding Connection.new normalize base
close_lem_example = close_lem env ready bye refl

closed-recv_example : is_some (recv env ready 5 (1 ∷ 2 ∷ [])).0.closed ≡ true
unfolding recv Connection.new normalize base parse
closed-recv_example = closed-recv env ready 5 (1 ∷ 2 ∷ []) _ refl

ready-AllBacked : AllBacked ready
unfolding Stream.new SendWindow.new
ready-AllBacked = (record { counted = refl; paid = omega arith; word = omega arith }, tt)

send-AllBacked_example : AllBacked (send env ready 2 message Compress.auto).0
send-AllBacked_example =
    send-AllBacked env ready 2 message Compress.auto (omega arith) (omega arith) ready-AllBacked

poll_transmit-AllBacked_example :
    AllBacked (poll_transmit (send env ready 2 message Compress.auto).0).0
poll_transmit-AllBacked_example =
    poll_transmit-AllBacked (send env ready 2 message Compress.auto).0 send-AllBacked_example

squeeze-IsZstd : IsZstd env env
squeeze-IsZstd [] z cap h = cc
squeeze-IsZstd (zero ∷ rest) z cap h = λ small. ground arith
squeeze-IsZstd (suc n ∷ rest) z cap h = cc

payloads-IsReceived_example :
    (d : Connection) × Delivered env 2 ready
      (payloads env Compress.auto Class.bulk (fragments 2 message))
      d
    × IsReceived 2 incoming message d
unfolding lookup Stream.new payloads RecvWindow.new chunks_from should_compress class_beq
payloads-IsReceived_example =
    payloads-IsReceived env env ready 2 incoming Compress.auto Class.bulk 2 message squeeze-IsZstd
      (omega arith) refl refl refl (omega arith) (omega arith) (omega arith) (omega arith)

handle_timeout_ends_example : is_some (handle_timeout 4 env client 1000000) ≡ true
unfolding Connection.new normalize base Timers.new
handle_timeout_ends_example = handle_timeout_ends env client 1000000 refl

ready-IsStuck : IsStuck env ready 0
unfolding Connection.new normalize base Timers.on_authenticated Timers.idle_deadline Timers.new
ready-IsStuck = record {
  open_there = refl;
  no_handshake = refl;
  not_idle = refl;
  due = refl;
  zero_interval = refl;
  valid = refl;
}

fire_all-IsStuck_example : fire_all 1000 env ready 0 ≡ none
fire_all-IsStuck_example = fire_all-IsStuck 1000 env ready 0 ready-IsStuck

abbrev credit_frame : Frame
credit_frame = record { stream_id = 2; frame_type = FrameType.window_update; payload = 9 ∷ [] }

dispatch_stream-AllBacked_example :
    AllBacked (dispatch_stream env ready credit_frame FrameType.window_update).0
dispatch_stream-AllBacked_example =
    dispatch_stream-AllBacked env ready credit_frame FrameType.window_update (omega arith)
      ready-AllBacked
