-- ===== src/Mux/Connection/Api.antt =====
-- The per-stream methods of connection.rs: `open`, `send`, `finish`, `reset`, `recv_msg` and
-- `set_class`.
pub mod Chunks
pub mod Credit
pub mod Ready
pub mod Rules
use Prim.Native.Nat.{bit_or}
use tunnel_weaver.Base.{
  ℕ, zero, suc, ◌+◌, ◌-◌, ◌/◌, ◌==◌, leb, ltb, ◌&&◌, if◌then◌else◌, not, Bool, true, false, List,
  [], ◌∷◌, ◌++◌, Option, none, some, is_some, nat_eq, lookup, Result, ok, err, length, is_empty,
  take, drop, u32, u64, sub64, u32_max, max,
}
use tunnel_weaver.Mux.FrameType.{FrameType}
use tunnel_weaver.Mux.Error.{StreamError}
use tunnel_weaver.Mux.Class.{Class, class_beq}
use tunnel_weaver.Mux.Wire.{encode_payload, data_flag_compressed, data_flag_more}
use tunnel_weaver.Mux.Compress.{Compress, should_compress}
use tunnel_weaver.Mux.Flow.RecvWindow
use tunnel_weaver.Mux.Stream.{Stream, free_credit, head_len}
use tunnel_weaver.Mux.Stream
use tunnel_weaver.Mux.Sched.Tree.{add_stream, push_control, activate_if, reclass}
use tunnel_weaver.Mux.Env.{Env}
use tunnel_weaver.Mux.Connection.{
  Connection, Report, push_event, queue_control, stream_frame, put_stream, add_report, params_of,
  is_done, drop_stream, finished, queue_fin, maybe_forget,
}

-- The state after a call, and its `Result<A, StreamError>`.
abbrev pub Reply : Type 0 → Type 0
Reply A = Connection × Result StreamError A

-- `ready`; `none` is `Ok(())`.
unfoldable pub not_ready : Connection → Option StreamError
not_ready c =
    if is_some c.closed
    then some StreamError.closed
    else if not (is_done c.hs)
    then some StreamError.not_authenticated
    else none

abbrev pub when_ready : {A : Type 0} → Connection → Reply A → Reply A
when_ready c next = elim (not_ready c) [ some e ↦ (c, err e) | none ↦ next ]

-- A call on a stream that there must be.
abbrev pub with_stream : {A : Type 0} → Connection → ℕ → (Stream → Reply A) → Reply A
with_stream c id next = elim (lookup id c.streams) [
  | none ↦ (c, err StreamError.unknown_stream)
  | some s ↦ next s
]

-- `checked_add(2)`.
abbrev pub next_id : ℕ → Option ℕ
next_id id = if ltb u32_max (id + 2) then none else some (id + 2)

unfoldable pub open_next : Env → Connection → Class → Reply ℕ
open_next env c class =
    let id = c.next_stream_id in
    elim (next_id id) [
      | none ↦ (c, err StreamError.exhausted)
      | some after ↦ (
        record (put_stream c id (Stream.new class (params_of c).initial_window false)) {
          next_stream_id = after;
          sched =
              push_control (add_stream c.sched id class)
                (stream_frame id FrameType.open_stream (encode_payload env.class_codec class));
        },
        ok id,
      )
    ]

-- `open`.
unfoldable pub open_stream : Env → Connection → Class → Reply ℕ
unfolding not_ready open_next
open_stream env c class = when_ready c (
    if class_beq class Class.control
    then (c, err StreamError.invalid_class)
    else open_next env c class)

-- `msg.chunks(n)` for a positive `n`: `fuel` counts the bytes that are left.
unfoldable pub chunks_from : ℕ → ℕ → List ℕ → List (List ℕ)
chunks_from fuel n [] = []
chunks_from zero n (x ∷ xs) = []
chunks_from (suc fuel) n (x ∷ xs) = take n (x ∷ xs) ∷ chunks_from fuel n (drop n (x ∷ xs))

-- The fragments of a message: an empty message has one.
abbrev pub fragments : ℕ → List ℕ → List (List ℕ)
fragments n [] = [] ∷ []
fragments n (x ∷ xs) = chunks_from (length (x ∷ xs)) n (x ∷ xs)

abbrev pub if_smaller : List ℕ → Option (List ℕ) → Option (List ℕ)
if_smaller chunk none = none
if_smaller chunk (some c) = if ltb (length c) (length chunk) then some c else none

-- The compressed form that a fragment goes out in, if it pays off.
unfoldable pub compressed : Env → Compress → Class → List ℕ → Option (List ℕ)
compressed env stance class chunk =
    if should_compress env stance class chunk
    then if_smaller chunk (env.zstd_compress chunk)
    else none

-- One DATA payload: the flags, and the fragment raw or compressed.
unfoldable pub payload_of : Env → Compress → Class → ℕ → List ℕ → List ℕ
unfolding compressed
payload_of env stance class more chunk = elim (compressed env stance class chunk) [
  | none ↦ more ∷ chunk
  | some c ↦ bit_or more data_flag_compressed ∷ c
]

-- The payloads of a message's fragments; all but the last are flagged `MORE`.
unfoldable pub payloads : Env → Compress → Class → List (List ℕ) → List (List ℕ)
unfolding payload_of
payloads env stance class [] = []
payloads env stance class (x ∷ []) = payload_of env stance class 0 x ∷ []
payloads env stance class (x ∷ y ∷ rest) =
    payload_of env stance class data_flag_more x ∷ payloads env stance class (y ∷ rest)

-- The loop of `send`: each payload is counted, reported and queued.
unfoldable pub enqueue :
    ℕ → List (List ℕ) → Stream × Option (List Report) → Stream × Option (List Report)
enqueue id [] acc = acc
enqueue id (p ∷ ps) (s, sink) = enqueue id ps (
  record s { outbox_bytes = u32 (s.outbox_bytes + u32 (length p)); outbox = s.outbox ++ (p ∷ []) },
  add_report sink (record { id = id; bytes_in = 0; bytes_out = length p }),
)

-- The class of a stream that has sent so much.
unfoldable pub demoted : Class → Option ℕ → ℕ → Class
demoted Class.interactive (some t) written = if ltb t written then Class.bulk else Class.interactive
demoted class _ _ = class

abbrev pub only_if : Bool → Option ℕ → Option ℕ
only_if true o = o
only_if false o = none

-- The end of `send`, once the payloads are queued.
unfoldable pub schedule : Connection → ℕ → Stream → Connection
unfolding demoted
schedule c id s =
    let class = demoted s.class c.cfg.bulk_threshold s.written_total in
    let len = only_if s.open_sent (head_len s) in
    if class_beq class s.class
    then record (put_stream c id s) { sched = activate_if c.sched id class len }
    else record (put_stream c id (record s { class = class })) {
      sched = reclass c.sched id s.class class len;
    }

abbrev pub stance_of : Bool → Compress → Compress
stance_of true compress = compress
stance_of false compress = Compress.never

-- The most credit that a message can need: `div_ceil` fragments, each with its flags.
unfoldable pub worst_case : ℕ → ℕ → ℕ
worst_case chunk_max len = len + max ((len + chunk_max - 1) / chunk_max) 1

-- `send` on a stream that may still send. `max_frame - 1` wraps as a `usize`.
unfoldable pub send_on : Env → Connection → ℕ → Stream → List ℕ → Compress → Reply (Unit {0})
unfolding enqueue payloads schedule worst_case
send_on env c id s msg compress =
    let chunk_max = sub64 (params_of c).max_frame 1 in
    if ltb (free_credit s) (worst_case chunk_max (length msg))
    then (put_stream c id (record s { wants_writable = true }), err StreamError.would_block)
    else let stance = stance_of (params_of c).compression_allowed compress in
      let queued = payloads env stance s.class (fragments chunk_max msg) in
      let (s', sink) = enqueue id queued (s, c.bytes_sink) in
      (
        schedule (record c { bytes_sink = sink }) id
            (record s' { written_total = u64 (s'.written_total + length msg) }),
        ok tt,
      )

unfoldable pub send : Env → Connection → ℕ → List ℕ → Compress → Reply (Unit {0})
unfolding not_ready send_on
send env c id msg compress = when_ready c (
    if ltb (params_of c).max_message (length msg)
    then (c, err (StreamError.too_large (length msg) (params_of c).max_message))
    else with_stream c id (λ s.
      if not s.local_open
      then (c, err StreamError.send_closed)
      else send_on env c id s msg compress))

unfoldable pub finish : Connection → ℕ → Reply (Unit {0})
unfolding not_ready queue_fin maybe_forget
finish c id = when_ready c (
    with_stream c id (λ s.
      if not s.local_open
      then (c, err StreamError.send_closed)
      else let c' = put_stream c id (record s { local_open = false }) in
        (if is_empty s.outbox then maybe_forget (queue_fin c' id) id else c', ok tt)))

unfoldable pub reset : Env → Connection → ℕ → ℕ → Reply (Unit {0})
unfolding not_ready drop_stream
reset env c id code = when_ready c (
    with_stream c id (λ _. (
      queue_control (drop_stream c id)
          (stream_frame id FrameType.rst (encode_payload env.rst_codec (record { code = code }))),
      ok tt,
    )))

unfoldable pub queue_window_update : Env → Connection → ℕ → ℕ → Connection
queue_window_update env c id credit = queue_control c (
    stream_frame id FrameType.window_update
      (encode_payload env.window_update_codec (record { credit = credit })))

abbrev pub update_if : Env → Connection → ℕ → Option ℕ → Connection
update_if env c id none = c
update_if env c id (some credit) = queue_window_update env c id credit

-- `recv_msg` on a message and the wire bytes that it took, with the rest of the inbox.
unfoldable pub deliver : Env → Connection → ℕ → Stream → List (List ℕ × ℕ) → ℕ → Connection
unfolding queue_window_update
deliver env c id s rest wire_len =
    let (recv, credit) = RecvWindow.on_consumed s.recv wire_len in
    let taken = put_stream c id (record s { inbox = rest }) in
    if s.remote_open
    then update_if env (put_stream c id (record s { inbox = rest; recv = recv })) id credit
    else if is_empty rest
    then finished taken id
    else taken

abbrev pub recv_msg_on : Env → Connection → ℕ → Stream → List (List ℕ × ℕ) → Reply (List ℕ)
recv_msg_on env c id s [] = (c, err StreamError.would_block)
recv_msg_on env c id s ((msg, wire_len) ∷ rest) = (deliver env c id s rest wire_len, ok msg)

unfoldable pub recv_msg : Env → Connection → ℕ → Reply (List ℕ)
unfolding not_ready deliver finished
recv_msg env c id = when_ready c (with_stream c id (λ s. recv_msg_on env c id s s.inbox))

unfoldable pub set_class : Connection → ℕ → Class → Reply (Unit {0})
unfolding not_ready
set_class c id class = when_ready c (
    if class_beq class Class.control
    then (c, err StreamError.invalid_class)
    else with_stream c id (λ s. if class_beq s.class class then (c, ok tt) else (
      record (put_stream c id (record s { class = class })) {
        sched = reclass c.sched id s.class class (only_if s.open_sent (head_len s));
      },
      ok tt,
    )))
