-- ===== src/Mux/Connection/Receive/Credit.antt =====
-- The outbox of every stream against its send credit, through the frames of the peer.
use Prim.Native.Nat.{bit_and}
use tunnel_weaver.Base.{
  ℕ, ◌≡◌, refl, List, [], ◌∷◌, Option, none, some, Option-cases, Result-cases, inl, inr, Bool,
  false, arith, if_rule, nat_eq, lookup, AllValues-insert, AllValues-lookup, Result, ok, err, IsU32,
  not, ltb, leb, is_empty, ◌&&◌, ◌||◌, ◌==◌, length, ◌++◌, ◌+◌, ◌≤◌, if◌then◌else◌, sat_add32,
}
use tunnel_weaver.Mux.FrameType.{FrameType}
use tunnel_weaver.Mux.Frame.{Frame}
use tunnel_weaver.Mux.Error.{ProtocolError, bad_stream_id}
use tunnel_weaver.Mux.Wire.{decode_payload, Postcard}
use tunnel_weaver.Mux.Class.{Class, class_beq}
use tunnel_weaver.Mux.Flow.SendWindow
use tunnel_weaver.Mux.Flow.RecvWindow
use tunnel_weaver.Mux.Stream.{Stream, free_credit}
use tunnel_weaver.Mux.Stream
use tunnel_weaver.Mux.Env.{Env}
use tunnel_weaver.Mux.Connection.{
  Connection, put_stream, add_report, finished, params_of, is_peer_parity, stream_mut,
}
use tunnel_weaver.Mux.Connection.Handshake.{Outcome}
use tunnel_weaver.Mux.Connection.Api.Credit.{IsBacked, AllBacked}
use tunnel_weaver.Mux.Connection.Transmit.Credit.{drop_stream-AllBacked, maybe_forget-AllBacked}
use tunnel_weaver.Mux.Connection.Receive.{
  accept_open, on_stream_open, body_of, complete, reassemble, take_data, on_payload,
  on_data_payload, on_data, on_fin, on_rst, grant_credit, on_window_update, dispatch_stream,
}

-- The state of an outcome is backed.
abbrev Keeps : Outcome → Type 0
Keeps o = AllBacked o.0

-- A payload that does not decode leaves the state.
decode_rule :
    {T : Type 0} (codec : Postcard T) (t : FrameType) (bytes : List ℕ) (c : Connection)
    (next : T → Outcome)
    → AllBacked c
    → ((v : T) → Keeps (next v))
    → Keeps (elim (decode_payload codec t bytes) [ err e ↦ (c, some e) | ok v ↦ next v ])
decode_rule codec t bytes c next h k = elim (Result-cases (decode_payload codec t bytes)) [
  | inl (v, d) ↦ rw d (k v)
  | inr (e, d) ↦ rw d h
]

-- What the handler of a frame does once it has looked for the stream.
abbrev with_found : Connection → (Stream → Outcome) → Result ProtocolError (Option Stream) → Outcome
with_found c next found = elim found [
  | err e ↦ (c, some e)
  | ok none ↦ (c, none)
  | ok (some s) ↦ next s
]

stream_rule :
    (c : Connection) (id : ℕ) (next : Stream → Outcome)
    → AllBacked c
    → ((s : Stream) → IsBacked s → Keeps (next s))
    → Keeps (with_found c next (stream_mut c id))
unfolding stream_mut
stream_rule c id next h k = elim (Option-cases (lookup id c.streams)) [
  | inl l ↦
      let P : Result ProtocolError (Option Stream) → Type 0 = λ r. Keeps (with_found c next r) in
      rw (l, with_found)
        (if_rule P
          (if is_peer_parity c id then leb id c.last_peer_stream_id else ltb id c.next_stream_id)
          (ok none) (err (bad_stream_id id)) (λ _. h) (λ _. h))
  | inr (s, l) ↦ rw (l, with_found) (k s (AllValues-lookup IsBacked id c.streams s h l))
]

-- A stream that is put with the same outbox and credit.
put-AllBacked :
    (c : Connection) (id : ℕ) (s t : Stream)
    → IsBacked s
    → t.outbox ≡ s.outbox
    → t.outbox_bytes ≡ s.outbox_bytes
    → t.send ≡ s.send
    → AllBacked c
    → AllBacked (put_stream c id t)
put-AllBacked c id s t b o n w h =
    AllValues-insert IsBacked id t c.streams
      (record {
        counted = ground (arith, b.counted);
        paid = ground (arith, b.paid);
        word = ground (arith, b.word);
      })
      h

complete-AllBacked :
    (c : Connection) (id : ℕ) (s : Stream) → IsBacked s → AllBacked c → AllBacked (complete c id s)
unfolding complete
complete-AllBacked c id s b h =
    let put = put-AllBacked c id s _ b refl refl refl h in
    if_rule AllBacked (is_empty s.inbox) _ _ (λ _. put) (λ _. put)

reassemble-AllBacked :
    (c : Connection) (id : ℕ) (s : Stream) (wire : ℕ) (more : Bool) (bytes : List ℕ)
    → IsBacked s
    → AllBacked c
    → Keeps (reassemble c id s wire more bytes)
unfolding reassemble
reassemble-AllBacked c id s wire more bytes b h =
    let same : IsBacked
        (record s { partial = s.partial ++ bytes; partial_wire = sat_add32 s.partial_wire wire }) =
      record { counted = b.counted; paid = b.paid; word = b.word } in
    if_rule Keeps (ltb (params_of c).max_message (length s.partial + length bytes)) _ _
      (λ _. put-AllBacked c id s s b refl refl refl h)
      (λ _.
        if_rule AllBacked more _ _ (λ _. put-AllBacked c id s _ b refl refl refl h)
          (λ _. complete-AllBacked c id _ same h))

take_data-AllBacked :
    (c : Connection) (id : ℕ) (s : Stream) (wire : ℕ) (more : Bool) (bytes : List ℕ)
    → IsBacked s
    → AllBacked c
    → Keeps (take_data c id s wire more bytes)
unfolding take_data
take_data-AllBacked c id s wire more bytes b h =
    if_rule Keeps (not s.remote_open) _ _ (λ _. h)
      (λ _.
        if_rule Keeps (not (RecvWindow.on_data s.recv wire).1) _ _ (λ _. h)
          (λ _.
            reassemble-AllBacked
              (record c {
                bytes_sink =
                    add_report c.bytes_sink (record { id = id; bytes_in = wire; bytes_out = 0 });
              })
              id (record s { recv = (RecvWindow.on_data s.recv wire).0 }) wire more bytes
              (record { counted = b.counted; paid = b.paid; word = b.word }) h))

on_payload-AllBacked :
    (env : Env) (c : Connection) (id flags : ℕ) (body : List ℕ)
    → AllBacked c
    → Keeps (on_payload env c id flags body)
unfolding on_payload
on_payload-AllBacked env c id flags body h =
    if_rule Keeps (not (bit_and flags 0xfc == 0)) _ _ (λ _. h)
      (λ _. elim (Result-cases (body_of env c id flags body)) [
        | inr (e, q) ↦ rw (q, on_payload) h
        | inl (bytes, q) ↦
            rw (q, on_payload)
              (stream_rule c id _ h (λ s b. take_data-AllBacked c id s _ _ bytes b h))
      ])

on_data-AllBacked :
    (env : Env) (c : Connection) (id : ℕ) (payload : List ℕ)
    → AllBacked c
    → Keeps (on_data_payload env c id payload)
on_data-AllBacked env c id [] h = h
on_data-AllBacked env c id (flags ∷ body) h = on_payload-AllBacked env c id flags body h

finished-AllBacked : (c : Connection) (id : ℕ) → AllBacked c → AllBacked (finished c id)
unfolding finished
finished-AllBacked c id h = maybe_forget-AllBacked _ id h

on_fin-AllBacked : (c : Connection) (frame : Frame) → AllBacked c → Keeps (on_fin c frame)
unfolding on_fin
on_fin-AllBacked c frame h = stream_rule c frame.stream_id _ h (λ s b.
    let put =
      put-AllBacked c frame.stream_id s (record s { remote_open = false }) b refl refl refl h in
    if_rule Keeps (not s.remote_open) _ _ (λ _. h)
      (λ _.
        if_rule Keeps (not (is_empty s.partial)) _ _ (λ _. put)
          (λ _.
            if_rule AllBacked (is_empty s.inbox) _ _ (λ _. finished-AllBacked _ frame.stream_id put)
              (λ _. put))))

on_rst-AllBacked :
    (env : Env) (c : Connection) (frame : Frame) → AllBacked c → Keeps (on_rst env c frame)
unfolding on_rst
on_rst-AllBacked env c frame h =
    decode_rule env.rst_codec FrameType.rst frame.payload c _ h
      (λ r. stream_rule c frame.stream_id _ h (λ s b. drop_stream-AllBacked c frame.stream_id h))

grant_credit-AllBacked :
    (c : Connection) (id : ℕ) (s : Stream) (credit : ℕ)
    → IsBacked s
    → AllBacked c
    → AllBacked (grant_credit c id s credit)
unfolding grant_credit SendWindow.grant
grant_credit-AllBacked c id s credit b h =
    let t = record s { send = SendWindow.grant s.send credit } in
    let paid : s.outbox_bytes ≤ (SendWindow.grant s.send credit).credit =
      omega (arith, b.paid, b.word) in
    let word : IsU32 (SendWindow.grant s.send credit).credit = omega arith in
    if_rule AllBacked (t.wants_writable && ltb 0 (free_credit t)) _ _
      (λ _.
        AllValues-insert IsBacked id _ c.streams
          (record { counted = b.counted; paid = paid; word = word }) h)
      (λ _.
        AllValues-insert IsBacked id _ c.streams
          (record { counted = b.counted; paid = paid; word = word }) h)

on_window_update-AllBacked :
    (env : Env) (c : Connection) (frame : Frame)
    → AllBacked c
    → Keeps (on_window_update env c frame)
unfolding on_window_update
on_window_update-AllBacked env c frame h =
    decode_rule env.window_update_codec FrameType.window_update frame.payload c _ h (λ wu.
      stream_rule c frame.stream_id _ h
        (λ s b. grant_credit-AllBacked c frame.stream_id s wu.credit b h))

on_stream_open-AllBacked :
    (env : Env) (c : Connection) (frame : Frame)
    → IsU32 (params_of c).initial_window
    → AllBacked c
    → Keeps (on_stream_open env c frame)
unfolding on_stream_open accept_open Stream.new SendWindow.new
on_stream_open-AllBacked env c frame w h =
    if_rule Keeps
      (not (is_peer_parity c frame.stream_id) || leb frame.stream_id c.last_peer_stream_id) _ _
      (λ _. h)
      (λ _. decode_rule env.class_codec FrameType.open_stream frame.payload c _ h (λ class.
        if_rule Keeps (class_beq class Class.control) _ _ (λ _. h)
          (λ _.
            AllValues-insert IsBacked frame.stream_id _ c.streams
              (record { counted = refl; paid = omega arith; word = w }) h)))

-- No frame on a stream, whatever its type and whether it is accepted or refused, breaks the
-- accounting: if each stream's outbox was counted exactly and paid for by its credit before, it is
-- after. The announced window has to be a 32-bit word.
pub dispatch_stream-AllBacked :
    (env : Env) (c : Connection) (frame : Frame) (t : FrameType)
    → IsU32 (params_of c).initial_window
    → AllBacked c
    → AllBacked (dispatch_stream env c frame t).0
unfolding dispatch_stream on_data
dispatch_stream-AllBacked env c frame FrameType.open_stream w h =
    on_stream_open-AllBacked env c frame w h
dispatch_stream-AllBacked env c frame FrameType.payload w h =
    on_data-AllBacked env c frame.stream_id frame.payload h
dispatch_stream-AllBacked env c frame FrameType.fin w h = on_fin-AllBacked c frame h
dispatch_stream-AllBacked env c frame FrameType.rst w h = on_rst-AllBacked env c frame h
dispatch_stream-AllBacked env c frame FrameType.window_update w h =
    on_window_update-AllBacked env c frame h
dispatch_stream-AllBacked env c frame _ w h = h
