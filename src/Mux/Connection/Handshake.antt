-- ===== src/Mux/Connection/Handshake.antt =====
-- The frames of stream 0: the handshake, PING, PONG and GOAWAY, as connection.rs handles them.
pub mod Authentic
pub mod Limits
use tunnel_weaver.Base.{
  ℕ, ltb, leb, ◌==◌, ◌&&◌, ◌||◌, if◌then◌else◌, not, Bool, true, false, String, List, Option, none,
  some, Result, ok, err, unwrap_or,
}
use tunnel_weaver.Mux.FrameType.{FrameType}
use tunnel_weaver.Mux.Frame.{Frame}
use tunnel_weaver.Mux.Error.{
  ProtocolError, CloseReason, CloseCode, RejectCode, state_violation, bad_params,
}
use tunnel_weaver.Mux.Event.{Event}
use tunnel_weaver.Mux.Wire.{
  KeyId, Params, Challenge, Hello, Welcome, Reject, Ping, encode_payload, decode_payload,
  max_version,
}
use tunnel_weaver.Mux.Config.{Role, is_server, min_window, max_window, min_message}
use tunnel_weaver.Mux.Handshake.{HandshakeState, negotiate, accept_version}
use tunnel_weaver.Mux.Auth.{transcript, verify}
use tunnel_weaver.Mux.Timers
use tunnel_weaver.Mux.Sched.Tree
use tunnel_weaver.Mux.Env.{Env, PublicKey}
use tunnel_weaver.Mux.Connection.{
  Connection, push_event, push_priority, queue_control, connection_frame, is_done,
}
use tunnel_weaver.Mux.Connection.Close.{close_internal, reject, reason_of}

-- The state after a handler, and `Err(e)` or `Ok(())`.
abbrev pub Outcome : Type 0
Outcome = Connection × Option ProtocolError

abbrev pub violation : Connection → String → Outcome
violation c what = (c, some (state_violation what))

unfoldable pub is_await_challenge : HandshakeState → Bool
is_await_challenge HandshakeState.await_challenge = true
is_await_challenge _ = false

unfoldable pub is_challenge_sent : HandshakeState → Bool
is_challenge_sent HandshakeState.challenge_sent = true
is_challenge_sent _ = false

unfoldable pub is_hello_sent : HandshakeState → Bool
is_hello_sent HandshakeState.hello_sent = true
is_hello_sent _ = false

-- `on_challenge` once the payload is read.
unfoldable pub answer_challenge : Env → Connection → Challenge → Outcome
answer_challenge env c ch =
    let msg = transcript ch.nonce_s env.nonce c.cfg.server_name c.cfg.channel_binding in
    elim (env.sign msg) [
      | err e ↦ (close_internal env c (reason_of CloseCode.rejected e) true, none)
      | ok sig ↦ (
        push_priority (record c { key_id = some env.signer_key_id; hs = HandshakeState.hello_sent })
            (connection_frame FrameType.hello (
              encode_payload env.hello_codec (record {
                version = max_version;
                key_id = env.signer_key_id;
                nonce_c = env.nonce;
                sig = sig;
              }))),
        none,
      )
    ]

unfoldable pub on_challenge : Env → Connection → Frame → Outcome
unfolding answer_challenge
on_challenge env c frame =
    if not (is_await_challenge c.hs)
    then violation c "unexpected CHALLENGE"
    else if is_server c.cfg.role
    then violation c "unexpected CHALLENGE"
    else elim (decode_payload env.challenge_codec FrameType.challenge frame.payload) [
      | err e ↦ (c, some e)
      | ok ch ↦ answer_challenge env c ch
    ]

unfoldable pub finish_handshake : Connection → ℕ → ℕ → Params → KeyId → Connection
finish_handshake c now version params key_id =
    push_event
      (record c {
        hs = HandshakeState.done;
        version = some version;
        params = some params;
        timers = Timers.on_authenticated c.timers now;
      })
      (Event.authenticated key_id version)

-- `on_hello` once the version is agreed and the key is known.
unfoldable pub check_hello : Env → Connection → ℕ → Params → Hello → ℕ → PublicKey → Outcome
unfolding finish_handshake
check_hello env c now params hello version pk =
    let nonce_s = unwrap_or c.nonce_s env.nonce in
    let msg = transcript nonce_s hello.nonce_c c.cfg.server_name c.cfg.channel_binding in
    if verify env hello.key_id pk msg hello.sig
    then (
      finish_handshake
          (push_priority (record c { key_id = some hello.key_id })
            (connection_frame FrameType.welcome
              (encode_payload env.welcome_codec (record { version = version; params = params }))))
          now version params hello.key_id,
      none,
    )
    else (reject env c RejectCode.bad_signature "signature verification failed", none)

-- `on_hello` once the payload is read.
unfoldable pub answer_hello : Env → Connection → ℕ → Params → Hello → Outcome
unfolding check_hello
answer_hello env c now params hello = elim (negotiate hello.version) [
  | err code ↦ (reject env c code "unsupported protocol version", none)
  | ok version ↦ elim (env.public_key hello.key_id) [
    | none ↦ (reject env c RejectCode.unknown_key "unknown key", none)
    | some pk ↦ check_hello env c now params hello version pk
  ]
]

abbrev pub on_hello_as : Env → Connection → ℕ → Frame → Role → Outcome
on_hello_as env c now frame Role.client = violation c "unexpected HELLO"
on_hello_as env c now frame (Role.server params _) =
    elim (decode_payload env.hello_codec FrameType.hello frame.payload) [
      | err e ↦ (c, some e)
      | ok hello ↦ answer_hello env c now params hello
    ]

unfoldable pub on_hello : Env → Connection → ℕ → Frame → Outcome
unfolding answer_hello
on_hello env c now frame =
    if not (is_challenge_sent c.hs)
    then violation c "unexpected HELLO"
    else on_hello_as env c now frame c.cfg.role

-- The checks of `on_welcome`; `none` accepts.
unfoldable pub check_welcome : Welcome → Option ProtocolError
check_welcome w =
    if not (accept_version max_version w.version)
    then some (bad_params "version")
    else if not (leb min_window w.params.initial_window && leb w.params.initial_window max_window)
    then some (bad_params "initial_window")
    else if ltb w.params.max_frame 2
    then some (bad_params "max_frame")
    else if ltb w.params.max_message min_message
    then some (bad_params "max_message")
    else none

unfoldable pub answer_welcome : Env → Connection → ℕ → Welcome → Outcome
unfolding check_welcome finish_handshake
answer_welcome env c now w = elim (check_welcome w) [
  | some e ↦ (c, some e)
  | none ↦ (
    finish_handshake (record c { sched = Tree.new c.cfg.weights w.params.max_frame }) now w.version
        w.params (unwrap_or c.key_id env.signer_key_id),
    none,
  )
]

unfoldable pub on_welcome : Env → Connection → ℕ → Frame → Outcome
unfolding answer_welcome
on_welcome env c now frame =
    if is_server c.cfg.role || not (is_hello_sent c.hs)
    then violation c "unexpected WELCOME"
    else elim (decode_payload env.welcome_codec FrameType.welcome frame.payload) [
      | err e ↦ (c, some e)
      | ok w ↦ answer_welcome env c now w
    ]

unfoldable pub on_reject : Env → Connection → Frame → Outcome
on_reject env c frame =
    if is_server c.cfg.role || not (is_hello_sent c.hs)
    then violation c "unexpected REJECT"
    else elim (decode_payload env.reject_codec FrameType.reject frame.payload) [
      | err e ↦ (c, some e)
      | ok r ↦ (
        close_internal env (push_event c (Event.rejected r.code r.message))
            (reason_of CloseCode.rejected r.message) false,
        none,
      )
    ]

unfoldable pub on_ping : Env → Connection → Frame → Outcome
on_ping env c frame = elim (decode_payload env.ping_codec FrameType.ping frame.payload) [
  | err e ↦ (c, some e)
  | ok p ↦
      (queue_control c (connection_frame FrameType.pong (encode_payload env.ping_codec p)), none)
]

abbrev pub answers : Option ℕ → ℕ → Bool
answers none opaque = false
answers (some o) opaque = o == opaque

unfoldable pub on_pong : Env → Connection → Frame → Outcome
on_pong env c frame = elim (decode_payload env.ping_codec FrameType.pong frame.payload) [
  | err e ↦ (c, some e)
  | ok p ↦ (
    (if answers c.timers.ping_outstanding p.opaque
        then record c { timers = record (c.timers) { ping_outstanding = none } }
        else c),
    none,
  )
]

unfoldable pub on_goaway : Env → Connection → Frame → Outcome
on_goaway env c frame = elim (decode_payload env.goaway_codec FrameType.goaway frame.payload) [
  | err e ↦ (c, some e)
  | ok g ↦ (close_internal env c g false, none)
]
