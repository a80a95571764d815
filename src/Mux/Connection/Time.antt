-- ===== src/Mux/Connection/Time.antt =====
-- `next_timeout` and `handle_timeout` of connection.rs.
pub mod Termination
use tunnel_weaver.Base.{
  ℕ, zero, suc, ◌+◌, if◌then◌else◌, not, Bool, true, false, List, Option, none, some, is_some, u64,
}
use tunnel_weaver.Mux.FrameType.{FrameType}
use tunnel_weaver.Mux.Error.{CloseCode}
use tunnel_weaver.Mux.Wire.{KeyId, encode_payload}
use tunnel_weaver.Mux.Config.{Role}
use tunnel_weaver.Mux.Timers.{Timers, Expired, expired}
use tunnel_weaver.Mux.Timers
use tunnel_weaver.Mux.Env.{Env}
use tunnel_weaver.Mux.Connection.{Connection, queue_control, connection_frame}
use tunnel_weaver.Mux.Connection.Close.{close_internal, reason_of}

unfoldable pub next_timeout : Connection → Option ℕ
next_timeout c = if is_some c.closed then none else Timers.next_timeout c.timers

abbrev pub still_valid : Env → Role → Option KeyId → Bool
still_valid env (Role.server _ _) (some k) = env.still_valid k
still_valid env _ _ = true

abbrev pub rearm : ℕ → Timers → Option ℕ → Timers
rearm now t none = t
rearm now t (some interval) = record t { reverify_due = some (now + interval) }

-- The body of the loop for one deadline.
unfoldable pub fire : Env → Connection → ℕ → Expired → Connection
fire env c now Expired.handshake = close_internal env c (reason_of CloseCode.timeout "") true
fire env c now Expired.idle = close_internal env c (reason_of CloseCode.timeout "") true
fire env c now Expired.reverify =
    let c' = record c { timers = rearm now c.timers c.timers.reverify_interval } in
    if still_valid env c.cfg.role c.key_id
    then c'
    else close_internal env c' (reason_of CloseCode.key_revoked "") true
fire env c now Expired.ping =
    let opaque = u64 (c.ping_counter + 1) in
    queue_control
      (record c {
        ping_counter = opaque;
        timers = record (c.timers) { ping_outstanding = some opaque };
      })
      (connection_frame FrameType.ping (encode_payload env.ping_codec (record { opaque = opaque })))

-- The `while` of `handle_timeout`; `none` means that the fuel ran out.
unfoldable pub fire_all : ℕ → Env → Connection → ℕ → Option Connection
unfolding fire
fire_all zero env c now = none
fire_all (suc fuel) env c now = if is_some c.closed then some c else elim (expired c.timers now) [
  | none ↦ some c
  | some e ↦ fire_all fuel env (fire env c now e) now
]

-- `handle_timeout`, with fuel for its loop.
unfoldable pub handle_timeout : ℕ → Env → Connection → ℕ → Option Connection
unfolding fire_all
handle_timeout fuel env c now =
    let (timers, now') = Timers.observe c.timers now in
    fire_all fuel env (record c { timers = timers }) now'
