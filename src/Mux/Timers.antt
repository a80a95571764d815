-- ===== src/Mux/Timers.antt =====
-- crates/weaver-mux/src/timers.rs: the deadlines of a connection. Instants and durations are
-- nanoseconds on an unbounded clock.
pub mod Deadlines
use tunnel_weaver.Base.{
  ℕ, ◌+◌, ltb, leb, ◌&&◌, not, if◌then◌else◌, Bool, true, false, Option, none, some, is_some, min,
  max,
}

pub data Expired : Type 0 where
  handshake idle ping reverify : Expired

pub record Timers : Type 0 where
  pub last_now : ℕ
  pub last_recv : ℕ
  pub handshake_deadline : Option ℕ
  pub authenticated : Bool
  pub ping_outstanding : Option ℕ
  pub reverify_due : Option ℕ
  pub ping_interval : ℕ
  pub idle_timeout : ℕ
  pub reverify_interval : Option ℕ

unfoldable pub new : ℕ → ℕ → ℕ → ℕ → Option ℕ → Timers
new now handshake_timeout ping_interval idle_timeout reverify_interval = record {
  last_now = now;
  last_recv = now;
  handshake_deadline = some (now + handshake_timeout);
  authenticated = false;
  ping_outstanding = none;
  reverify_due = none;
  ping_interval = ping_interval;
  idle_timeout = idle_timeout;
  reverify_interval = reverify_interval;
}

-- The clamped instant is returned beside the timers that remember it.
unfoldable pub observe : Timers → ℕ → Timers × ℕ
observe t now = let now' = max now t.last_now in (record t { last_now = now' }, now')

abbrev pub after : ℕ → Option ℕ → Option ℕ
after now none = none
after now (some i) = some (now + i)

unfoldable pub on_authenticated : Timers → ℕ → Timers
on_authenticated t now = record t {
  authenticated = true;
  handshake_deadline = none;
  last_recv = now;
  reverify_due = after now t.reverify_interval;
}

unfoldable pub on_recv : Timers → ℕ → Timers
on_recv t now = record t { last_recv = now }

unfoldable pub ping_due : Timers → Option ℕ
ping_due t =
    if t.authenticated && not (is_some t.ping_outstanding)
    then some (t.last_recv + t.ping_interval)
    else none

unfoldable pub idle_deadline : Timers → Option ℕ
idle_deadline t = if t.authenticated then some (t.last_recv + t.idle_timeout) else none

-- The smaller of two deadlines that may be absent: `flatten` and `min`.
abbrev pub earlier : Option ℕ → Option ℕ → Option ℕ
earlier none b = b
earlier (some a) none = some a
earlier (some a) (some b) = some (min a b)

unfoldable pub next_timeout : Timers → Option ℕ
unfolding ping_due idle_deadline
next_timeout t =
    earlier t.handshake_deadline (earlier (ping_due t) (earlier (idle_deadline t) t.reverify_due))

-- `deadline.is_some_and(|d| now >= d)`.
abbrev pub passed : Option ℕ → ℕ → Bool
passed none now = false
passed (some d) now = leb d now

unfoldable pub expired : Timers → ℕ → Option Expired
unfolding ping_due idle_deadline
expired t now =
    if passed t.handshake_deadline now
    then some Expired.handshake
    else if passed (idle_deadline t) now
    then some Expired.idle
    else if passed t.reverify_due now
    then some Expired.reverify
    else if passed (ping_due t) now
    then some Expired.ping
    else none

unfoldable pub clear : Timers → Timers
clear t = record t {
  handshake_deadline = none;
  authenticated = false;
  ping_outstanding = none;
  reverify_due = none;
}
