-- ===== src/Mux/Timers/Deadlines.antt =====
-- `Timers::next_timeout` against `Timers::expired`.
use tunnel_weaver.Base.{ℕ, ◌≡◌, is_some, arith}
use tunnel_weaver.Mux.Timers.{Timers, next_timeout, expired, passed}

-- `next_timeout` is the exact instant from which `expired` reports something: at any time a deadline
-- is reported as expired if and only if `next_timeout` names an instant that is not later.
pub expired-next_timeout :
    (t : Timers) (now : ℕ) → is_some (expired t now) ≡ passed (next_timeout t) now
unfolding expired next_timeout
expired-next_timeout t now = ground arith
