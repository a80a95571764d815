-- ===== src/Mux/Flow/RecvWindow.antt =====
-- `RecvWindow` of crates/weaver-mux/src/flow.rs. A method that mutates returns the new record first.
use tunnel_weaver.Base.{
  ℕ, ◌-◌, ◌/◌, ltb, leb, if◌then◌else◌, Bool, true, false, Option, none, some, sat_add32,
}

pub record RecvWindow : Type 0 where
  pub window : ℕ  -- u32
  pub remaining : ℕ  -- u32
  pub consumed_since_update : ℕ  -- u32

unfoldable pub new : ℕ → RecvWindow
new window = record { window = window; remaining = window; consumed_since_update = 0 }

-- The subtraction runs only where it does not wrap.
unfoldable pub on_data : RecvWindow → ℕ → RecvWindow × Bool
on_data w wire_len =
    if ltb w.remaining wire_len
    then (w, false)
    else (record w { remaining = w.remaining - wire_len }, true)

unfoldable pub on_consumed : RecvWindow → ℕ → RecvWindow × Option ℕ
on_consumed w wire_len =
    let consumed = sat_add32 w.consumed_since_update wire_len in
    if leb (w.window / 2) consumed
    then (
      record w { remaining = sat_add32 w.remaining consumed; consumed_since_update = 0 },
      some consumed,
    )
    else (record w { consumed_since_update = consumed }, none)
