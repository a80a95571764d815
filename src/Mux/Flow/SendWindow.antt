-- ===== src/Mux/Flow/SendWindow.antt =====
-- `SendWindow` of crates/weaver-mux/src/flow.rs. A method that mutates returns the new record.
use tunnel_weaver.Base.{ℕ, sat_add32, sat_sub}

pub record SendWindow : Type 0 where
  pub credit : ℕ  -- u32

unfoldable pub new : ℕ → SendWindow
new initial = record { credit = initial }

unfoldable pub grant : SendWindow → ℕ → SendWindow
grant w extra = record w { credit = sat_add32 w.credit extra }

-- The debug assertion `wire_len <= credit` is the callers' obligation.
unfoldable pub consume : SendWindow → ℕ → SendWindow
consume w wire_len = record w { credit = sat_sub w.credit wire_len }
