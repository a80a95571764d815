-- ===== src/Mux/Stream.antt =====
-- crates/weaver-mux/src/stream.rs: the bookkeeping of one stream.
use tunnel_weaver.Base.{
  ℕ, ◌+◌, ◌&&◌, not, Bool, true, false, List, [], ◌∷◌, Option, none, some, length, is_empty,
  sat_sub, u32,
}
use tunnel_weaver.Mux.Class.{Class}
use tunnel_weaver.Mux.Frame.{header_len}
use tunnel_weaver.Mux.Flow.SendWindow
use tunnel_weaver.Mux.Flow.SendWindow.{SendWindow}
use tunnel_weaver.Mux.Flow.RecvWindow
use tunnel_weaver.Mux.Flow.RecvWindow.{RecvWindow}

abbrev pub rst_code_connection_closed : ℕ
rst_code_connection_closed = 0

pub record Stream : Type 0 where
  pub class : Class
  pub local_open : Bool
  pub remote_open : Bool
  pub open_sent : Bool
  pub outbox : List (List ℕ)
  pub outbox_bytes : ℕ  -- u32
  pub inbox : List (List ℕ × ℕ)
  pub partial : List ℕ
  pub partial_wire : ℕ  -- u32
  pub send : SendWindow
  pub recv : RecvWindow
  pub written_total : ℕ  -- u64
  pub wants_writable : Bool

unfoldable pub new : Class → ℕ → Bool → Stream
new class window open_sent = record {
  class = class;
  local_open = true;
  remote_open = true;
  open_sent = open_sent;
  outbox = [];
  outbox_bytes = 0;
  inbox = [];
  partial = [];
  partial_wire = 0;
  send = SendWindow.new window;
  recv = RecvWindow.new window;
  written_total = 0;
  wants_writable = false;
}

abbrev pub front_wire_len : List (List ℕ) → Option ℕ
front_wire_len [] = none
front_wire_len (p ∷ ps) = some (u32 (header_len + length p))

unfoldable pub head_len : Stream → Option ℕ
head_len s = front_wire_len s.outbox

unfoldable pub free_credit : Stream → ℕ
free_credit s = sat_sub s.send.credit s.outbox_bytes

unfoldable pub remote_drained : Stream → Bool
remote_drained s = not s.remote_open && is_empty s.inbox

unfoldable pub is_finished : Stream → Bool
unfolding remote_drained
is_finished s = not s.local_open && is_empty s.outbox && remote_drained s
