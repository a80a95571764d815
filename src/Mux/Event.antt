-- ===== src/Mux/Event.antt =====
-- crates/weaver-mux/src/event.rs: what a connection tells its application.
use tunnel_weaver.Base.{ℕ, String}
use tunnel_weaver.Mux.Class.{Class}
use tunnel_weaver.Mux.Error.{CloseReason, RejectCode}
use tunnel_weaver.Mux.Wire.{KeyId}

pub data Event : Type 0 where
  authenticated : (key_id : KeyId) (version : ℕ) → Event
  rejected : (code : RejectCode) (message : String) → Event
  stream_opened : (id : ℕ) (class : Class) → Event
  readable : (id : ℕ) → Event
  writable : (id credit : ℕ) → Event
  finished : (id : ℕ) → Event
  reset : (id code : ℕ) → Event
  closed : (reason : CloseReason) → Event
