-- ===== src/Mux/FrameType.antt =====
-- `FrameType` of crates/weaver-mux/src/frame.rs, with its wire discriminants.
use tunnel_weaver.Base.{ℕ}

pub data FrameType : Type 0 where
  challenge hello welcome reject open_stream payload fin rst window_update : FrameType
  ping pong goaway : FrameType

-- `frame_type as u8`.
unfoldable pub as_u8 : FrameType → ℕ
as_u8 challenge = 0x01
as_u8 hello = 0x02
as_u8 welcome = 0x03
as_u8 reject = 0x04
as_u8 open_stream = 0x05
as_u8 payload = 0x06
as_u8 fin = 0x07
as_u8 rst = 0x08
as_u8 window_update = 0x09
as_u8 ping = 0x0a
as_u8 pong = 0x0b
as_u8 goaway = 0x0c
