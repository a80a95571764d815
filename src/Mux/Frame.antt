-- ===== src/Mux/Frame.antt =====
-- crates/weaver-mux/src/frame.rs: the frame header codec. A byte slice is a list of numbers.
pub mod RoundTrip
use tunnel_weaver.Base.{
  ℕ, ◌+◌, ◌*◌, ◌/◌, ◌%◌, ◌^◌, ◌==◌, if◌then◌else◌, List, [], ◌∷◌, ◌++◌, length, Result, ok, err,
  ◌>>=◌,
}
use tunnel_weaver.Mux.FrameType.{FrameType, as_u8}
use tunnel_weaver.Mux.Error.{ProtocolError, truncated, unknown_frame_type}

-- `FrameType::try_from`.
unfoldable pub try_from : ℕ → Result ProtocolError FrameType
try_from byte =
    if byte == 0x01
    then ok FrameType.challenge
    else if byte == 0x02
    then ok FrameType.hello
    else if byte == 0x03
    then ok FrameType.welcome
    else if byte == 0x04
    then ok FrameType.reject
    else if byte == 0x05
    then ok FrameType.open_stream
    else if byte == 0x06
    then ok FrameType.payload
    else if byte == 0x07
    then ok FrameType.fin
    else if byte == 0x08
    then ok FrameType.rst
    else if byte == 0x09
    then ok FrameType.window_update
    else if byte == 0x0a
    then ok FrameType.ping
    else if byte == 0x0b
    then ok FrameType.pong
    else if byte == 0x0c
    then ok FrameType.goaway
    else err (unknown_frame_type byte)

pub record Frame : Type 0 where
  pub stream_id : ℕ  -- u32
  pub frame_type : FrameType
  pub payload : List ℕ

abbrev pub header_len : ℕ
header_len = 5

-- `u32::from_be_bytes` and `u32::to_be_bytes`.
abbrev pub from_be_bytes : ℕ → ℕ → ℕ → ℕ → ℕ
from_be_bytes a b c d = a * 2 ^ 24 + b * 2 ^ 16 + c * 2 ^ 8 + d

abbrev pub to_be_bytes : ℕ → List ℕ
to_be_bytes n = n / 2 ^ 24 % 256 ∷ n / 2 ^ 16 % 256 ∷ n / 2 ^ 8 % 256 ∷ n % 256 ∷ []

-- The first clause takes what holds `header_len` bytes, the last what is shorter.
unfoldable pub parse : List ℕ → Result ProtocolError Frame
parse (a ∷ b ∷ c ∷ d ∷ t ∷ rest) = do
  frame_type ← try_from t
  ok (record { stream_id = from_be_bytes a b c d; frame_type = frame_type; payload = rest })
parse input = err (truncated (length input))

-- `encode_into` appends to the caller's buffer.
unfoldable pub encode_into : Frame → List ℕ → List ℕ
encode_into f buf = buf ++ (to_be_bytes f.stream_id ++ (as_u8 f.frame_type ∷ f.payload))

unfoldable pub wire_len : Frame → ℕ
wire_len f = header_len + length f.payload
