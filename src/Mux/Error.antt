-- ===== src/Mux/Error.antt =====
-- crates/weaver-mux/src/error.rs: the error and close codes. A text of the program is a `String`.
use tunnel_weaver.Base.{ℕ, String}
use tunnel_weaver.Mux.FrameType.{FrameType}

pub data ProtocolError : Type 0 where
  truncated : ℕ → ProtocolError
  unknown_frame_type : ℕ → ProtocolError
  decode : FrameType → ProtocolError
  state_violation : String → ProtocolError
  bad_stream_id : ℕ → ProtocolError
  flow_control : ℕ → ProtocolError
  message_too_large : ℕ → ProtocolError
  bad_policy : ℕ → ProtocolError
  decompress : ℕ → ProtocolError
  bad_params : String → ProtocolError

pub data StreamError : Type 0 where
  not_authenticated closed unknown_stream send_closed would_block invalid_class : StreamError
  exhausted : StreamError
  too_large : (len max : ℕ) → StreamError

pub data CloseCode : Type 0 where
  key_revoked rejected superseded shutdown protocol_error timeout : CloseCode

pub record CloseReason : Type 0 where
  pub code : CloseCode
  pub message : String

pub data RejectCode : Type 0 where
  unknown_key : RejectCode
  unsupported_version : (min_version max_version : ℕ) → RejectCode
  bad_signature : RejectCode
