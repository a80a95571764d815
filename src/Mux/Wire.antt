-- ===== src/Mux/Wire.antt =====
-- crates/weaver-mux/src/wire.rs: the structured payloads and their postcard encoding. The postcard
-- library is a parameter, one `Postcard` for each payload type.
pub mod KeyText
use tunnel_weaver.Base.{
  ℕ, ◌+◌, ◌≡◌, Bool, String, List, [], ◌∷◌, ◌++◌, Option, none, some, Result, ok, err, length, All,
  IsByte,
}
use tunnel_weaver.Mux.FrameType.{FrameType}
use tunnel_weaver.Mux.Error.{ProtocolError, RejectCode}

abbrev pub min_version : ℕ
min_version = 1

abbrev pub max_version : ℕ
max_version = 1

-- b"weaver-mux-v1"
abbrev pub transcript_prefix : List ℕ
transcript_prefix =
    b'w' ∷ b'e' ∷ b'a' ∷ b'v' ∷ b'e' ∷ b'r' ∷ b'-' ∷ b'm' ∷ b'u' ∷ b'x' ∷ b'-' ∷ b'v' ∷ b'1' ∷ []

abbrev pub data_flag_compressed : ℕ
data_flag_compressed = 0x01

abbrev pub data_flag_more : ℕ
data_flag_more = 0x02

abbrev pub data_flags_known : ℕ
data_flags_known = 0x03

-- The key's bytes: 32 for Ed25519 and 33 for P-256, which `IsKeyId` states.
pub data KeyId : Type 0 where
  ed25519 : List ℕ → KeyId
  p256 : List ℕ → KeyId

abbrev pub IsKeyId : KeyId → Type 0
IsKeyId (ed25519 bytes) = (length bytes ≡ 32) × All IsByte bytes
IsKeyId (p256 bytes) = (length bytes ≡ 33) × All IsByte bytes

pub data Signature : Type 0 where
  ed25519 : List ℕ → Signature
  p256 : List ℕ → Signature

pub record Challenge : Type 0 where
  pub nonce_s : List ℕ

pub record Hello : Type 0 where
  pub version : ℕ
  pub key_id : KeyId
  pub nonce_c : List ℕ
  pub sig : Signature

pub record Params : Type 0 where
  pub max_frame : ℕ  -- u32
  pub initial_window : ℕ  -- u32
  pub compression_allowed : Bool
  pub max_message : ℕ  -- u32

pub record Welcome : Type 0 where
  pub version : ℕ
  pub params : Params

pub record Reject : Type 0 where
  pub code : RejectCode
  pub message : String

pub record Rst : Type 0 where
  pub code : ℕ

pub record WindowUpdate : Type 0 where
  pub credit : ℕ

pub record Ping : Type 0 where
  pub opaque : ℕ

-- `postcard::to_allocvec` and `postcard::take_from_bytes` at one type.
pub record Postcard (T : Type 0) : Type 0 where
  pub to_allocvec : T → List ℕ
  pub take_from_bytes : List ℕ → Option (T × List ℕ)

unfoldable pub encode_payload : {T : Type 0} → Postcard T → T → List ℕ
encode_payload p v = p.to_allocvec v

unfoldable pub decode_payload :
    {T : Type 0} → Postcard T → FrameType → List ℕ → Result ProtocolError T
decode_payload p frame_type bytes = elim (p.take_from_bytes bytes) [
  | none ↦ err (ProtocolError.decode frame_type)
  | some (value, _) ↦ ok value
]
