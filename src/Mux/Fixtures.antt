-- ===== src/Mux/Fixtures.antt =====
-- An environment and connections to run the methods of a `Connection` in.
use tunnel_weaver.Base.{
  ℕ, zero, suc, leb, if◌then◌else◌, true, List, [], ◌∷◌, Option, none, some, ok, length, replicate,
}
use tunnel_weaver.Mux.FrameType.{FrameType}
use tunnel_weaver.Mux.Frame.{Frame}
use tunnel_weaver.Mux.Error.{CloseReason, CloseCode, RejectCode}
use tunnel_weaver.Mux.Wire.{KeyId, Signature, Hello, WindowUpdate, Postcard}
use tunnel_weaver.Mux.Class.{Class}
use tunnel_weaver.Mux.Config.{Role, base, default_params}
use tunnel_weaver.Mux.Handshake.{HandshakeState}
use tunnel_weaver.Mux.Stream.{Stream}
use tunnel_weaver.Mux.Stream
use tunnel_weaver.Mux.Timers.{Timers}
use tunnel_weaver.Mux.Timers
use tunnel_weaver.Mux.Env.{Env, PublicKey}
use tunnel_weaver.Mux.Connection.{Connection}
use tunnel_weaver.Mux.Connection

-- A codec of values that all read back as one.
abbrev pub only : {T : Type 0} → T → Postcard T
only v = record { to_allocvec = λ _. []; take_from_bytes = λ bytes. some (v, bytes) }

-- A credit, as one byte here.
abbrev pub read_credit : List ℕ → Option (WindowUpdate × List ℕ)
read_credit [] = none
read_credit (x ∷ rest) = some (record { credit = x }, rest)

abbrev pub credit_codec : Postcard WindowUpdate
credit_codec = record { to_allocvec = λ v. v.credit ∷ []; take_from_bytes = read_credit }

-- A compression that saves a leading zero.
abbrev pub squeeze : List ℕ → Option (List ℕ)
squeeze (zero ∷ rest) = some rest
squeeze _ = none

abbrev pub unsqueeze : List ℕ → ℕ → Option (List ℕ)
unsqueeze bytes cap = if leb (suc (length bytes)) cap then some (0 ∷ bytes) else none

abbrev pub key_bytes : List ℕ
key_bytes = replicate 32 7

abbrev pub peer : KeyId
peer = KeyId.ed25519 key_bytes

abbrev pub peer_hello : Hello
peer_hello = record {
  version = 1;
  key_id = peer;
  nonce_c = replicate 32 2;
  sig = Signature.ed25519 (replicate 64 3);
}

abbrev pub bye : CloseReason
bye = record { code = CloseCode.shutdown; message = "bye" }

abbrev pub env : Env
env = record {
  challenge_codec = only (record { nonce_s = replicate 32 1 });
  hello_codec = only peer_hello;
  welcome_codec = only (record { version = 1; params = default_params });
  reject_codec = only (record { code = RejectCode.bad_signature; message = "" });
  goaway_codec = only bye;
  rst_codec = only (record { code = 0 });
  window_update_codec = credit_codec;
  ping_codec = only (record { opaque = 1 });
  class_codec = only Class.bulk;
  zstd_compress = squeeze;
  zstd_decompress = unsqueeze;
  below_cutoff = λ _. true;
  ed25519_key = λ _. true;
  ed25519_verify = λ _ _ _. true;
  p256_key = λ _. true;
  p256_signature = λ _. true;
  p256_verify = λ _ _ _. true;
  nonce = replicate 32 1;
  signer_key_id = peer;
  sign = λ _. ok (Signature.ed25519 (replicate 64 3));
  public_key = λ _. some (PublicKey.ed25519 key_bytes);
  still_valid = λ _. true;
  describe = λ _. "error";
}

-- A server that checks its peer again all the time, before the handshake.
abbrev pub server : Connection
server = Connection.new env (base (Role.server default_params (some 0)) []) 0

abbrev pub hello_frame : Frame
hello_frame = record { stream_id = 0; frame_type = FrameType.hello; payload = [] }

-- A client whose handshake does not end.
abbrev pub client : Connection
client = Connection.new env (base Role.client []) 0

-- A stream that has sent its OPEN, and one with a payload to send.
abbrev pub incoming : Stream
incoming = Stream.new Class.interactive 65536 true

abbrev pub outgoing : Stream
outgoing = record incoming { outbox = (0 ∷ 9 ∷ []) ∷ []; outbox_bytes = 2 }

-- The same server once the peer is authenticated, with a stream that has sent its OPEN.
abbrev pub ready : Connection
ready = record server {
  hs = HandshakeState.done;
  key_id = some peer;
  version = some 1;
  params = some default_params;
  timers = Timers.on_authenticated server.timers 0;
  streams = (2, incoming) ∷ [];
}

-- A message to send.
abbrev pub message : List ℕ
message = 1 ∷ 2 ∷ 3 ∷ 4 ∷ 5 ∷ []
