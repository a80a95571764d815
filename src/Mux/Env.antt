-- ===== src/Mux/Env.antt =====
-- What a `Connection` calls that is not code of the crate, as one record of functions: the postcard
-- library, the zstd contexts, the signature libraries, the boxed `Signer`, `Verifier` and `Rng` of
-- its configuration, and the message texts of the `thiserror` derive. An operation takes the
-- environment that it runs in, so two calls may be answered differently.
use tunnel_weaver.Base.{ℕ, Bool, String, List, Option, Result}
use tunnel_weaver.Mux.Error.{ProtocolError, CloseReason}
use tunnel_weaver.Mux.Wire.{
  KeyId, Signature, Challenge, Hello, Welcome, Reject, Rst, WindowUpdate, Ping, Postcard,
}
use tunnel_weaver.Mux.Class.{Class}

-- `auth::PublicKey`.
pub data PublicKey : Type 0 where
  ed25519 : List ℕ → PublicKey
  p256 : List ℕ → PublicKey

pub record Env : Type 0 where
  pub challenge_codec : Postcard Challenge
  pub hello_codec : Postcard Hello
  pub welcome_codec : Postcard Welcome
  pub reject_codec : Postcard Reject
  pub goaway_codec : Postcard CloseReason
  pub rst_codec : Postcard Rst
  pub window_update_codec : Postcard WindowUpdate
  pub ping_codec : Postcard Ping
  pub class_codec : Postcard Class
  -- `zstd::bulk`: `none` is an `io::Error`.
  pub zstd_compress : List ℕ → Option (List ℕ)
  pub zstd_decompress : List ℕ → ℕ → Option (List ℕ)
  -- `entropy_bits_per_byte(sample) < ENTROPY_CUTOFF`, computed in floating point.
  pub below_cutoff : List ℕ → Bool
  -- `ed25519_dalek`: a key's bytes are a key; a message, a signature and a key agree.
  pub ed25519_key : List ℕ → Bool
  pub ed25519_verify : List ℕ → List ℕ → List ℕ → Bool
  -- `p256::ecdsa`: a key's bytes are a key, a signature's bytes are one, and all agree.
  pub p256_key : List ℕ → Bool
  pub p256_signature : List ℕ → Bool
  pub p256_verify : List ℕ → List ℕ → List ℕ → Bool
  -- The bytes that `rng.fill_bytes` draws in this call.
  pub nonce : List ℕ
  -- `Signer::key_id` and `Signer::sign`; an error is its message.
  pub signer_key_id : KeyId
  pub sign : List ℕ → Result String Signature
  -- `Verifier::public_key` and `Verifier::still_valid`.
  pub public_key : KeyId → Option PublicKey
  pub still_valid : KeyId → Bool
  -- `ProtocolError`'s `to_string`.
  pub describe : ProtocolError → String
