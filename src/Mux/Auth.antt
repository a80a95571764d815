-- ===== src/Mux/Auth.antt =====
-- crates/weaver-mux/src/auth.rs: the transcript that a client signs, and the signature check.
pub mod Transcript
use tunnel_weaver.Base.{ℕ, ◌&&◌, Bool, true, false, List, [], ◌∷◌, ◌++◌, Option, none, some}
use tunnel_weaver.Mux.Wire.{KeyId, Signature, transcript_prefix}
use tunnel_weaver.Mux.Wire.KeyText.{list_beq}
use tunnel_weaver.Mux.Env.{Env, PublicKey}

abbrev pub optional : Option (List ℕ) → List ℕ
optional none = []
optional (some cb) = cb

-- The server's name is its UTF-8 bytes.
unfoldable pub transcript : List ℕ → List ℕ → List ℕ → Option (List ℕ) → List ℕ
transcript nonce_s nonce_c server_name channel_binding =
    transcript_prefix ++ (nonce_s ++ (nonce_c ++ (server_name ++ optional channel_binding)))

unfoldable pub verify : Env → KeyId → PublicKey → List ℕ → Signature → Bool
verify env (KeyId.ed25519 id) (PublicKey.ed25519 pk) msg (Signature.ed25519 sig) =
    list_beq id pk && env.ed25519_key pk && env.ed25519_verify pk msg sig
verify env (KeyId.p256 id) (PublicKey.p256 pk) msg (Signature.p256 sig) =
    list_beq id pk && env.p256_key pk && env.p256_signature sig && env.p256_verify pk msg sig
verify env _ _ msg _ = false
