-- ===== src/Abuse/Altcha.antt =====
-- crates/weaver-abuse/src/altcha/types.rs: challenges, solutions and refusals of the proof of work, and
-- the libraries that the engine calls. A text is its bytes, a time is not negative.
pub mod Pow
pub mod Proofs
pub mod Clients
pub mod Consume
pub mod Events
pub mod Tests
use tunnel_weaver.Base.{ℕ, ascii, List, Option}

module _ (Json : Type 0) where
  -- `Json` stands for the values of `serde_json`.
  pub record ChallengeParameters : Type 0 where
    pub algorithm : List ℕ
    pub cost : ℕ
    pub context : Option (List (List ℕ × Json))
    pub expires_at : Option ℕ
    pub key_length : ℕ
    pub key_prefix : List ℕ
    pub nonce : List ℕ
    pub salt : List ℕ

  pub record Challenge : Type 0 where
    pub parameters : ChallengeParameters
    pub signature : Option (List ℕ)

pub record Solution : Type 0 where
  pub counter : ℕ
  pub derived_key : List ℕ

pub record Payload (Json : Type 0) : Type 0 where
  pub challenge : Challenge Json
  pub solution : Solution

pub data ProofError : Type 0 where
  expired missing_signature bad_signature unsupported_algorithm : ProofError
  wrong_context bad_solution spent unknown_client : ProofError

-- The calls of `hmac`, `pbkdf2`, `hex` and `serde_json`. `canonical_json` is the text of the parameters
-- with the keys of every object in order; `pbkdf2` takes the password, the salt, the rounds and the
-- length of the key.
pub record Libraries (Json : Type 0) : Type 0 where
  pub as_str : Json → Option (List ℕ)
  pub from_str : List ℕ → Json
  pub canonical_json : ChallengeParameters Json → List ℕ
  pub hmac_sha256 : List ℕ → List ℕ → List ℕ
  pub pbkdf2 : List ℕ → List ℕ → ℕ → ℕ → List ℕ
  pub hex_encode : List ℕ → List ℕ
  pub hex_decode : List ℕ → Option (List ℕ)

abbrev pub supported_algorithm : List ℕ
supported_algorithm = ascii "PBKDF2/SHA-256"
