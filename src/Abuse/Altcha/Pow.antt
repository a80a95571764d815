-- ===== src/Abuse/Altcha/Pow.antt =====
-- crates/weaver-abuse/src/altcha/pow.rs: how a challenge is made, solved and verified.
pub mod Accepts
pub mod Solved
use tunnel_weaver.Base.{
  ℕ, zero, suc, ◌+◌, ◌/◌, ◌%◌, ◌^◌, ◌==◌, ltb, leb, ◌&&◌, ◌||◌, not, if◌then◌else◌, Bool, true,
  false, List, [], ◌∷◌, ◌++◌, Option, none, some, unwrap_or, Result, ok, err, length, take,
  is_empty, bytes_eq, bytes_key, ascii, lookup, starts_with, to_ascii_lowercase, is_hex_digit,
  u32_max, min, ◌>>=◌, ◌>>◌,
}
use tunnel_weaver.Relay.Host.{every, eq_ignore_ascii_case}
use tunnel_weaver.Abuse.Altcha.{
  ChallengeParameters, Challenge, Solution, ProofError, Libraries, supported_algorithm,
}

unfoldable pub is_supported : List ℕ → Bool
unfolding eq_ignore_ascii_case
is_supported algorithm = eq_ignore_ascii_case algorithm supported_algorithm

-- `filter(|&t| t != 0)`.
abbrev pub nonzero : Option ℕ → Option ℕ
nonzero none = none
nonzero (some t) = if t == 0 then none else some t

abbrev pub is_past : Option ℕ → ℕ → Bool
is_past none now_ms = false
is_past (some t) now_ms = ltb t (now_ms / 1000)

-- The nonce, and the counter in four bytes, the highest first.
unfoldable pub build_password : List ℕ → ℕ → List ℕ
build_password nonce counter =
    nonce
    ++ (counter / 2 ^ 24 % 256
        ∷ counter / 2 ^ 16 % 256
        ∷ counter / 2 ^ 8 % 256
        ∷ counter % 256
        ∷ [])

abbrev pub ok_or : {E A : Type 0} → Option A → E → Result E A
ok_or none e = err e
ok_or (some a) e = ok a

abbrev pub refuse_if : {E : Type 0} → Bool → E → Result E (Unit {0})
refuse_if true e = err e
refuse_if false e = ok tt

pub record VerifyRequest (Json : Type 0) : Type 0 where
  pub challenge : Challenge Json
  pub solution : Solution
  pub secret : List ℕ
  pub now_ms : ℕ
  pub expected_purpose : List ℕ
  pub expected_flow : List ℕ

pub record Verified : Type 0 where
  pub nonce : List ℕ
  pub purpose : List ℕ
  pub flow : List ℕ

pub record CreateRequest (Json : Type 0) : Type 0 where
  pub algorithm : List ℕ
  pub cost : ℕ
  pub key_length : ℕ
  pub key_prefix : List ℕ
  pub ttl_secs : ℕ
  pub secret : List ℕ
  pub context : List (List ℕ × Json)
  pub nonce : List ℕ
  pub salt : List ℕ
  pub now_ms : ℕ

pub record SolveLimits : Type 0 where
  pub max_cost : ℕ
  pub max_work : ℕ

-- The texts that go with the variants are left out.
pub data SolveError : Type 0 where
  unsupported_algorithm malformed too_expensive unsolved : SolveError

-- `16f64.powi(digits) > f64::from(counters)`: both numbers are exact in an `f64`.
unfoldable pub is_hopeless : ℕ → ℕ → Bool
is_hopeless digits counters = ltb counters (16 ^ min digits 16)

module _ {Json : Type 0} (lib : Libraries Json) where
  unfoldable pub sign : List ℕ → ChallengeParameters Json → List ℕ
  sign secret params = lib.hex_encode (lib.hmac_sha256 secret (lib.canonical_json params))

  unfoldable pub create_challenge : CreateRequest Json → Challenge Json
  unfolding sign
  create_challenge req =
      let parameters : ChallengeParameters Json = record {
        algorithm = req.algorithm;
        cost = req.cost;
        context = if is_empty req.context then none else some req.context;
        expires_at = if ltb 0 req.ttl_secs then some (req.now_ms / 1000 + req.ttl_secs) else none;
        key_length = req.key_length;
        key_prefix = to_ascii_lowercase req.key_prefix;
        nonce = lib.hex_encode req.nonce;
        salt = lib.hex_encode req.salt;
      } in
      record { parameters = parameters; signature = some (sign req.secret parameters) }

  abbrev pub derive_key : ChallengeParameters Json → List ℕ → List ℕ → ℕ → List ℕ
  derive_key params nonce salt counter =
      lib.pbkdf2 (build_password nonce counter) salt params.cost params.key_length

  abbrev pub whole_bytes_match : Option (List ℕ) → List ℕ → Bool
  whole_bytes_match none derived = false
  whole_bytes_match (some bytes) derived = starts_with bytes derived

  unfoldable pub key_prefix_matches : List ℕ → List ℕ → Bool
  unfolding eq_ignore_ascii_case
  key_prefix_matches prefix derived =
      if length prefix % 2 == 0
      then whole_bytes_match (lib.hex_decode prefix) derived
      else if not (every is_hex_digit prefix)
      then false
      else leb (length prefix) (length (lib.hex_encode derived))
        && eq_ignore_ascii_case (take (length prefix) (lib.hex_encode derived)) prefix

  -- The string under a key, or the empty one.
  abbrev pub string_or_empty : Option Json → List ℕ
  string_or_empty none = []
  string_or_empty (some v) = unwrap_or (lib.as_str v) []

  abbrev pub signed : List (List ℕ × Json) → List ℕ → List ℕ
  signed context name = string_or_empty (lookup name context)

  abbrev pub is_bound : List (List ℕ × Json) → List ℕ → List ℕ → Bool
  is_bound context purpose flow =
      bytes_eq (signed context (ascii "purpose")) purpose
      && bytes_eq (signed context (ascii "flow")) flow

  abbrev pub solves : ChallengeParameters Json → List ℕ → List ℕ → Solution → Bool
  solves params nonce salt solution =
      let derived = derive_key params nonce salt solution.counter in
      bytes_eq (lib.hex_encode derived) solution.derived_key
      && key_prefix_matches params.key_prefix derived

  unfoldable pub verify_solution : VerifyRequest Json → Result ProofError Verified
  unfolding is_supported sign build_password key_prefix_matches
  verify_solution req =
      let params = req.challenge.parameters in
      do
        refuse_if (is_past (nonzero params.expires_at) req.now_ms) ProofError.expired
        signature ← ok_or req.challenge.signature ProofError.missing_signature
        refuse_if (not (bytes_eq signature (sign req.secret params))) ProofError.bad_signature
        refuse_if (not (is_supported params.algorithm)) ProofError.unsupported_algorithm
        context ← ok_or params.context ProofError.wrong_context
        let purpose = signed context (ascii "purpose")
        let flow = signed context (ascii "flow")
        refuse_if (not (is_bound context req.expected_purpose req.expected_flow))
            ProofError.wrong_context
        nonce ← ok_or (lib.hex_decode params.nonce) ProofError.bad_solution
        salt ← ok_or (lib.hex_decode params.salt) ProofError.bad_solution
        refuse_if (not (solves params nonce salt req.solution)) ProofError.bad_solution
        ok (record { nonce = params.nonce; purpose = purpose; flow = flow })

  -- The counters from `counter` on, `left` of them.
  unfoldable pub solve_from : ChallengeParameters Json → List ℕ → List ℕ → ℕ → ℕ → Option Solution
  unfolding build_password key_prefix_matches
  solve_from params nonce salt counter zero = none
  solve_from params nonce salt counter (suc left) =
      let derived = derive_key params nonce salt counter in
      elim (key_prefix_matches params.key_prefix derived) [
        | true ↦ some (record { counter = counter; derived_key = lib.hex_encode derived })
        | false ↦ solve_from params nonce salt (counter + 1) left
      ]

  abbrev pub solve_decoded :
      ChallengeParameters Json → Option (List ℕ) → Option (List ℕ) → ℕ → Option Solution
  solve_decoded params none salt max_counter = none
  solve_decoded params (some nonce) none max_counter = none
  solve_decoded params (some nonce) (some salt) max_counter =
      solve_from params nonce salt 0 (max_counter + 1)

  unfoldable pub solve_within : Challenge Json → ℕ → Option Solution
  unfolding solve_from
  solve_within challenge max_counter =
      let params = challenge.parameters in
      solve_decoded params (lib.hex_decode params.nonce) (lib.hex_decode params.salt) max_counter

  unfoldable pub try_solve_challenge : Challenge Json → SolveLimits → Result SolveError Solution
  unfolding is_supported is_hopeless solve_within
  try_solve_challenge challenge limits =
      let params = challenge.parameters in
      do
        refuse_if (not (is_supported params.algorithm)) SolveError.unsupported_algorithm
        refuse_if (params.cost == 0 || (params.key_length == 0 || ltb 64 params.key_length))
            SolveError.malformed
        refuse_if (not (every is_hex_digit params.key_prefix)) SolveError.malformed
        refuse_if (ltb limits.max_cost params.cost) SolveError.too_expensive
        let max_counter = min (limits.max_work / params.cost) u32_max
        refuse_if (is_hopeless (length params.key_prefix) max_counter) SolveError.too_expensive
        ok_or (solve_within challenge max_counter) SolveError.unsolved
