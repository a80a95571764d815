-- ===== src/Abuse/Altcha/Consume.antt =====
-- crates/weaver-abuse/src/altcha/consume.rs: a proof is verified and then spent, over the clients and
-- the spent proofs of the database, as `DbProofStore` of crates/weaver-server/src/altcha.rs joins them.
-- A read of the database that fails is left out; a full table is not.
pub mod Spent
use tunnel_weaver.Base.{
  ℕ, if◌then◌else◌, not, List, Option, none, some, Result, ok, err, sat_add63, sat_mul63,
}
use tunnel_weaver.Relay.Host.{eq_ignore_ascii_case}
use tunnel_weaver.Abuse.Store.{StoreError}
use tunnel_weaver.Abuse.Altcha.{Payload, ProofError, Libraries}
use tunnel_weaver.Abuse.Altcha.Pow.{Verified, VerifyRequest, nonzero, verify_solution}
use tunnel_weaver.Abuse.Altcha.Proofs.{
  AltchaProof, ConsumeKey, ConsumeOutcome, altcha_consume_proof,
}
use tunnel_weaver.Abuse.Altcha.Clients.{
  AltchaClientRow, AltchaClient, model_to_client, altcha_client_live,
}

abbrev pub no_expiry_marker_ms : ℕ
no_expiry_marker_ms = 3600000

pub data AltchaError : Type 0 where
  proof : ProofError → AltchaError
  store : StoreError → AltchaError

pub record ConsumeRequest (Json : Type 0) : Type 0 where
  pub client : List ℕ
  pub payload : Payload Json
  pub purpose : List ℕ
  pub flow : List ℕ
  pub now_ms : ℕ

-- The two tables, and the bound of `DbProofStore`.
pub record Tables : Type 0 where
  pub clients : List AltchaClientRow
  pub proofs : List AltchaProof
  pub cap : ℕ

abbrev pub marker_expiry : Option ℕ → ℕ → ℕ
marker_expiry none now_ms = sat_add63 now_ms no_expiry_marker_ms
marker_expiry (some secs) now_ms = sat_mul63 secs 1000

abbrev pub outcome : Verified → Result StoreError ConsumeOutcome → Result AltchaError Verified
outcome verified (ok ConsumeOutcome.consumed) = ok verified
outcome verified (ok ConsumeOutcome.already_spent) = err (AltchaError.proof ProofError.spent)
outcome verified (err e) = err (AltchaError.store e)

abbrev pub key_of : {Json : Type 0} → ConsumeRequest Json → Verified → ConsumeKey
key_of request verified = record {
  public_key = request.client;
  nonce = verified.nonce;
  expires_at_ms =
      marker_expiry (nonzero request.payload.challenge.parameters.expires_at) request.now_ms;
}

abbrev pub to_verify : {Json : Type 0} → ConsumeRequest Json → AltchaClient → VerifyRequest Json
to_verify request client = record {
  challenge = request.payload.challenge;
  solution = request.payload.solution;
  secret = client.secret;
  now_ms = request.now_ms;
  expected_purpose = request.purpose;
  expected_flow = request.flow;
}

module _ {Json : Type 0} (lib : Libraries Json) where
  abbrev pub spend :
      Tables
      → List AltchaProof
      → ConsumeRequest Json
      → Result ProofError Verified
      → Tables × Result AltchaError Verified
  spend t counted request (err e) = (t, err (AltchaError.proof e))
  spend t counted request (ok verified) =
      let (proofs, answer) =
        altcha_consume_proof counted t.proofs (key_of request verified) request.now_ms t.cap in
      (record t { proofs = proofs }, outcome verified answer)

  abbrev pub check_proof : ConsumeRequest Json → AltchaClient → Result ProofError Verified
  check_proof request client =
      if not (eq_ignore_ascii_case request.payload.challenge.parameters.algorithm client.algorithm)
      then err ProofError.unsupported_algorithm
      else verify_solution lib (record {
        challenge = request.payload.challenge;
        solution = request.payload.solution;
        secret = client.secret;
        now_ms = request.now_ms;
        expected_purpose = request.purpose;
        expected_flow = request.flow;
      })

  abbrev pub with_client :
      Tables
      → List AltchaProof
      → ConsumeRequest Json
      → Option AltchaClientRow
      → Tables × Result AltchaError Verified
  with_client t counted request none = (t, err (AltchaError.proof ProofError.unknown_client))
  with_client t counted request (some row) =
      spend t counted request (check_proof request (model_to_client row))

  -- `counted` is the table of spent proofs when its rows are counted, `t` the tables when the proof is
  -- inserted.
  unfoldable pub verify_and_consume :
      Tables → List AltchaProof → ConsumeRequest Json → Tables × Result AltchaError Verified
  unfolding eq_ignore_ascii_case verify_solution altcha_consume_proof altcha_client_live
  verify_and_consume t counted request =
      with_client t counted request (altcha_client_live t.clients request.client)
