-- ===== src/Abuse/Altcha/Consume/Spent.antt =====
-- The row that an accepted proof leaves, and what a call changes.
use tunnel_weaver.Base.{
  ℕ, ◌/◌, ◌≤◌, leb, if◌then◌else◌, ◌&&◌, Bool, true, false, List, [], ◌∷◌, some, Result, ok, err,
  bytes_eq_iff, arith, ◌≡◌, ◌≢◌, inl, inr, refl, sym, ap, ◌∙◌, Option-cases, Result-cases,
}
use tunnel_weaver.Abuse.Store.{StoreError}
use tunnel_weaver.Abuse.Altcha.{Libraries}
use tunnel_weaver.Abuse.Altcha.Pow.{Verified}
use tunnel_weaver.Abuse.Altcha.Pow.Accepts.{verify_solution-Accepts}
use tunnel_weaver.Abuse.Altcha.Proofs.{
  AltchaProof, ConsumeKey, ConsumeOutcome, is_proof_of, is_spent, insert_proof,
  altcha_consume_proof, altcha_sweep_proofs,
}
use tunnel_weaver.Abuse.Altcha.Clients.{
  AltchaClientRow, AltchaClient, model_to_client, altcha_client_live,
}
use tunnel_weaver.Abuse.Altcha.Consume.{
  ConsumeRequest, Tables, to_verify, key_of, outcome, check_proof, verify_and_consume,
}

-- Whether a row of the client and the nonce is there, that lives until `expiry` at least.
unfoldable pub is_kept : List ℕ → List ℕ → ℕ → List AltchaProof → Bool
is_kept public_key nonce expiry [] = false
is_kept public_key nonce expiry (row ∷ rows) =
    if is_proof_of public_key nonce row && leb expiry row.expires_at_ms
    then true
    else is_kept public_key nonce expiry rows

module _ (public_key nonce : List ℕ) (expiry : ℕ) where
  pub is_kept-is_spent :
      (rows : List AltchaProof)
      → is_kept public_key nonce expiry rows ≡ true
      → is_spent public_key nonce rows ≡ true
  unfolding is_kept is_spent
  is_kept-is_spent [] h = absurd (cc)
  is_kept-is_spent (row ∷ rows) h = ground (arith, is_kept-is_spent rows)

  pub is_kept-sweep :
      (rows : List AltchaProof) (cutoff_ms : ℕ)
      → cutoff_ms ≤ expiry
      → is_kept public_key nonce expiry rows ≡ true
      → is_kept public_key nonce expiry (altcha_sweep_proofs rows cutoff_ms).0 ≡ true
  unfolding is_kept altcha_sweep_proofs
  is_kept-sweep [] cutoff_ms le h = absurd (cc)
  is_kept-sweep (row ∷ rows) cutoff_ms le h = ground (arith, is_kept-sweep rows cutoff_ms le)

  pub is_kept-consume :
      (counted rows : List AltchaProof) (key : ConsumeKey) (now_ms cap : ℕ)
      → is_kept public_key nonce expiry rows ≡ true
      → is_kept public_key nonce expiry (altcha_consume_proof counted rows key now_ms cap).0 ≡ true
  unfolding is_kept altcha_consume_proof insert_proof
  is_kept-consume counted rows key now_ms cap h = ground arith

-- A spent proof leaves its row.
pub is_kept-consumed :
    (counted rows : List AltchaProof) (key : ConsumeKey) (now_ms cap : ℕ)
    → (altcha_consume_proof counted rows key now_ms cap).1 ≡ ok ConsumeOutcome.consumed
    → is_kept key.public_key key.nonce key.expires_at_ms
        (altcha_consume_proof counted rows key now_ms cap).0
      ≡ true
unfolding is_kept altcha_consume_proof insert_proof
is_kept-consumed counted rows key now_ms cap h =
    ground (arith, bytes_eq_iff key.public_key key.public_key, bytes_eq_iff key.nonce key.nonce)

pub consumed_not-is_spent :
    (counted rows : List AltchaProof) (key : ConsumeKey) (now_ms cap : ℕ)
    → (altcha_consume_proof counted rows key now_ms cap).1 ≡ ok ConsumeOutcome.consumed
    → is_spent key.public_key key.nonce rows ≡ false
unfolding altcha_consume_proof insert_proof
consumed_not-is_spent counted rows key now_ms cap h = ground arith

module _ {Json : Type 0} (lib : Libraries Json) where
  -- What an accepted proof has behind it.
  pub record IsSpent (t : Tables) (counted : List AltchaProof) (request : ConsumeRequest Json)
      (v : Verified) : Type 0 where
    pub row : AltchaClientRow
    pub is_client : altcha_client_live t.clients request.client ≡ some row
    pub is_verified : check_proof lib request (model_to_client row) ≡ ok v
    pub is_consumed :
        (altcha_consume_proof counted t.proofs (key_of request v) request.now_ms t.cap).1
        ≡ ok ConsumeOutcome.consumed
    pub leaves :
        (verify_and_consume lib t counted request).0.proofs
        ≡ (altcha_consume_proof counted t.proofs (key_of request v) request.now_ms t.cap).0

  outcome_lem :
      (verified v : Verified) (r : Result StoreError ConsumeOutcome)
      → outcome verified r ≡ ok v
      → (verified ≡ v) × (r ≡ ok ConsumeOutcome.consumed)
  outcome_lem verified v (ok ConsumeOutcome.consumed) h = (ground arith, refl)
  outcome_lem verified v (ok ConsumeOutcome.already_spent) h = absurd (cc)
  outcome_lem verified v (err e) h = absurd (cc)

  pub verify_and_consume-IsSpent :
      (t : Tables) (counted : List AltchaProof) (request : ConsumeRequest Json) (v : Verified)
      → (verify_and_consume lib t counted request).1 ≡ ok v
      → IsSpent t counted request v
  unfolding verify_and_consume
  verify_and_consume-IsSpent t counted request v h =
      elim (Option-cases (altcha_client_live t.clients request.client)) [
        | inl e ↦ absurd (ground arith)
        | inr (row, e) ↦ elim (Result-cases (check_proof lib request (model_to_client row))) [
          | inr (refusal, f) ↦ absurd (ground arith)
          | inl (u, f) ↦
              let spending = λ (w : Verified).
                altcha_consume_proof counted t.proofs (key_of request w) request.now_ms t.cap in
              let (same, done) = outcome_lem u v (spending u).1 (rw (e, f) at h) in
              record {
                row = row;
                is_client = e;
                is_verified = f ∙ ap ok same;
                is_consumed = ap (λ w. (spending w).1) (sym same) ∙ done;
                leaves = rw (e, f) (ap (λ w. (spending w).0) same);
              }
        ]
      ]

  -- A call keeps the rows that are there.
  pub is_kept-verify_and_consume :
      (t : Tables) (counted : List AltchaProof) (request : ConsumeRequest Json)
      (public_key nonce : List ℕ) (expiry : ℕ)
      → is_kept public_key nonce expiry t.proofs ≡ true
      → is_kept public_key nonce expiry (verify_and_consume lib t counted request).0.proofs ≡ true
  unfolding verify_and_consume
  is_kept-verify_and_consume t counted request public_key nonce expiry h =
      elim (Option-cases (altcha_client_live t.clients request.client)) [
        | inl e ↦ rw e h
        | inr (row, e) ↦ rw e (elim (Result-cases (check_proof lib request (model_to_client row))) [
          | inr (refusal, f) ↦ rw f h
          | inl (u, f) ↦ rw f (
              is_kept-consume public_key nonce expiry counted t.proofs (key_of request u)
                request.now_ms t.cap h)
        ])
      ]

  -- A proof that is verified names the nonce of its challenge, which has not run out.
  pub check_proof-IsCurrent :
      (request : ConsumeRequest Json) (client : AltchaClient) (v : Verified)
      → check_proof lib request client ≡ ok v
      → (v.nonce ≡ request.payload.challenge.parameters.nonce)
        × ((e : ℕ)
            → request.payload.challenge.parameters.expires_at ≡ some e
            → e ≢ 0
            → request.now_ms / 1000 ≤ e)
  check_proof-IsCurrent request client v h =
      let verified = verify_solution-Accepts lib (to_verify request client) v (ground arith) in
      (ap (λ w. w.nonce) verified.is_answer, verified.is_current)
