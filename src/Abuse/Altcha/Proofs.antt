-- ===== src/Abuse/Altcha/Proofs.antt =====
-- The spent proofs of crates/weaver-server/src/store/altcha.rs, with the outcomes of
-- crates/weaver-abuse/src/altcha/store.rs. The table keeps at most one row of a client and a nonce.
use tunnel_weaver.Base.{
  ℕ, suc, ltb, leb, ◌&&◌, if◌then◌else◌, Bool, true, false, List, [], ◌∷◌, Result, ok, err,
  bytes_eq,
}
use tunnel_weaver.Abuse.Store.{StoreError}

pub data ConsumeOutcome : Type 0 where
  consumed already_spent : ConsumeOutcome

pub record ConsumeKey : Type 0 where
  pub public_key : List ℕ
  pub nonce : List ℕ
  pub expires_at_ms : ℕ

-- A row of `altcha_proof`.
pub record AltchaProof : Type 0 where
  pub public_key : List ℕ
  pub nonce : List ℕ
  pub consumed_at_ms : ℕ
  pub expires_at_ms : ℕ

abbrev pub is_proof_of : List ℕ → List ℕ → AltchaProof → Bool
is_proof_of public_key nonce row = bytes_eq row.public_key public_key && bytes_eq row.nonce nonce

-- Whether the unique index has the client and the nonce.
unfoldable pub is_spent : List ℕ → List ℕ → List AltchaProof → Bool
is_spent public_key nonce [] = false
is_spent public_key nonce (row ∷ rows) =
    if is_proof_of public_key nonce row then true else is_spent public_key nonce rows

unfoldable pub altcha_live_proof_count : List AltchaProof → ℕ → ℕ
altcha_live_proof_count [] now_ms = 0
altcha_live_proof_count (row ∷ rows) now_ms =
    let rest = altcha_live_proof_count rows now_ms in
    if leb now_ms row.expires_at_ms then suc rest else rest

-- The first statement: whether the table has room.
abbrev pub is_full : List AltchaProof → ℕ → ℕ → Bool
is_full rows now_ms cap = ltb 0 cap && leb cap (altcha_live_proof_count rows now_ms)

-- The second statement, an insertion that does nothing on a conflict. The newest row stands first.
unfoldable pub insert_proof : List AltchaProof → ConsumeKey → ℕ → List AltchaProof × ConsumeOutcome
unfolding is_spent
insert_proof rows key now_ms =
    if is_spent key.public_key key.nonce rows then (rows, ConsumeOutcome.already_spent) else (
      record {
        public_key = key.public_key;
        nonce = key.nonce;
        consumed_at_ms = now_ms;
        expires_at_ms = key.expires_at_ms;
      }
          ∷ rows,
      ConsumeOutcome.consumed,
    )

-- The two statements are no transaction: `counted` is the table that the first one counts, and `rows` what
-- the table has become, through other requests and the sweep, when the second one inserts.
unfoldable pub altcha_consume_proof :
    List AltchaProof
    → List AltchaProof
    → ConsumeKey
    → ℕ
    → ℕ
    → List AltchaProof × Result StoreError ConsumeOutcome
unfolding altcha_live_proof_count insert_proof
altcha_consume_proof counted rows key now_ms cap =
    if is_full counted now_ms cap
    then (rows, err StoreError.capacity)
    else let (rows', outcome) = insert_proof rows key now_ms in (rows', ok outcome)

-- The rows that stay, and how many went.
unfoldable pub altcha_sweep_proofs : List AltchaProof → ℕ → List AltchaProof × ℕ
altcha_sweep_proofs [] cutoff_ms = ([], 0)
altcha_sweep_proofs (row ∷ rows) cutoff_ms =
    let (kept, removed) = altcha_sweep_proofs rows cutoff_ms in
    if ltb row.expires_at_ms cutoff_ms then (kept, suc removed) else (row ∷ kept, removed)
