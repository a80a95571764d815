-- ===== src/Abuse/Gate/Retry.antt =====
-- What a throttled caller is told over the relay's database.
use tunnel_weaver.Base.{
  ℕ, ◌≡◌, ◌≤◌, List, [], ◌∷◌, Result, ok, err, All, max, arith, ap, ◌∙◌, sym, if_rule, Option-cases,
  inl, inr,
}
use tunnel_weaver.Abuse.Gcra.{Quota, Charge}
use tunnel_weaver.Abuse.Key.{Key, Fingerprint}
use tunnel_weaver.Abuse.Policy.{PolicyId, Policy, get_policy}
use tunnel_weaver.Abuse.Store.{Db, db_store, abuse_check_all, Answer, charge_all}
use tunnel_weaver.Abuse.Gate.{Gate, GateError, select, judge, charge_selected, admit}
use tunnel_weaver.Abuse.Gcra.Limit.{IsBounded}
use tunnel_weaver.Abuse.Store.Charges.{charge_all-IsBounded}
use tunnel_weaver.Abuse.Gate.Longest.{HasThrottle-IsBounded}
use tunnel_weaver.Abuse.Gate.Admission.{judge-throttled, judge-policy}

-- What the gate tells a caller whom it throttles.
abbrev pub IsToldBounded : PolicyId → ℕ → Result GateError (Unit {0}) → Type 0
IsToldBounded policy cap answer =
    (p : PolicyId) (retry : ℕ)
    → answer ≡ err (GateError.throttled p retry)
    → (p ≡ policy) × (1 ≤ retry) × (retry ≤ max cap 1)

judge-charges-IsToldBounded :
    {S : Type 0} (configured : Policy) (policy : PolicyId) (s : S) (charges : List Charge) (cap : ℕ)
    → All (IsBounded cap) charges
    → IsToldBounded policy cap (judge configured policy (s, ok charges)).1
judge-charges-IsToldBounded configured policy s charges cap b p retry h =
    let same : p ≡ policy = judge-policy configured policy s charges p retry h in
    let told =
      (judge-throttled configured policy s charges retry).0
        (h ∙ ap (λ q. err (GateError.throttled q retry)) same) in
    let bounds = HasThrottle-IsBounded retry cap charges told.0 b in (same, bounds.0, bounds.1)

judge-IsToldBounded :
    (configured : Policy) (policy : PolicyId) (db : Db) (bs : List (Key × Quota)) (cost now cap : ℕ)
    → IsToldBounded policy cap
        (judge configured policy (abuse_check_all db policy bs cost now cap)).1
unfolding abuse_check_all
judge-IsToldBounded configured policy db bs cost now cap =
    if_rule
      (λ (a : Answer Db (List Charge)). IsToldBounded policy cap (judge configured policy a).1)
      db.works _ _
      (λ _.
        judge-charges-IsToldBounded configured policy
          (record db { rows = (charge_all db.rows policy bs cost now cap).0 })
          (charge_all db.rows policy bs cost now cap).1 cap
          (charge_all-IsBounded db.rows policy bs cost now cap))
      (λ _ p retry h. absurd (ground arith))

charge_selected-IsToldBounded :
    (gate : Gate Db) (db : Db) (configured : Policy) (policy : PolicyId) (bs : List (Key × Quota))
    (cost now : ℕ)
    → gate.store ≡ db_store
    → IsToldBounded policy gate.retry_cap_ms
        (charge_selected gate db configured policy bs cost now).1
charge_selected-IsToldBounded gate db configured policy [] cost now st p retry h = absurd (cc)
charge_selected-IsToldBounded gate db configured policy (b ∷ bs) cost now st p retry h =
    judge-IsToldBounded configured policy db (b ∷ bs) cost now gate.retry_cap_ms p retry (
      ap
        (λ store.
          (judge configured policy
            (store.check_all db policy (b ∷ bs) cost now gate.retry_cap_ms)).1)
        (sym st)
      ∙ h)

-- Over the relay's database, a caller that is throttled is told the policy that it was charged under,
-- and a delay between one millisecond and the cap.
pub admit-retry :
    (gate : Gate Db) (db : Db) (policy p : PolicyId) (fp : Fingerprint) (cost now retry : ℕ)
    → gate.store ≡ db_store
    → (admit gate db policy fp cost now).1 ≡ err (GateError.throttled p retry)
    → (p ≡ policy) × (1 ≤ retry) × (retry ≤ max gate.retry_cap_ms 1)
unfolding admit select
admit-retry gate db policy p fp cost now retry st h =
    elim (Option-cases (get_policy gate.policies policy)) [
      | inl q ↦ absurd (ground arith)
      | inr (configured, q) ↦
          let same : admit gate db policy fp cost now
              ≡ charge_selected gate db configured policy (select fp configured.budgets) cost now =
            rw (admit, q) in
          charge_selected-IsToldBounded gate db configured policy (select fp configured.budgets)
            cost now st p retry (ap (λ a. a.1) (sym same) ∙ h)
    ]
