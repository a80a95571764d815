-- ===== src/Abuse/Gate/Admission.antt =====
-- What `admit` answers, in terms of the charges of the store.
use tunnel_weaver.Base.{
  ℕ, true, map, ◌≡◌, ◌↔◌, refl, List, [], ◌∷◌, some, ok, err, All, arith, ap, ◌∙◌, sym, subst,
}
use tunnel_weaver.Abuse.Gcra.{Quota, Charge}
use tunnel_weaver.Abuse.Key.{Key, Fingerprint}
use tunnel_weaver.Abuse.Policy.{PolicyId, Policy, get_policy}
use tunnel_weaver.Abuse.Store.{Db, db_store, abuse_check_all, Rows}
use tunnel_weaver.Abuse.Gate.{Gate, GateError, select, judge, charge_selected, admit}
use tunnel_weaver.Abuse.Store.Charges.{alone, IsDistinct, abuse_check_all-alone}
use tunnel_weaver.Abuse.Gate.Longest.{
  IsAdmitted, HasThrottle, IsThrottledBy, longest-none, none-longest, longest-some, some-longest,
}

-- What `judge` makes of an answer.
judge-state :
    {S : Type 0} (configured : Policy) (policy : PolicyId) (s : S) (charges : List Charge)
    → (judge configured policy (s, ok charges)).0 ≡ s
judge-state configured policy s charges = ground arith

judge-ok :
    {S : Type 0} (configured : Policy) (policy : PolicyId) (s : S) (charges : List Charge)
    → ((judge configured policy (s, ok charges)).1 ≡ ok tt) ↔ All IsAdmitted charges
judge-ok configured policy s charges = ground (arith, longest-none charges, none-longest charges)

pub judge-policy :
    {S : Type 0} (configured : Policy) (policy : PolicyId) (s : S) (charges : List Charge)
    (p : PolicyId) (retry : ℕ)
    → (judge configured policy (s, ok charges)).1 ≡ err (GateError.throttled p retry)
    → p ≡ policy
judge-policy configured policy s charges p retry h = ground arith

pub judge-throttled :
    {S : Type 0} (configured : Policy) (policy : PolicyId) (s : S) (charges : List Charge)
    (retry : ℕ)
    → ((judge configured policy (s, ok charges)).1 ≡ err (GateError.throttled policy retry))
      ↔ (HasThrottle retry charges × All (IsThrottledBy retry) charges)
judge-throttled configured policy s charges retry =
    ground (arith, longest-some charges retry, some-longest charges retry)

-- A configured policy that some key of the caller falls under, where the store answers: the request is
-- admitted exactly if every charge is, it is throttled with exactly the longest delay of the charges
-- that throttle, and the store is left as the charges left it.
pub admit-charges :
    {S : Type 0} (gate : Gate S) (s s' : S) (policy : PolicyId) (fp : Fingerprint) (cost now : ℕ)
    (configured : Policy) (b : Key × Quota) (bs : List (Key × Quota)) (charges : List Charge)
    (retry : ℕ)
    → get_policy gate.policies policy ≡ some configured
    → select fp configured.budgets ≡ b ∷ bs
    → gate.store.check_all s policy (b ∷ bs) cost now gate.retry_cap_ms ≡ (s', ok charges)
    → ((admit gate s policy fp cost now).0 ≡ s')
      × (((admit gate s policy fp cost now).1 ≡ ok tt) ↔ All IsAdmitted charges)
      × (((admit gate s policy fp cost now).1 ≡ err (GateError.throttled policy retry))
          ↔ (HasThrottle retry charges × All (IsThrottledBy retry) charges))
unfolding admit
admit-charges gate s s' policy fp cost now configured b bs charges retry p q r =
    let same : admit gate s policy fp cost now ≡ judge configured policy (s', ok charges) =
      rw (admit, p, q, r) in
    subst
      (λ a.
        (a.0 ≡ s')
        × ((a.1 ≡ ok tt) ↔ All IsAdmitted charges)
        × ((a.1 ≡ err (GateError.throttled policy retry))
            ↔ (HasThrottle retry charges × All (IsThrottledBy retry) charges)))
      (sym same)
      (
        judge-state configured policy s' charges,
        judge-ok configured policy s' charges,
        judge-throttled configured policy s' charges retry,
      )

IsAdmitted-alone :
    (rows : Rows) (policy : PolicyId) (budgets : List (Key × Quota)) (cost now cap : ℕ)
    → All IsAdmitted (map (alone rows policy cost now cap) budgets)
      ↔ All (λ b. IsAdmitted (alone rows policy cost now cap b)) budgets
IsAdmitted-alone rows policy [] cost now cap = ((λ h. tt), (λ h. tt))
IsAdmitted-alone rows policy (b ∷ bs) cost now cap =
    let rest = IsAdmitted-alone rows policy bs cost now cap in
    ((λ h. (h.0, rest.0 h.1)), (λ h. (h.0, rest.1 h.1)))

charge_selected-db_store :
    (gate : Gate Db) (db : Db) (configured : Policy) (policy : PolicyId) (bs : List (Key × Quota))
    (cost now : ℕ)
    → gate.store ≡ db_store
    → db.works ≡ true
    → IsDistinct policy bs
    → ((charge_selected gate db configured policy bs cost now).1 ≡ ok tt)
      ↔ All (λ b. IsAdmitted (alone db.rows policy cost now gate.retry_cap_ms b)) bs
charge_selected-db_store gate db configured policy [] cost now st w d = ((λ h. tt), (λ h. refl))
charge_selected-db_store gate db configured policy (b ∷ bs) cost now st w d =
    let charges = map (alone db.rows policy cost now gate.retry_cap_ms) (b ∷ bs) in
    let answer : gate.store.check_all db policy (b ∷ bs) cost now gate.retry_cap_ms
        ≡ ((abuse_check_all db policy (b ∷ bs) cost now gate.retry_cap_ms).0, ok charges) =
      ap (λ store. store.check_all db policy (b ∷ bs) cost now gate.retry_cap_ms) st ∙ (λ i. (
        (abuse_check_all db policy (b ∷ bs) cost now gate.retry_cap_ms).0,
        abuse_check_all-alone db policy (b ∷ bs) cost now gate.retry_cap_ms w d i,
      )) in
    let same = IsAdmitted-alone db.rows policy (b ∷ bs) cost now gate.retry_cap_ms in
    let judged =
      judge-ok configured policy (abuse_check_all db policy (b ∷ bs) cost now gate.retry_cap_ms).0
        charges in
    (
      (λ h. same.0 (judged.0 (ap (λ a. (judge configured policy a).1) (sym answer) ∙ h))),
      (λ h. ap (λ a. (judge configured policy a).1) answer ∙ judged.1 (same.1 h)),
    )

-- The gate over the relay's database: where the database works and the budgets that the caller falls
-- under are kept under different rows, a request is admitted exactly if the limiter of each of them,
-- as it stood before the request, admits it.
pub admit-db_store :
    (gate : Gate Db) (db : Db) (policy : PolicyId) (fp : Fingerprint) (cost now : ℕ)
    (configured : Policy)
    → gate.store ≡ db_store
    → db.works ≡ true
    → get_policy gate.policies policy ≡ some configured
    → IsDistinct policy (select fp configured.budgets)
    → ((admit gate db policy fp cost now).1 ≡ ok tt)
      ↔ All
          (λ b. IsAdmitted (alone db.rows policy cost now gate.retry_cap_ms b))
          (select fp configured.budgets)
unfolding admit select
admit-db_store gate db policy fp cost now configured st w p d =
    let same : admit gate db policy fp cost now
        ≡ charge_selected gate db configured policy (select fp configured.budgets) cost now =
      rw (admit, p) in
    let counted =
      charge_selected-db_store gate db configured policy (select fp configured.budgets) cost now st
        w d in
    ((λ h. counted.0 (ap (λ a. a.1) (sym same) ∙ h)), (λ h. ap (λ a. a.1) same ∙ counted.1 h))
