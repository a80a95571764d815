-- ===== src/Abuse/Gate.antt =====
-- crates/weaver-abuse/src/gate.rs: a policy's budgets, charged for a caller.
pub mod Longest
pub mod Admission
pub mod Retry
use tunnel_weaver.Base.{ℕ, List, [], ◌∷◌, Option, none, some, Result, ok, err, max}
use tunnel_weaver.Abuse.Gcra.{Quota, Charge, Outcome}
use tunnel_weaver.Abuse.Key.{Key, Fingerprint, get}
use tunnel_weaver.Abuse.Policy.{PolicyId, Policy, PolicySet, Budget, StoreErrorPolicy, get_policy}
use tunnel_weaver.Abuse.Store.{BudgetStore, StoreError}

pub data GateError : Type 0 where
  throttled : (policy : PolicyId) (retry_after_ms : ℕ) → GateError
  store : (policy : PolicyId) (decision : StoreErrorPolicy) → GateError

pub record Gate (S : Type 0) : Type 0 where
  pub store : BudgetStore S
  pub policies : PolicySet
  pub retry_cap_ms : ℕ

-- `filter_map` over the budgets.
unfoldable pub select : Fingerprint → List Budget → List (Key × Quota)
unfolding get
select fp [] = []
select fp (budget ∷ budgets) =
    let rest = select fp budgets in
    elim (get fp budget.key) [ none ↦ rest | some key ↦ (key, budget.quota) ∷ rest ]

-- The longest delay of the charges that throttle.
unfoldable pub longest : List Charge → Option ℕ
longest [] = none
longest (charge ∷ charges) =
    let rest = longest charges in
    elim charge.outcome [
      | Outcome.admitted ↦ rest
      | Outcome.throttled ↦ elim rest [
        | none ↦ some charge.retry_after_ms
        | some r ↦ some (max charge.retry_after_ms r)
      ]
    ]

module _ {S : Type 0} where
  -- The answer of the store, as `admit` reads it.
  abbrev pub judge :
      Policy → PolicyId → S × Result StoreError (List Charge) → S × Result GateError (Unit {0})
  judge configured policy (s, err _) = (s, err (GateError.store policy configured.on_store_error))
  judge configured policy (s, ok charges) = elim (longest charges) [
    | some retry ↦ (s, err (GateError.throttled policy retry))
    | none ↦ (s, ok tt)
  ]

  abbrev pub charge_selected :
      Gate S → S → Policy → PolicyId → List (Key × Quota) → ℕ → ℕ → S × Result GateError (Unit {0})
  charge_selected gate s configured policy [] cost now = (s, ok tt)
  charge_selected gate s configured policy (b ∷ bs) cost now =
      judge configured policy (gate.store.check_all s policy (b ∷ bs) cost now gate.retry_cap_ms)

  unfoldable pub admit :
      Gate S → S → PolicyId → Fingerprint → ℕ → ℕ → S × Result GateError (Unit {0})
  unfolding get_policy select longest
  admit gate s policy fp cost now = elim (get_policy gate.policies policy) [
    | none ↦ (s, ok tt)
    | some configured ↦
        charge_selected gate s configured policy (select fp configured.budgets) cost now
  ]
