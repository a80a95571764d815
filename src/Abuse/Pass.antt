-- ===== src/Abuse/Pass.antt =====
-- The safety pipeline: crates/weaver-abuse/src/context.rs, pass.rs and passes.rs. A pass may change the
-- state of the store behind it.
pub mod Order
use tunnel_weaver.Base.{ℕ, if◌then◌else◌, List, [], ◌∷◌, Option, none, some, Result, ok, err}
use tunnel_weaver.Abuse.Key.{Fingerprint}
use tunnel_weaver.Abuse.Policy.{PolicyId, ViewId, RouteTable, StoreErrorPolicy, get_route}
use tunnel_weaver.Abuse.Gate.{Gate, GateError, admit}
use tunnel_weaver.Abuse.Scanner.{ScanVerdict, inspect}
use tunnel_weaver.Abuse.Surface.{Surface, Method, is_exempt}

pub record RequestContext : Type 0 where
  pub surface : Surface
  pub method : Method
  pub path : List ℕ
  pub raw_path : List ℕ
  pub fingerprint : Fingerprint
  pub view : ViewId
  pub now_ms : ℕ

pub data Decision : Type 0 where
  allow : Decision
  block : (verdict : ScanVerdict) → Decision
  throttle : (policy : PolicyId) (retry_after_ms : ℕ) → Decision
  unavailable : (policy : PolicyId) → Decision
  degraded : (policy : PolicyId) → Decision

pub data PassOutcome : Type 0 where
  continue : PassOutcome
  stop : Decision → PassOutcome

-- `Pass::run`, over the state `S`.
abbrev pub Pass : Type 0 → Type 0
Pass S = S → RequestContext → S × PassOutcome

-- What `map_err` and the match on the gate's answer make of an error.
abbrev pub decide : GateError → Decision
decide (GateError.throttled policy retry_after_ms) = Decision.throttle policy retry_after_ms
decide (GateError.store policy StoreErrorPolicy.fail_closed) = Decision.unavailable policy
decide (GateError.store policy StoreErrorPolicy.degraded) = Decision.degraded policy

abbrev pub scanned : Option ScanVerdict → PassOutcome
scanned none = PassOutcome.continue
scanned (some verdict) = PassOutcome.stop (Decision.block verdict)

abbrev pub charged : {S : Type 0} → S × Result GateError (Unit {0}) → S × PassOutcome
charged (s, ok _) = (s, PassOutcome.continue)
charged (s, err e) = (s, PassOutcome.stop (decide e))

module _ {S : Type 0} where
  -- `ScannerPass::run`.
  unfoldable pub scanner_pass : Pass S
  scanner_pass s ctx =
      if is_exempt ctx.surface ctx.method ctx.path
      then (s, PassOutcome.continue)
      else (s, scanned (inspect ctx.method ctx.raw_path))

  -- `BudgetPass::run`.
  unfoldable pub budget_pass : Gate S → RouteTable → Pass S
  budget_pass gate routes s ctx =
      if is_exempt ctx.surface ctx.method ctx.path
      then (s, PassOutcome.continue)
      else elim (get_route routes ctx.view) [
        | none ↦ (s, PassOutcome.continue)
        | some policy ↦ charged (admit gate s policy ctx.fingerprint 1 ctx.now_ms)
      ]

  -- `Pipeline::evaluate`.
  abbrev pub after : (S → S × Decision) → S × PassOutcome → S × Decision
  after rest (s, PassOutcome.continue) = rest s
  after rest (s, PassOutcome.stop decision) = (s, decision)

  unfoldable pub evaluate : List (Pass S) → S → RequestContext → S × Decision
  evaluate [] s ctx = (s, Decision.allow)
  evaluate (pass ∷ passes) s ctx = after (λ t. evaluate passes t ctx) (pass s ctx)

  abbrev pub scanner_only : List (Pass S)
  scanner_only = scanner_pass ∷ []
