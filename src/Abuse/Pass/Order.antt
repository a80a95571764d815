-- ===== src/Abuse/Pass/Order.antt =====
-- The pipeline of the relay: the scanner in front of the budget.
use tunnel_weaver.Base.{
  ◌≡◌, ◌≢◌, ◌↔◌, sym, ap, ◌∙◌, Bool, if_rule, inl, inr, false, List, [], ◌∷◌, Option, Option-cases,
  none, some, All, IsByte, Result, arith,
}
use tunnel_weaver.Abuse.Gate.{Gate, GateError, admit}
use tunnel_weaver.Abuse.Pass.{
  RequestContext, Decision, PassOutcome, Pass, scanner_pass, budget_pass, evaluate, scanned,
  charged, after,
}
use tunnel_weaver.Abuse.Policy.{PolicyId, RouteTable, get_route}
use tunnel_weaver.Abuse.Scanner.{ScanVerdict}
use tunnel_weaver.Abuse.Scanner.Verdicts.{rules, inspect-rules}
use tunnel_weaver.Abuse.Surface.{is_exempt, before_query}

-- Whether a request takes the way past the passes.
abbrev pub exempt : RequestContext → Bool
exempt ctx = is_exempt ctx.surface ctx.method ctx.path

some-same : (v w : ScanVerdict) → some v ≡ some w → v ≡ w
some-same v w h = ground arith

block-same :
    (v w : ScanVerdict)
    → Decision.block v ≡ Decision.block w
    → {o : Option ScanVerdict} → o ≡ some v
    → o ≡ some w
block-same v w h q = ground arith

module _ {S : Type 0} (gate : Gate S) (routes : RouteTable) where
  -- The passes of the relay's pipeline, in their order.
  abbrev pub passes : List (Pass S)
  passes = scanner_pass ∷ budget_pass gate routes ∷ []

  scanner_pass-rules :
      (s : S) (ctx : RequestContext)
      → exempt ctx ≡ false
      → All IsByte (before_query ctx.raw_path)
      → scanner_pass s ctx ≡ (s, scanned (rules ctx.method ctx.raw_path))
  unfolding scanner_pass
  scanner_pass-rules s ctx e h =
      rw e (ap (λ v. (s, scanned v)) (inspect-rules ctx.method ctx.raw_path h))

  charged-≢-block :
      (a : S × Result GateError (Unit {0})) (verdict : ScanVerdict)
      → (after {S = S} (λ t. (t, Decision.allow)) (charged a)).1 ≢ Decision.block verdict
  charged-≢-block a verdict h = ground arith

  routed-≢-block :
      (s : S) (ctx : RequestContext) (verdict : ScanVerdict) (o : Option PolicyId)
      → (after {S = S}
          (λ t. (t, Decision.allow))
          (elim o [
            | none ↦ (s, PassOutcome.continue)
            | some policy ↦ charged (admit gate s policy ctx.fingerprint 1 ctx.now_ms)
          ])).1
        ≢ Decision.block verdict
  routed-≢-block s ctx verdict none h = absurd (cc)
  routed-≢-block s ctx verdict (some policy) h =
      charged-≢-block (admit gate s policy ctx.fingerprint 1 ctx.now_ms) verdict h

  budget_pass-≢-block :
      (s : S) (ctx : RequestContext) (verdict : ScanVerdict)
      → (after {S = S} (λ t. (t, Decision.allow)) (budget_pass gate routes s ctx)).1
        ≢ Decision.block verdict
  unfolding budget_pass
  budget_pass-≢-block s ctx verdict =
      if_rule
        (λ (r : S × PassOutcome).
          (after {S = S} (λ t. (t, Decision.allow)) r).1 ≢ Decision.block verdict)
        (exempt ctx) _ _ (λ _ h. absurd (cc))
        (λ _. routed-≢-block s ctx verdict (get_route routes ctx.view))

  -- A request to a route that is not exempt is blocked exactly if the rules of the scanner say so, and
  -- nothing is charged for one that is blocked.
  pub evaluate-block :
      (s : S) (ctx : RequestContext) (verdict : ScanVerdict)
      → exempt ctx ≡ false
      → All IsByte (before_query ctx.raw_path)
      → (evaluate passes s ctx ≡ (s, Decision.block verdict))
        ↔ (rules ctx.method ctx.raw_path ≡ some verdict)
  unfolding evaluate
  evaluate-block s ctx verdict e h =
      let rest : S → S × Decision =
        λ t. after (λ u. (u, Decision.allow)) (budget_pass gate routes t ctx) in
      let start : evaluate passes s ctx ≡ after rest (s, scanned (rules ctx.method ctx.raw_path)) =
        ap (after rest) (scanner_pass-rules s ctx e h) in
      elim (Option-cases (rules ctx.method ctx.raw_path)) [
        | inl q ↦
            let same : evaluate passes s ctx ≡ rest s =
              start ∙ ap (λ v. after rest (s, scanned v)) q in
            (
              (λ b. absurd (budget_pass-≢-block s ctx verdict (ap (λ a. a.1) (sym same ∙ b)))),
              (λ b. absurd (cc)),
            )
        | inr (v, q) ↦
            let same : evaluate passes s ctx ≡ (s, Decision.block v) =
              start ∙ ap (λ v. after rest (s, scanned v)) q in
            (
              (λ b. block-same v verdict (ap (λ a. a.1) (sym same ∙ b)) q),
              (λ b. same ∙ ap (λ w. (s, Decision.block w)) (some-same v verdict (sym q ∙ b))),
            )
      ]
