-- ===== src/Mux/Sched/Qfq/Rules.antt =====
-- The cases of each operation of a `Qfq`, as rules for a predicate on its result.
use tunnel_weaver.Base.{
  ℕ, ◌≡◌, true, false, Option, some, Eq, lookup, lookup-insert, Option-cases, if_rule, inl, inr,
  arith,
}
use tunnel_weaver.Mux.Sched.Flow.{Flow}
use tunnel_weaver.Mux.Sched.Qfq.{
  Qfq, activate, activate_flow, deactivate, idle_flow, remove_flow, drop_flow, served, serve_flow,
  maybe_rebase,
}

module _ {K : Type 0} ⦃e : Eq K⦄ where
  pub deactivate_rule :
      (P : Qfq K → Type 0) (q : Qfq K) (k : K)
      → P q
      → ((flow : Flow)
          → lookup k q.flows ≡ some flow
          → flow.backlogged ≡ true
          → P (idle_flow q k flow))
      → P (deactivate q k)
  unfolding deactivate
  deactivate_rule P q k stay step = elim (Option-cases (lookup k q.flows)) [
    | inl h ↦ rw (h, deactivate) stay
    | inr (flow, h) ↦
        rw (h, deactivate) (if_rule P flow.backlogged _ _ (λ b. step flow h b) (λ _. stay))
  ]

  -- A flow that was deactivated is idle, if it is known.
  deactivate_idle :
      (q : Qfq K) (k : K) (flow : Flow)
      → lookup k (deactivate q k).flows ≡ some flow
      → flow.backlogged ≡ false
  unfolding deactivate idle_flow
  deactivate_idle q k flow h = elim (Option-cases (lookup k q.flows)) [
    | inl g ↦ ground arith
    | inr (old, g) ↦
        ground (arith, e.beq_iff k k, lookup-insert k k (record old { backlogged = false }) q.flows)
  ]

  pub remove_flow_rule :
      (P : Qfq K → Type 0) (q : Qfq K) (k : K)
      → P (deactivate q k)
      → ((flow : Flow)
          → lookup k (deactivate q k).flows ≡ some flow
          → flow.backlogged ≡ false
          → P (drop_flow (deactivate q k) k flow))
      → P (remove_flow q k)
  unfolding remove_flow
  remove_flow_rule P q k stay step = elim (Option-cases (lookup k (deactivate q k).flows)) [
    | inl h ↦ rw (h, remove_flow) stay
    | inr (flow, h) ↦ rw (h, remove_flow) (step flow h (deactivate_idle q k flow h))
  ]

  pub activate_rule :
      (P : Qfq K → Type 0) (q : Qfq K) (k : K) (len : ℕ)
      → P q
      → ((flow : Flow)
          → lookup k q.flows ≡ some flow
          → flow.backlogged ≡ false
          → P (maybe_rebase (activate_flow q k flow len)))
      → P (activate q k len)
  unfolding activate
  activate_rule P q k len stay step = elim (Option-cases (lookup k q.flows)) [
    | inl h ↦ rw (h, activate) stay
    | inr (flow, h) ↦
        rw (h, activate) (if_rule P flow.backlogged _ _ (λ _. stay) (λ b. step flow h b))
  ]

  pub served_rule :
      (P : Qfq K → Type 0) (q : Qfq K) (k : K) (len : ℕ) (next : Option ℕ)
      → P q
      → ((flow : Flow)
          → lookup k q.flows ≡ some flow
          → flow.backlogged ≡ true
          → P (maybe_rebase (serve_flow q k flow len next)))
      → P (served q k len next)
  unfolding served
  served_rule P q k len next stay step = elim (Option-cases (lookup k q.flows)) [
    | inl h ↦ rw (h, served) stay
    | inr (flow, h) ↦
        rw (h, served) (if_rule P flow.backlogged _ _ (λ b. step flow h b) (λ _. stay))
  ]
