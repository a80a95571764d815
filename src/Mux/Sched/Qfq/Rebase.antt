-- ===== src/Mux/Sched/Qfq/Rebase.antt =====
-- `maybe_rebase`, `activate` and `served` and the invariant of a `Qfq`.
use tunnel_weaver.Base.{
  ℕ, ◌+◌, ◌-◌, ◌≡◌, refl, ◌≤◌, ◌==◌, ◌&&◌, if◌then◌else◌, Bool, false, List, [], ◌∷◌, Option, none,
  some, Eq, nat_eq, lookup, arith, Option-cases, if_rule, inl, inr, ltb,
}
use tunnel_weaver.Mux.Sched.Flow.{Flow, slot_key, rebase_at, rebase_to}
use tunnel_weaver.Mux.Sched.Group.{Groups, place}
use tunnel_weaver.Mux.Sched.Group.Count.{count_at, count_at-place, count_at-nil}
use tunnel_weaver.Mux.Sched.Qfq.{
  Qfq, activate, served, maybe_rebase, rebuild, sort_onto, insert_by_key, shift_flows, active,
}
use tunnel_weaver.Mux.Sched.Qfq.Rules.{activate_rule, served_rule}
use tunnel_weaver.Mux.Sched.Qfq.Consistent.{
  IsConsistent, entries, activate_flow-IsConsistent, serve_flow-IsConsistent,
}

abbrev fits : Option Flow → ℕ → ℕ → Bool
fits none i j = false
fits (some flow) i j = flow.group == i && slot_key flow == j

abbrev busy : Option Flow → ℕ
busy none = 0
busy (some flow) = if flow.backlogged then 1 else 0

module _ {K : Type 0} ⦃e : Eq K⦄ where
  times : K → List (ℕ × K) → ℕ
  times k [] = 0
  times k ((_, j) ∷ xs) = (if e.beq j k then 1 else 0) + times k xs

  times-insert_by_key :
      (k j : K) (s : ℕ) (xs : List (ℕ × K))
      → times k (insert_by_key s j xs) ≡ (if e.beq j k then 1 else 0) + times k xs
  unfolding times insert_by_key
  times-insert_by_key k j s [] = refl
  times-insert_by_key k j s ((t, i) ∷ xs) = ground (arith, times-insert_by_key k j s xs)

  times-sort_onto :
      (k : K) (xs sorted : List (ℕ × K))
      → times k (sort_onto xs sorted) ≡ times k xs + times k sorted
  unfolding times sort_onto
  times-sort_onto k [] sorted = omega arith
  times-sort_onto k ((s, j) ∷ xs) sorted =
      omega
        (arith, times-sort_onto k xs (insert_by_key s j sorted), times-insert_by_key k j s sorted)

  lookup-none : (k : K) (flows : List (K × Flow)) → entries k flows ≡ 0 → lookup k flows ≡ none
  unfolding lookup entries
  lookup-none k [] h = refl
  lookup-none k ((j, flow) ∷ flows) h = ground (arith, lookup-none k flows)

  times-active :
      (k : K) (flows : List (K × Flow))
      → entries k flows ≤ 1
      → times k (active flows) ≡ busy (lookup k flows)
  unfolding times active lookup entries
  times-active k [] h = refl
  times-active k ((j, flow) ∷ flows) h = ground (arith, times-active k flows, lookup-none k flows)

  entries-shift_flows :
      (k : K) (delta : ℕ) (flows : List (K × Flow))
      → entries k (shift_flows delta flows) ≡ entries k flows
  unfolding entries shift_flows
  entries-shift_flows k delta [] = refl
  entries-shift_flows k delta ((j, flow) ∷ flows) = omega (arith, entries-shift_flows k delta flows)

  count_at-rebuild :
      (flows : List (K × Flow)) (xs : List (ℕ × K)) (gs : Groups K) (i j : ℕ) (h : K)
      → count_at (rebuild flows xs gs) i j h
        ≡ count_at gs i j h + (if fits (lookup h flows) i j then times h xs else 0)
  unfolding rebuild times
  count_at-rebuild flows [] gs i j h = ground arith
  count_at-rebuild flows ((s, k) ∷ xs) gs i j h = elim (Option-cases (lookup k flows)) [
    | inl g ↦ ground (arith, e.beq_iff k h, count_at-rebuild flows xs gs i j h)
    | inr (flow, g) ↦ ground (
      arith,
      e.beq_iff k h,
      count_at-rebuild flows xs (place flow.group (slot_key flow) k gs) i j h,
      count_at-place flow.group (slot_key flow) i j k h gs,
    )
  ]

  rebased-IsConsistent :
      (q : Qfq K) (flows : List (K × Flow)) (v : ℕ)
      → ((k : K) → entries k flows ≤ 1)
      → IsConsistent (record q {
        flows = flows;
        groups = rebuild flows (sort_onto (active flows) []) [];
        v = v;
      })
  unfolding times
  rebased-IsConsistent q flows v once = record {
    waits = λ k i j. ground (
      arith,
      count_at-rebuild flows (sort_onto (active flows) []) [] i j k,
      count_at-nil i j k,
      times-sort_onto k (active flows) [],
      times-active k flows (once k),
    );
    once = once;
  }

  pub maybe_rebase-IsConsistent : (q : Qfq K) → IsConsistent q → IsConsistent (maybe_rebase q)
  unfolding maybe_rebase
  maybe_rebase-IsConsistent q c =
      if_rule IsConsistent (ltb q.v rebase_at) _ _ (λ _. c)
        (λ _.
          rebased-IsConsistent q _ rebase_to
            (λ k. omega (arith, entries-shift_flows k (q.v - rebase_to) q.flows, c.once k)))

  pub activate-IsConsistent :
      (q : Qfq K) (k : K) (len : ℕ) → IsConsistent q → IsConsistent (activate q k len)
  activate-IsConsistent q k len c =
      activate_rule IsConsistent q k len c
        (λ flow h b. maybe_rebase-IsConsistent _ (activate_flow-IsConsistent q k flow len h b c))

  pub served-IsConsistent :
      (q : Qfq K) (k : K) (len : ℕ) (next : Option ℕ)
      → IsConsistent q
      → IsConsistent (served q k len next)
  served-IsConsistent q k len next c =
      served_rule IsConsistent q k len next c
        (λ flow h b. maybe_rebase-IsConsistent _ (serve_flow-IsConsistent q k flow len next h b c))
