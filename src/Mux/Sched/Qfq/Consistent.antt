-- ===== src/Mux/Sched/Qfq/Consistent.antt =====
-- The invariant that ties the flows of a `Qfq` to its groups, and the operations short of a rebase.
use tunnel_weaver.Base.{
  ℕ, ◌+◌, ◌≡◌, ◌≤◌, ◌==◌, ◌&&◌, if◌then◌else◌, true, false, List, [], ◌∷◌, Option, none, some, Eq,
  nat_eq, lookup, insert, remove, lookup-insert, lookup-remove, arith, not, is_some, max,
}
use tunnel_weaver.Mux.Sched.Flow.{Flow, slot_key, round_down, new_key, min_slot_shift}
use tunnel_weaver.Mux.Sched.Group.Count.{
  count_at, count_at-place, count_at-unplace, count_at-move, count_at-nil,
}
use tunnel_weaver.Mux.Sched.Qfq.Rules.{deactivate_rule, remove_flow_rule}
use tunnel_weaver.Mux.Sched.Qfq.{
  Qfq, new, add_flow, activate_flow, idle_flow, deactivate, remove_flow, serve_flow, drop_flow,
}

-- A flow waits once in its own slot if it is backlogged, and nowhere else.
abbrev pub expected : Option Flow → ℕ → ℕ → ℕ
expected none i j = 0
expected (some flow) i j = if flow.backlogged && flow.group == i && slot_key flow == j then 1 else 0

module _ {K : Type 0} ⦃e : Eq K⦄ where
  -- The entries of the association list at a key.
  unfoldable pub entries : K → List (K × Flow) → ℕ
  entries k [] = 0
  entries k ((j, _) ∷ flows) = (if e.beq j k then 1 else 0) + entries k flows

  pub record IsConsistent (q : Qfq K) : Type 0 where
    pub waits : (k : K) (i j : ℕ) → count_at q.groups i j k ≡ expected (lookup k q.flows) i j
    pub once : (k : K) → entries k q.flows ≤ 1

  entries-none : (k : K) (flows : List (K × Flow)) → lookup k flows ≡ none → entries k flows ≡ 0
  unfolding entries lookup
  entries-none k [] h = omega arith
  entries-none k ((j, x) ∷ flows) h = ground (arith, entries-none k flows)

  entries-insert_lem :
      (k j : K) (flow : Flow) (flows : List (K × Flow))
      → entries k (insert j flow flows)
        ≡ entries k flows + (if e.beq j k && not (is_some (lookup k flows)) then 1 else 0)
  unfolding entries insert lookup
  entries-insert_lem k j flow [] = ground arith
  entries-insert_lem k j flow ((i, x) ∷ flows) =
      ground (arith, entries-insert_lem k j flow flows, e.beq_iff i j, e.beq_iff i k, e.beq_iff j k)

  pub entries-insert :
      (k j : K) (flow : Flow) (flows : List (K × Flow))
      → entries k flows ≤ 1
      → entries k (insert j flow flows) ≤ 1
  entries-insert k j flow flows h =
      ground (arith, entries-insert_lem k j flow flows, entries-none k flows)

  entries-remove :
      (k j : K) (flows : List (K × Flow)) → entries k (remove j flows) ≤ entries k flows
  unfolding entries remove
  entries-remove k j [] = omega arith
  entries-remove k j ((i, x) ∷ flows) = ground (arith, entries-remove k j flows)

  pub new-IsConsistent : IsConsistent new
  unfolding new lookup entries
  new-IsConsistent = record { waits = λ k i j. count_at-nil i j k; once = λ k. omega arith }

  -- What is to be shown of a slot where one flow has changed.
  waits-insert :
      (k h : K) (flow : Flow) (flows : List (K × Flow)) (n i j : ℕ)
      → n ≡ (if e.beq k h then expected (some flow) i j else expected (lookup h flows) i j)
      → n ≡ expected (lookup h (insert k flow flows)) i j
  waits-insert k h flow flows n i j p = ground (arith, lookup-insert k h flow flows)

  -- Registering a flow that is not there.
  pub add_flow-IsConsistent :
      (q : Qfq K) (k : K) (weight lmax : ℕ)
      → lookup k q.flows ≡ none
      → IsConsistent q
      → IsConsistent (add_flow q k weight lmax)
  unfolding add_flow
  add_flow-IsConsistent q k weight lmax free c = record {
    waits =
        λ h i j. waits-insert k h _ q.flows _ i j (ground (arith, c.waits h i j, e.beq_iff k h));
    once = λ h. entries-insert h k _ q.flows (c.once h);
  }

  idle_flow-IsConsistent :
      (q : Qfq K) (k : K) (flow : Flow)
      → lookup k q.flows ≡ some flow
      → flow.backlogged ≡ true
      → IsConsistent q
      → IsConsistent (idle_flow q k flow)
  unfolding idle_flow
  idle_flow-IsConsistent q k flow known busy c = record {
    waits = λ h i j. waits-insert k h _ q.flows _ i j (
        ground (
          arith,
          c.waits h i j,
          e.beq_iff k h,
          count_at-unplace flow.group (slot_key flow) i j k h q.groups,
        ));
    once = λ h. entries-insert h k _ q.flows (c.once h);
  }

  pub activate_flow-IsConsistent :
      (q : Qfq K) (k : K) (flow : Flow) (len : ℕ)
      → lookup k q.flows ≡ some flow
      → flow.backlogged ≡ false
      → IsConsistent q
      → IsConsistent (activate_flow q k flow len)
  unfolding activate_flow
  activate_flow-IsConsistent q k flow len known idle c = record {
    waits = λ h i j. waits-insert k h _ q.flows _ i j (
        ground (
          arith,
          c.waits h i j,
          e.beq_iff k h,
          count_at-place flow.group (round_down (max flow.f q.v) (flow.group + min_slot_shift)) i j
              k h q.groups,
        ));
    once = λ h. entries-insert h k _ q.flows (c.once h);
  }

  pub serve_flow-IsConsistent :
      (q : Qfq K) (k : K) (flow : Flow) (len : ℕ) (next : Option ℕ)
      → lookup k q.flows ≡ some flow
      → flow.backlogged ≡ true
      → IsConsistent q
      → IsConsistent (serve_flow q k flow len next)
  unfolding serve_flow
  serve_flow-IsConsistent q k flow len next known busy c = record {
    waits = λ h i j. waits-insert k h _ q.flows _ i j (
        ground (
          arith,
          c.waits h i j,
          c.waits k flow.group (slot_key flow),
          e.beq_iff k h,
          count_at-move flow.group (slot_key flow) i j (new_key flow next) k h q.groups,
        ));
    once = λ h. entries-insert h k _ q.flows (c.once h);
  }

  drop_flow-IsConsistent :
      (q : Qfq K) (k : K) (flow : Flow)
      → lookup k q.flows ≡ some flow
      → flow.backlogged ≡ false
      → IsConsistent q
      → IsConsistent (drop_flow q k flow)
  unfolding drop_flow
  drop_flow-IsConsistent q k flow known idle c = record {
    waits = λ h i j. ground (arith, c.waits h i j, e.beq_iff k h, lookup-remove k h q.flows);
    once = λ h. omega (arith, entries-remove h k q.flows, c.once h);
  }

  pub deactivate-IsConsistent : (q : Qfq K) (k : K) → IsConsistent q → IsConsistent (deactivate q k)
  deactivate-IsConsistent q k c =
      deactivate_rule IsConsistent q k c (λ flow h b. idle_flow-IsConsistent q k flow h b c)

  pub remove_flow-IsConsistent :
      (q : Qfq K) (k : K) → IsConsistent q → IsConsistent (remove_flow q k)
  remove_flow-IsConsistent q k c =
      remove_flow_rule IsConsistent q k (deactivate-IsConsistent q k c) (λ flow h b.
        drop_flow-IsConsistent (deactivate q k) k flow h b (deactivate-IsConsistent q k c))
