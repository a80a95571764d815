-- ===== src/Mux/Sched/Qfq/Valid.antt =====
-- The whole invariant of a `Qfq`, through every operation, and what it gives a caller.
use tunnel_weaver.Base.{
  ℕ, ◌≡◌, true, false, List, [], ◌∷◌, Option, none, Eq, lookup, is_empty, arith, if_rule,
  Bool-cases, Option-cases, inl, inr, ltb,
}
use tunnel_weaver.Mux.Sched.Flow.{Flow, slot_key, rebase_at, new_key}
use tunnel_weaver.Mux.Sched.Group.{Groups}
use tunnel_weaver.Mux.Sched.Group.Tidy.{IsTidy, place-IsTidy, unplace-IsTidy, move-IsTidy}
use tunnel_weaver.Mux.Sched.Qfq.{
  Qfq, new, add_flow, activate, activate_flow, deactivate, idle_flow, remove_flow, drop_flow,
  served, serve_flow, maybe_rebase, rebuild, peek, pick_group, has_backlog,
}
use tunnel_weaver.Mux.Sched.Qfq.Rules.{
  activate_rule, deactivate_rule, remove_flow_rule, served_rule,
}
use tunnel_weaver.Mux.Sched.Qfq.Consistent.{
  IsConsistent, new-IsConsistent, add_flow-IsConsistent, deactivate-IsConsistent,
  remove_flow-IsConsistent,
}
use tunnel_weaver.Mux.Sched.Qfq.Rebase.{activate-IsConsistent, served-IsConsistent}
use tunnel_weaver.Mux.Sched.Qfq.Peek.{peek_lem}

module _ {K : Type 0} ⦃e : Eq K⦄ where
  abbrev HasTidy : Qfq K → Type 0
  HasTidy q = IsTidy q.groups

  rebuild-IsTidy :
      (flows : List (K × Flow)) (xs : List (ℕ × K)) (gs : Groups K)
      → IsTidy gs
      → IsTidy (rebuild flows xs gs)
  unfolding rebuild
  rebuild-IsTidy flows [] gs t = t
  rebuild-IsTidy flows ((s, k) ∷ xs) gs t = elim (Option-cases (lookup k flows)) [
    | inl h ↦ rw (h, rebuild) (rebuild-IsTidy flows xs gs t)
    | inr (flow, h) ↦
        rw (h, rebuild) (rebuild-IsTidy flows xs _ (place-IsTidy flow.group (slot_key flow) k gs t))
  ]

  maybe_rebase-HasTidy : (q : Qfq K) → HasTidy q → HasTidy (maybe_rebase q)
  unfolding maybe_rebase
  maybe_rebase-HasTidy q t =
      if_rule HasTidy (ltb q.v rebase_at) _ _ (λ _. t) (λ _. rebuild-IsTidy _ _ [] tt)

  activate-HasTidy : (q : Qfq K) (k : K) (len : ℕ) → HasTidy q → HasTidy (activate q k len)
  unfolding activate_flow
  activate-HasTidy q k len t =
      activate_rule HasTidy q k len t
        (λ flow _ _. maybe_rebase-HasTidy _ (place-IsTidy flow.group _ k q.groups t))

  served-HasTidy :
      (q : Qfq K) (k : K) (len : ℕ) (next : Option ℕ) → HasTidy q → HasTidy (served q k len next)
  unfolding serve_flow
  served-HasTidy q k len next t = served_rule HasTidy q k len next t (λ flow _ _.
      maybe_rebase-HasTidy _ (move-IsTidy flow.group _ (new_key flow next) k q.groups t))

  deactivate-HasTidy : (q : Qfq K) (k : K) → HasTidy q → HasTidy (deactivate q k)
  unfolding idle_flow
  deactivate-HasTidy q k t =
      deactivate_rule HasTidy q k t (λ flow _ _. unplace-IsTidy flow.group _ k q.groups t)

  remove_flow-HasTidy : (q : Qfq K) (k : K) → HasTidy q → HasTidy (remove_flow q k)
  unfolding drop_flow
  remove_flow-HasTidy q k t =
      remove_flow_rule HasTidy q k (deactivate-HasTidy q k t) (λ _ _ _. deactivate-HasTidy q k t)

  pub record IsValid (q : Qfq K) : Type 0 where
    pub consistent : IsConsistent q
    pub tidy : IsTidy q.groups

  pub new-IsValid : IsValid new
  unfolding new
  new-IsValid = record { consistent = new-IsConsistent; tidy = tt }

  pub add_flow-IsValid :
      (q : Qfq K) (k : K) (weight lmax : ℕ)
      → lookup k q.flows ≡ none
      → IsValid q
      → IsValid (add_flow q k weight lmax)
  unfolding add_flow
  add_flow-IsValid q k weight lmax h v = record {
    consistent = add_flow-IsConsistent q k weight lmax h v.consistent;
    tidy = v.tidy;
  }

  pub activate-IsValid : (q : Qfq K) (k : K) (len : ℕ) → IsValid q → IsValid (activate q k len)
  activate-IsValid q k len v = record {
    consistent = activate-IsConsistent q k len v.consistent;
    tidy = activate-HasTidy q k len v.tidy;
  }

  pub served-IsValid :
      (q : Qfq K) (k : K) (len : ℕ) (next : Option ℕ) → IsValid q → IsValid (served q k len next)
  served-IsValid q k len next v = record {
    consistent = served-IsConsistent q k len next v.consistent;
    tidy = served-HasTidy q k len next v.tidy;
  }

  pub deactivate-IsValid : (q : Qfq K) (k : K) → IsValid q → IsValid (deactivate q k)
  deactivate-IsValid q k v = record {
    consistent = deactivate-IsConsistent q k v.consistent;
    tidy = deactivate-HasTidy q k v.tidy;
  }

  pub remove_flow-IsValid : (q : Qfq K) (k : K) → IsValid q → IsValid (remove_flow q k)
  remove_flow-IsValid q k v = record {
    consistent = remove_flow-IsConsistent q k v.consistent;
    tidy = remove_flow-HasTidy q k v.tidy;
  }

  -- Another virtual time is no concern of the invariant.
  pub at_time-IsValid : (q : Qfq K) (v : ℕ) → IsValid q → IsValid (record q { v = v })
  at_time-IsValid q v h = record {
    consistent = record { waits = h.consistent.waits; once = h.consistent.once };
    tidy = h.tidy;
  }

  pub peek_idle : (q : Qfq K) → has_backlog q ≡ false → peek q ≡ (q, none)
  unfolding peek pick_group has_backlog
  peek_idle q h =
      let none_there : is_empty q.groups ≡ true = ground arith in rw (peek, pick_group, none_there)

  pub peek-IsValid : (q : Qfq K) → IsValid q → IsValid (peek q).0
  peek-IsValid q v = elim (Bool-cases (has_backlog q)) [
    | inl h ↦
        let (_, _, t, eq, _, _, _) = peek_lem q v.tidy v.consistent h in
        rw eq (at_time-IsValid q t v)
    | inr h ↦ rw (peek_idle q h) v
  ]
