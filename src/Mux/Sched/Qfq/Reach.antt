-- ===== src/Mux/Sched/Qfq/Reach.antt =====
-- Every state that calls of a `Qfq`'s methods lead to.
use tunnel_weaver.Base.{ℕ, ◌≡◌, ◌≤◌, true, Option, none, some, Eq, lookup}
use tunnel_weaver.Mux.Sched.Flow.{Flow}
use tunnel_weaver.Mux.Sched.Qfq.{
  Qfq, new, add_flow, activate, deactivate, remove_flow, served, peek, has_backlog,
}
use tunnel_weaver.Mux.Sched.Qfq.Valid.{
  IsValid, new-IsValid, add_flow-IsValid, activate-IsValid, deactivate-IsValid, remove_flow-IsValid,
  served-IsValid, peek-IsValid,
}
use tunnel_weaver.Mux.Sched.Qfq.Peek.{peek_lem}

module _ {K : Type 0} ⦃e : Eq K⦄ where
  -- One call. A flow is registered once, as the scheduling tree does.
  pub data Call : Qfq K → Qfq K → Type 0 where
    register :
        (q : Qfq K) (k : K) (weight lmax : ℕ)
        → lookup k q.flows ≡ none
        → Call q (add_flow q k weight lmax)
    forget : (q : Qfq K) (k : K) → Call q (remove_flow q k)
    wake : (q : Qfq K) (k : K) (head_len : ℕ) → Call q (activate q k head_len)
    rest : (q : Qfq K) (k : K) → Call q (deactivate q k)
    look : (q : Qfq K) → Call q (peek q).0
    serve : (q : Qfq K) (k : K) (len : ℕ) (next : Option ℕ) → Call q (served q k len next)

  pub data Reach : Qfq K → Type 0 where
    fresh : Reach new
    call : {q r : Qfq K} → Reach q → Call q r → Reach r

  Call-IsValid : {q r : Qfq K} → Call q r → IsValid q → IsValid r
  Call-IsValid (register q k weight lmax h) v = add_flow-IsValid q k weight lmax h v
  Call-IsValid (forget q k) v = remove_flow-IsValid q k v
  Call-IsValid (wake q k len) v = activate-IsValid q k len v
  Call-IsValid (rest q k) v = deactivate-IsValid q k v
  Call-IsValid (look q) v = peek-IsValid q v
  Call-IsValid (serve q k len next) v = served-IsValid q k len next v

  pub Reach-IsValid : {q : Qfq K} → Reach q → IsValid q
  Reach-IsValid fresh = new-IsValid
  Reach-IsValid (call r c) = Call-IsValid c (Reach-IsValid r)

  -- Whatever calls led to it, a scheduler with a backlog has a flow to serve next: one that is
  -- registered and has a packet waiting. Looking for it changes nothing but the virtual time, which
  -- does not go back.
  pub Reach-peek :
      {q : Qfq K}
      → Reach q
      → has_backlog q ≡ true
      → (k : K) × (flow : Flow) × (v : ℕ) × (peek q ≡ (record q { v = v }, some k))
        × (q.v ≤ v)
        × (lookup k q.flows ≡ some flow)
        × (flow.backlogged ≡ true)
  Reach-peek {q} r h = peek_lem q (Reach-IsValid r).tidy (Reach-IsValid r).consistent h
