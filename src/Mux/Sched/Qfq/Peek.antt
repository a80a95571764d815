-- ===== src/Mux/Sched/Qfq/Peek.antt =====
-- What `peek` and `next_head_len` answer.
use tunnel_weaver.Base.{
  ℕ, ◌≡◌, ◌≤◌, refl, true, false, [], ◌∷◌, Option, none, some, is_some, Eq, nat_eq, lookup,
  is_empty, AllValues-lookup, Option-cases, inl, inr, arith, u64_max,
}
use mathlib.Core.List.{reverse}
use tunnel_weaver.Mux.Sched.Flow.{Flow}
use tunnel_weaver.Mux.Sched.Group.{Group, Groups}
use tunnel_weaver.Mux.Sched.Group.View.{slot}
use tunnel_weaver.Mux.Sched.Group.Count.{count, count_at}
use tunnel_weaver.Mux.Sched.Group.Tidy.{IsTidy, IsTidyGroup}
use tunnel_weaver.Mux.Sched.Qfq.{Qfq, walk, jump, pick_group, peek, first, has_backlog}
use tunnel_weaver.Mux.Sched.Qfq.Consistent.{IsConsistent, expected}
use tunnel_weaver.Mux.Sched.Qfq.Work.{walk_lem, jump_lem}

is_some-some {ℓ} : {A : Type ℓ} (o : Option A) → is_some o ≡ true → (a : A) × (o ≡ some a)
is_some-some none h = cc
is_some-some (some a) h = (a, refl)

module _ {K : Type 0} ⦃e : Eq K⦄ where
  first_waits :
      (g : Group K)
      → IsTidyGroup g
      → (k : K) × (key : ℕ) × (first g ≡ some k) × (1 ≤ count k (slot g key))
  unfolding first count lookup
  first_waits [] t = cc (t.0)
  first_waits ((key, []) ∷ g) t = cc (t.1.0)
  first_waits ((key, k ∷ q) ∷ g) t = (k, key, refl, ground (arith, e.beq_iff k k))

  count_at-group :
      (i j : ℕ) (k : K) (g : Group K) (gs : Groups K)
      → lookup i gs ≡ some g
      → count_at gs i j k ≡ count k (slot g j)
  unfolding count_at
  count_at-group i j k g gs h = rw h

  -- The group that `pick_group` answers with, at the time that it jumps to.
  pick_group_lem :
      (q : Qfq K)
      → IsTidy q.groups
      → has_backlog q ≡ true
      → (v : ℕ) × (idx : ℕ) × (g : Group K) × (pick_group q ≡ (record q { v = v }, some idx))
        × (q.v ≤ v)
        × (lookup idx q.groups ≡ some g)
  unfolding pick_group has_backlog
  pick_group_lem q t h =
      let full : is_empty q.groups ≡ false = ground arith in
      let (v, ej, le, el) = jump_lem q t full in
      let (idx, ew, member) = walk_lem v q.groups el in
      let (g, eg) = is_some-some (lookup idx q.groups) member in
      (v, idx, g, picked v idx full ej ew, le, eg)
    where
      picked :
          (v idx : ℕ)
          → is_empty q.groups ≡ false
          → jump q ≡ some v
          → (walk v (reverse q.groups) (u64_max, none)).1 ≡ some idx
          → pick_group q ≡ (record q { v = v }, some idx)
      picked v idx full ej ew = rw (pick_group, full, ej, ew)

  -- A scheduler with a backlog always has a flow to serve, and it is one that is registered and has
  -- a packet waiting. Looking for it changes nothing but the virtual time, which never goes back.
  pub peek_lem :
      (q : Qfq K)
      → IsTidy q.groups
      → IsConsistent q
      → has_backlog q ≡ true
      → (k : K) × (flow : Flow) × (v : ℕ) × (peek q ≡ (record q { v = v }, some k))
        × (q.v ≤ v)
        × (lookup k q.flows ≡ some flow)
        × (flow.backlogged ≡ true)
  unfolding peek
  peek_lem q t c h =
      let (v, idx, g, ep, le, eg) = pick_group_lem q t h in
      let (k, key, ef, n) = first_waits g (AllValues-lookup IsTidyGroup idx q.groups g t eg) in
      let waits : 1 ≤ expected (lookup k q.flows) idx key =
        omega (arith, n, count_at-group idx key k g q.groups eg, c.waits k idx key) in
      let (flow, el, b) = found k idx key waits in (k, flow, v, ground arith, le, el, b)
    where
      found :
          (k : K) (idx key : ℕ)
          → 1 ≤ expected (lookup k q.flows) idx key
          → (flow : Flow) × (lookup k q.flows ≡ some flow) × (flow.backlogged ≡ true)
      found k idx key n = elim (Option-cases (lookup k q.flows)) [
        | inl h ↦ absurd (ground arith)
        | inr (flow, h) ↦ (flow, h, ground arith)
      ]
