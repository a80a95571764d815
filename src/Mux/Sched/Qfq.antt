-- ===== src/Mux/Sched/Qfq.antt =====
-- `Qfq` of crates/weaver-mux/src/sched/qfq.rs, one level of quick fair queueing, for any key type.
-- The order of the association list `flows` stands for the hash map's iteration order, and `u64`
-- arithmetic wraps.
pub mod Rules
pub mod Consistent
pub mod Rebase
pub mod Work
pub mod Peek
pub mod Valid
pub mod Reach
use tunnel_weaver.Base.{
  ℕ, ◌+◌, ◌-◌, ◌*◌, ◌/◌, ltb, leb, if◌then◌else◌, Bool, true, false, not, ◌||◌, List, [], ◌∷◌,
  Option, none, some, Eq, nat_eq, lookup, insert, remove, u64, sub64, min, max, is_empty, u64_max,
}
use mathlib.Core.List.{reverse}
use tunnel_weaver.Mux.Sched.Flow.{
  Flow, one_fp, min_slot_shift, rebase_at, rebase_to, round_down, group_index, slot_key, shift_flow,
  advance, new_key, advance_v,
}
use tunnel_weaver.Mux.Sched.Group.{Group, Groups, start, finish, place, unplace, move}

pub record Qfq (K : Type 0) : Type 0 where
  pub flows : List (K × Flow)
  pub groups : Groups K
  pub v : ℕ  -- u64
  pub wsum : ℕ  -- u64

module _ {K : Type 0} where
  unfoldable pub new : Qfq K
  new = record { flows = []; groups = []; v = 0; wsum = 0 }

  unfoldable pub has_backlog : Qfq K → Bool
  has_backlog q = not (is_empty q.groups)

  -- `Iterator::any` over the groups' starts.
  unfoldable pub any_eligible : ℕ → Groups K → Bool
  unfolding start
  any_eligible v [] = false
  any_eligible v ((_, g) ∷ gs) =
      (elim (start g) [ none ↦ false | some s ↦ leb s v ]) || any_eligible v gs

  -- `filter_map(Group::start).min()`.
  unfoldable pub min_start : Groups K → Option ℕ
  unfolding start
  min_start [] = none
  min_start ((_, g) ∷ gs) =
      let rest = min_start gs in
      elim (start g) [
        | none ↦ rest
        | some s ↦ elim rest [ none ↦ some s | some t ↦ some (min s t) ]
      ]

  -- One round of the walk over the groups, on `min_f_above` and `pick`.
  unfoldable pub walk_step : ℕ → ℕ → Group K → ℕ × Option ℕ → ℕ × Option ℕ
  unfolding start finish
  walk_step v idx g (min_f_above, pick) = elim (start g) [
    | none ↦ (min_f_above, pick)
    | some s ↦ elim (finish g (idx + min_slot_shift)) [
      | none ↦ (min_f_above, pick)
      | some f ↦
          if ltb v s
          then (min_f_above, pick)
          else if leb f min_f_above
          then (f, some idx)
          else (min_f_above, pick)
    ]
  ]

  -- The walk from the coarsest group down: the groups in reverse order of their index.
  unfoldable pub walk : ℕ → Groups K → ℕ × Option ℕ → ℕ × Option ℕ
  unfolding walk_step
  walk v [] acc = acc
  walk v ((idx, g) ∷ gs) acc = walk v gs (walk_step v idx g acc)

  -- `V` after the jump of `pick_group`; `none` is the early return of `min()?`.
  unfoldable pub jump : Qfq K → Option ℕ
  unfolding any_eligible min_start
  jump q =
      if any_eligible q.v q.groups
      then some q.v
      else elim (min_start q.groups) [ none ↦ none | some m ↦ some (max q.v m) ]

  unfoldable pub pick_group : Qfq K → Qfq K × Option ℕ
  unfolding jump walk
  pick_group q = if is_empty q.groups then (q, none) else elim (jump q) [
    | none ↦ (q, none)
    | some v ↦ (record q { v = v }, (walk v (reverse q.groups) (u64_max, none)).1)
  ]

  -- `g.slots.values().next().and_then(|q| q.front().copied())`.
  unfoldable pub first : Group K → Option K
  first [] = none
  first ((_, []) ∷ _) = none
  first ((_, k ∷ _) ∷ _) = some k

  abbrev pub first_of_group : Groups K → Option ℕ → Option K
  first_of_group gs none = none
  first_of_group gs (some idx) = elim (lookup idx gs) [ none ↦ none | some g ↦ first g ]

  unfoldable pub peek : Qfq K → Qfq K × Option K
  unfolding pick_group first
  peek q = let (q', idx) = pick_group q in (q', first_of_group q'.groups idx)

  -- `sort_by_key`: a stable sort by the start time.
  unfoldable pub insert_by_key : ℕ → K → List (ℕ × K) → List (ℕ × K)
  insert_by_key s k [] = (s, k) ∷ []
  insert_by_key s k ((t, j) ∷ xs) =
      if ltb s t then (s, k) ∷ (t, j) ∷ xs else (t, j) ∷ insert_by_key s k xs

  unfoldable pub sort_onto : List (ℕ × K) → List (ℕ × K) → List (ℕ × K)
  unfolding insert_by_key
  sort_onto [] sorted = sorted
  sort_onto ((s, k) ∷ xs) sorted = sort_onto xs (insert_by_key s k sorted)

  -- The first loop of `maybe_rebase`: every flow is shifted, and the backlogged are collected.
  unfoldable pub shift_flows : ℕ → List (K × Flow) → List (K × Flow)
  shift_flows delta [] = []
  shift_flows delta ((k, flow) ∷ flows) = (k, shift_flow delta flow) ∷ shift_flows delta flows

  unfoldable pub active : List (K × Flow) → List (ℕ × K)
  active [] = []
  active ((k, flow) ∷ flows) =
      let rest = active flows in if flow.backlogged then (flow.s, k) ∷ rest else rest

module _ {K : Type 0} ⦃e : Eq K⦄ where
  -- The second loop of `maybe_rebase`. Every collected key is a key of the flows.
  unfoldable pub rebuild : List (K × Flow) → List (ℕ × K) → Groups K → Groups K
  rebuild flows [] groups = groups
  rebuild flows ((_, k) ∷ xs) groups = elim (lookup k flows) [
    | none ↦ rebuild flows xs groups
    | some flow ↦ rebuild flows xs (place flow.group (slot_key flow) k groups)
  ]

  unfoldable pub maybe_rebase : Qfq K → Qfq K
  unfolding rebuild sort_onto shift_flows active
  maybe_rebase q =
      if ltb q.v rebase_at
      then q
      else let flows = shift_flows (q.v - rebase_to) q.flows in
        record q {
          flows = flows;
          groups = rebuild flows (sort_onto (active flows) []) [];
          v = rebase_to;
        }

  unfoldable pub add_flow : Qfq K → K → ℕ → ℕ → Qfq K
  unfolding group_index
  add_flow q k weight lmax =
      let weight' = max weight 1 in
      let inv_w = one_fp / weight' in
      record q {
        wsum = u64 (q.wsum + weight');
        flows =
            insert k
              (record {
                weight = weight';
                inv_w = inv_w;
                s = 0;
                f = 0;
                backlogged = false;
                head_len = 0;
                group = group_index (max lmax 1) inv_w;
              })
              q.flows;
      }

  -- What `activate` makes of a flow that it knows and that is idle.
  unfoldable pub activate_flow : Qfq K → K → Flow → ℕ → Qfq K
  activate_flow q k flow head_len =
      let s = max flow.f q.v in
      let flow' = record flow {
        s = s;
        f = u64 (s + head_len * flow.inv_w);
        backlogged = true;
        head_len = head_len;
      } in
      record q {
        flows = insert k flow' q.flows;
        v = if is_empty q.groups then max q.v s else q.v;
        groups = place flow.group (round_down s (flow.group + min_slot_shift)) k q.groups;
      }

  unfoldable pub activate : Qfq K → K → ℕ → Qfq K
  unfolding activate_flow maybe_rebase
  activate q k head_len = elim (lookup k q.flows) [
    | none ↦ q
    | some flow ↦ if flow.backlogged then q else maybe_rebase (activate_flow q k flow head_len)
  ]

  -- What `deactivate` makes of a flow that it knows and that is backlogged.
  unfoldable pub idle_flow : Qfq K → K → Flow → Qfq K
  idle_flow q k flow = record q {
    flows = insert k (record flow { backlogged = false }) q.flows;
    groups = unplace flow.group (slot_key flow) k q.groups;
  }

  unfoldable pub deactivate : Qfq K → K → Qfq K
  unfolding idle_flow
  deactivate q k = elim (lookup k q.flows) [
    | none ↦ q
    | some flow ↦ if flow.backlogged then idle_flow q k flow else q
  ]

  -- What `remove_flow` makes of a flow that it knows, once deactivated.
  unfoldable pub drop_flow : Qfq K → K → Flow → Qfq K
  drop_flow q k flow = record q { flows = remove k q.flows; wsum = sub64 q.wsum flow.weight }

  unfoldable pub remove_flow : Qfq K → K → Qfq K
  unfolding deactivate drop_flow
  remove_flow q k =
      let q' = deactivate q k in
      elim (lookup k q'.flows) [ none ↦ q' | some flow ↦ drop_flow q' k flow ]

  unfoldable pub next_head_len : Qfq K → Qfq K × Option ℕ
  unfolding peek
  next_head_len q =
      let (q', top) = peek q in
      (
        q',
        elim top [
          | none ↦ none
          | some k ↦ elim (lookup k q'.flows) [ none ↦ none | some flow ↦ some flow.head_len ]
        ],
      )

  -- What `served` makes of a flow that it knows and that is backlogged, before the rebase.
  unfoldable pub serve_flow : Qfq K → K → Flow → ℕ → Option ℕ → Qfq K
  serve_flow q k flow len next_len = record q {
    flows = insert k (advance flow next_len) q.flows;
    groups = move flow.group (slot_key flow) (new_key flow next_len) k q.groups;
    v = advance_v q.v len q.wsum;
  }

  unfoldable pub served : Qfq K → K → ℕ → Option ℕ → Qfq K
  unfolding serve_flow maybe_rebase
  served q k len next_len = elim (lookup k q.flows) [
    | none ↦ q
    | some flow ↦ if flow.backlogged then maybe_rebase (serve_flow q k flow len next_len) else q
  ]
