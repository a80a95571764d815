-- ===== src/Mux/Sched/Group.antt =====
-- `Group` of crates/weaver-mux/src/sched/qfq.rs, and the map of groups that a `Qfq` keeps. A
-- `BTreeMap` is an association list with its keys in increasing order.
pub mod View
pub mod Count
pub mod Tidy
use tunnel_weaver.Base.{
  ℕ, ◌+◌, ◌*◌, ◌^◌, ◌==◌, if◌then◌else◌, Bool, true, false, List, [], ◌∷◌, ◌++◌, Option, none, some,
  Eq, nat_eq, lookup, insert_sorted, remove, u64, unwrap_or, is_empty,
}

-- The flows of each slot, first in first out, by the slot's start time.
abbrev pub Group : Type 0 → Type 0
Group K = List (ℕ × List K)

abbrev pub Groups : Type 0 → Type 0
Groups K = List (ℕ × Group K)

module _ {K : Type 0} where
  -- `Group::start` and `Group::finish`.
  unfoldable pub start : Group K → Option ℕ
  start [] = none
  start ((s, _) ∷ _) = some s

  unfoldable pub finish : Group K → ℕ → Option ℕ
  unfolding start
  finish g shift = elim (start g) [ none ↦ none | some s ↦ some (u64 (s + u64 (2 * 2 ^ shift))) ]

  -- `Group::insert`, the `push_back` on `entry(key).or_default()`.
  unfoldable pub push_slot : ℕ → K → Group K → Group K
  push_slot key k g = insert_sorted key (unwrap_or (lookup key g) [] ++ (k ∷ [])) g

  -- `self.groups.entry(group).or_default().insert(key, k)`.
  unfoldable pub place : ℕ → ℕ → K → Groups K → Groups K
  unfolding push_slot
  place group key k gs = insert_sorted group (push_slot key k (unwrap_or (lookup group gs) [])) gs

module _ {K : Type 0} ⦃e : Eq K⦄ where
  -- `q.remove(pos)` at the first position that holds `k`.
  unfoldable pub remove_first : K → List K → List K
  remove_first k [] = []
  remove_first k (x ∷ xs) = if e.beq x k then xs else x ∷ remove_first k xs

  -- A slot that is left, or is dropped where it is empty.
  abbrev pub put_slot : ℕ → List K → Group K → Group K
  put_slot key q g = if is_empty q then remove key g else insert_sorted key q g

  -- `Group::remove`.
  unfoldable pub pull_slot : ℕ → K → Group K → Group K
  unfolding remove_first
  pull_slot key k g = elim (lookup key g) [ none ↦ g | some q ↦ put_slot key (remove_first k q) g ]

  -- A group that is left, or is dropped where it is empty.
  abbrev pub put_group : ℕ → Group K → Groups K → Groups K
  put_group group g gs = if is_empty g then remove group gs else insert_sorted group g gs

  -- The block of `deactivate` that removes `k` from its group.
  unfoldable pub unplace : ℕ → ℕ → K → Groups K → Groups K
  unfolding pull_slot
  unplace group key k gs = elim (lookup group gs) [
    | none ↦ gs
    | some g ↦ put_group group (pull_slot key k g) gs
  ]

  abbrev pub push_if : Option ℕ → K → Group K → Group K
  push_if none k g = g
  push_if (some key) k g = push_slot key k g

  -- The block of `served` that moves `k` from one slot of its group to another, or out of it.
  unfoldable pub move : ℕ → ℕ → Option ℕ → K → Groups K → Groups K
  unfolding pull_slot push_slot
  move group old new k gs = elim (lookup group gs) [
    | none ↦ gs
    | some g ↦ put_group group (push_if new k (pull_slot old k g)) gs
  ]
