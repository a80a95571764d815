-- ===== src/Mux/Sched/Group/View.antt =====
-- The groups seen as a function from a group and a slot to the flows that wait there.
use tunnel_weaver.Base.{
  ℕ, ◌≡◌, ◌==◌, ◌&&◌, if◌then◌else◌, true, List, [], ◌∷◌, ◌++◌, Option, Eq, nat_eq, lookup,
  unwrap_or, is_some, lookup-insert_sorted, lookup-remove, arith, Option-cases, inl, inr,
}
use tunnel_weaver.Mux.Sched.Group.{
  Group, Groups, push_slot, place, remove_first, pull_slot, unplace, move, put_slot, put_group,
  push_if,
}

module _ {K : Type 0} where
  abbrev pub slot : Group K → ℕ → List K
  slot g key = unwrap_or (lookup key g) []

  abbrev pub group_at : Groups K → ℕ → Group K
  group_at gs group = unwrap_or (lookup group gs) []

  -- The flows that wait in a slot of a group.
  abbrev pub waiting : Groups K → ℕ → ℕ → List K
  waiting gs group key = slot (group_at gs group) key

  pub slot-push_slot :
      (key j : ℕ) (k : K) (g : Group K)
      → slot (push_slot key k g) j ≡ (if key == j then slot g key ++ (k ∷ []) else slot g j)
  unfolding push_slot
  slot-push_slot key j k g = ground (arith, lookup-insert_sorted key j (slot g key ++ (k ∷ [])) g)

  pub waiting-place :
      (group key i j : ℕ) (k : K) (gs : Groups K)
      → waiting (place group key k gs) i j
        ≡ (if group == i && key == j then waiting gs group key ++ (k ∷ []) else waiting gs i j)
  unfolding place
  waiting-place group key i j k gs = ground (
    arith,
    lookup-insert_sorted group i (push_slot key k (group_at gs group)) gs,
    slot-push_slot key j k (group_at gs group),
  )

module _ {K : Type 0} ⦃e : Eq K⦄ where
  slot-put_slot :
      (key j : ℕ) (q : List K) (g : Group K)
      → slot (put_slot key q g) j ≡ (if key == j then q else slot g j)
  slot-put_slot key j [] g = ground (arith, lookup-remove key j g)
  slot-put_slot key j (x ∷ q) g = ground (arith, lookup-insert_sorted key j (x ∷ q) g)

  group_at-put_group :
      (group i : ℕ) (g : Group K) (gs : Groups K)
      → group_at (put_group group g gs) i ≡ (if group == i then g else group_at gs i)
  group_at-put_group group i [] gs = ground (arith, lookup-remove group i gs)
  group_at-put_group group i (x ∷ g) gs = ground (arith, lookup-insert_sorted group i (x ∷ g) gs)

  pub slot-pull_slot :
      (key j : ℕ) (k : K) (g : Group K)
      → slot (pull_slot key k g) j ≡ (if key == j then remove_first k (slot g key) else slot g j)
  unfolding pull_slot remove_first
  slot-pull_slot key j k g = elim (Option-cases (lookup key g)) [
    | inl h ↦ ground arith
    | inr (q, h) ↦ ground (arith, slot-put_slot key j (remove_first k q) g)
  ]

  pub waiting-unplace :
      (group key i j : ℕ) (k : K) (gs : Groups K)
      → waiting (unplace group key k gs) i j
        ≡ (if group == i && key == j then remove_first k (waiting gs group key) else waiting gs i j)
  unfolding unplace remove_first lookup
  waiting-unplace group key i j k gs = elim (Option-cases (lookup group gs)) [
    | inl h ↦ ground arith
    | inr (g, h) ↦
        ground (arith, group_at-put_group group i (pull_slot key k g) gs, slot-pull_slot key j k g)
  ]

  pub waiting-move :
      (group old i j : ℕ) (new : Option ℕ) (k : K) (gs : Groups K)
      → is_some (lookup group gs) ≡ true
      → waiting (move group old new k gs) i j ≡ (
          if group == i
          then slot (push_if new k (pull_slot old k (group_at gs group))) j
          else waiting gs i j)
  unfolding move
  waiting-move group old i j new k gs h = elim (Option-cases (lookup group gs)) [
    | inl q ↦ ground arith
    | inr (g, q) ↦ ground (arith, group_at-put_group group i (push_if new k (pull_slot old k g)) gs)
  ]
