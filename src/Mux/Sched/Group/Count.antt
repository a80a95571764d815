-- ===== src/Mux/Sched/Group/Count.antt =====
-- How often a flow waits in a slot, through the operations on the groups.
use tunnel_weaver.Base.{
  ℕ, ◌+◌, ◌-◌, ◌≡◌, refl, ◌==◌, ◌&&◌, if◌then◌else◌, Bool, true, false, List, [], ◌∷◌, ◌++◌, Option,
  none, some, Eq, nat_eq, lookup, arith, is_some,
}
use tunnel_weaver.Mux.Sched.Group.{Groups, place, remove_first, pull_slot, unplace, move}
use tunnel_weaver.Mux.Sched.Group.View.{
  slot, group_at, waiting, waiting-place, waiting-unplace, waiting-move, slot-pull_slot,
  slot-push_slot,
}

abbrev pub some_is : Option ℕ → ℕ → Bool
some_is none j = false
some_is (some key) j = key == j

module _ {K : Type 0} ⦃e : Eq K⦄ where
  unfoldable pub count : K → List K → ℕ
  count k [] = 0
  count k (x ∷ xs) = (if e.beq x k then 1 else 0) + count k xs

  pub count-push :
      (k j : K) (xs : List K) → count k (xs ++ (j ∷ [])) ≡ count k xs + (if e.beq j k then 1 else 0)
  unfolding count
  count-push k j [] = ground arith
  count-push k j (x ∷ xs) = ground (arith, count-push k j xs)

  pub count-remove_first :
      (k j : K) (xs : List K)
      → count k (remove_first j xs) ≡ (if e.beq j k then count k xs - 1 else count k xs)
  unfolding count remove_first
  count-remove_first k j [] = ground arith
  count-remove_first k j (x ∷ xs) =
      ground (arith, count-remove_first k j xs, e.beq_iff x k, e.beq_iff x j, e.beq_iff j k)

  -- A flow that waits in a slot, as often as that.
  unfoldable pub count_at : Groups K → ℕ → ℕ → K → ℕ
  count_at gs i j k = count k (waiting gs i j)

  pub count_at-nil : (i j : ℕ) (k : K) → count_at [] i j k ≡ 0
  unfolding count_at count lookup
  count_at-nil i j k = refl

  pub count_at-place :
      (group key i j : ℕ) (h k : K) (gs : Groups K)
      → count_at (place group key h gs) i j k
        ≡ count_at gs i j k + (if group == i && key == j && e.beq h k then 1 else 0)
  unfolding count_at
  count_at-place group key i j h k gs =
      ground (arith, waiting-place group key i j h gs, count-push k h (waiting gs group key))

  pub count_at-unplace :
      (group key i j : ℕ) (h k : K) (gs : Groups K)
      → count_at (unplace group key h gs) i j k
        ≡ (if group == i && key == j && e.beq h k then count_at gs i j k - 1 else count_at gs i j k)
  unfolding count_at
  count_at-unplace group key i j h k gs =
      ground
        (arith, waiting-unplace group key i j h gs, count-remove_first k h (waiting gs group key))

  is_some-count_at :
      (group key : ℕ) (k : K) (gs : Groups K)
      → count_at gs group key k ≡ 1
      → is_some (lookup group gs) ≡ true
  unfolding count_at count lookup
  is_some-count_at group key k gs c = ground arith

  -- A flow that waits moves: it leaves the one slot and joins the other.
  pub count_at-move :
      (group old i j : ℕ) (new : Option ℕ) (h k : K) (gs : Groups K)
      → count_at gs group old h ≡ 1
      → count_at (move group old new h gs) i j k
        ≡ (if group == i && old == j && e.beq h k then count_at gs i j k - 1 else count_at gs i j k)
          + (if group == i && some_is new j && e.beq h k then 1 else 0)
  unfolding count_at
  count_at-move group old i j none h k gs c = ground (
    arith,
    waiting-move group old i j none h gs,
    is_some-count_at group old h gs c,
    slot-pull_slot old j h (group_at gs group),
    count-remove_first k h (waiting gs group old),
  )
  count_at-move group old i j (some key) h k gs c = ground (
    arith,
    waiting-move group old i j (some key) h gs,
    is_some-count_at group old h gs c,
    slot-push_slot key j h (pull_slot old h (group_at gs group)),
    slot-pull_slot old j h (group_at gs group),
    slot-pull_slot old key h (group_at gs group),
    count-push k h (slot (pull_slot old h (group_at gs group)) key),
    count-remove_first k h (waiting gs group old),
  )
