-- ===== src/Mux/Sched/Qfq/Work.antt =====
-- The walk and the jump of `pick_group` on a `Qfq` with a backlog.
use tunnel_weaver.Base.{
  ℕ, ◌+◌, ◌*◌, ◌≡◌, ◌≤◌, refl, ◌||◌, true, false, [], ◌∷◌, Option, none, some, is_some, nat_eq,
  lookup, is_empty, Option-cases, Bool-cases, inl, inr, arith, u64_max, max, leb, ltb, if_rule, ◌⊎◌,
  u64, ◌^◌,
}
use mathlib.Core.List.{reverse, reverse_aux}
use tunnel_weaver.Mux.Sched.Flow.{min_slot_shift}
use tunnel_weaver.Mux.Sched.Group.{Group, Groups}
use tunnel_weaver.Mux.Sched.Group.Tidy.{IsTidy}
use tunnel_weaver.Mux.Sched.Qfq.{Qfq, any_eligible, min_start, walk, walk_step, jump}

module _ {K : Type 0} where
  lookup-nil : (idx : ℕ) → lookup {V = Group K} idx [] ≡ none
  unfolding lookup
  lookup-nil idx = refl

  walk_keeps : (v : ℕ) (gs : Groups K) (m i : ℕ) → is_some (walk v gs (m, some i)).1 ≡ true
  unfolding walk
  walk_keeps v [] m i = refl
  walk_keeps v ((idx, []) ∷ gs) m i = walk_keeps v gs m i
  walk_keeps v ((idx, (s, q) ∷ g) ∷ gs) m i =
      let P : ℕ × Option ℕ → Type 0 = λ acc. is_some (walk v gs acc).1 ≡ true in
      if_rule P (ltb v s) _ _ (λ _. walk_keeps v gs m i)
        (λ _.
          if_rule P (leb f m) (f, some idx) _ (λ _. walk_keeps v gs f idx)
            (λ _. walk_keeps v gs m i))
    where
      f : ℕ
      f = u64 (s + u64 (2 * 2 ^ (idx + min_slot_shift)))

  walk_finds :
      (v : ℕ) (gs : Groups K)
      → any_eligible v gs ≡ true
      → is_some (walk v gs (u64_max, none)).1 ≡ true
  unfolding walk any_eligible
  walk_finds v [] h = cc
  walk_finds v ((idx, []) ∷ gs) h = walk_finds v gs h
  walk_finds v ((idx, (s, q) ∷ g) ∷ gs) h =
      let P : ℕ × Option ℕ → Type 0 = λ acc. is_some (walk v gs acc).1 ≡ true in
      if_rule P (ltb v s) _ _ (λ later. walk_finds v gs (ground arith))
        (λ _.
          if_rule P (leb f u64_max) (f, some idx) _ (λ _. walk_keeps v gs f idx)
            (λ big. absurd (ground arith)))
    where
      f : ℕ
      f = u64 (s + u64 (2 * 2 ^ (idx + min_slot_shift)))

  -- What the walk picks is what it started with, or a group that it passed.
  walk_member :
      (v : ℕ) (gs : Groups K) (acc : ℕ × Option ℕ) (idx : ℕ)
      → (walk v gs acc).1 ≡ some idx
      → (acc.1 ≡ some idx) ⊎ (is_some (lookup idx gs) ≡ true)
  unfolding walk lookup
  walk_member v [] acc idx h = inl h
  walk_member v ((i, []) ∷ gs) acc idx h = ground (arith, walk_member v gs acc idx)
  walk_member v ((i, (s, q) ∷ g) ∷ gs) acc idx h =
      ground (arith, walk_member v gs (walk_step v i ((s, q) ∷ g) acc) idx)

  reverse_aux-eligible :
      (v : ℕ) (xs r : Groups K)
      → any_eligible v xs || any_eligible v r ≡ true
      → any_eligible v (reverse_aux xs r) ≡ true
  unfolding any_eligible
  reverse_aux-eligible v [] r h = h
  reverse_aux-eligible v ((i, g) ∷ xs) r h = reverse_aux-eligible v xs ((i, g) ∷ r) (ground arith)

  reverse_aux-lookup :
      (idx : ℕ) (xs r : Groups K)
      → is_some (lookup idx (reverse_aux xs r)) ≡ is_some (lookup idx xs) || is_some (lookup idx r)
  unfolding lookup
  reverse_aux-lookup idx [] r = refl
  reverse_aux-lookup idx ((i, g) ∷ xs) r = ground (arith, reverse_aux-lookup idx xs ((i, g) ∷ r))

  min_start_some : (gs : Groups K) → IsTidy gs → is_empty gs ≡ false → is_some (min_start gs) ≡ true
  unfolding min_start
  min_start_some [] t h = cc
  min_start_some ((i, []) ∷ gs) t h = cc (t.0.0)
  min_start_some ((i, (s, q) ∷ g) ∷ gs) t h = ground arith

  min_start_eligible :
      (gs : Groups K) (m w : ℕ) → min_start gs ≡ some m → m ≤ w → any_eligible w gs ≡ true
  unfolding min_start any_eligible
  min_start_eligible [] m w h k = cc
  min_start_eligible ((i, []) ∷ gs) m w h k = min_start_eligible gs m w h k
  min_start_eligible ((i, (s, q) ∷ g) ∷ gs) m w h k = elim (Option-cases (min_start gs)) [
    | inl e ↦ ground arith
    | inr (n, e) ↦ ground (arith, min_start_eligible gs n w e)
  ]

  -- The jump reaches a time at which some group is eligible, and never goes back.
  pub jump_lem :
      (q : Qfq K)
      → IsTidy q.groups
      → is_empty q.groups ≡ false
      → (v : ℕ) × (jump q ≡ some v) × (q.v ≤ v) × (any_eligible v q.groups ≡ true)
  unfolding jump
  jump_lem q t h = elim (Option-cases (min_start q.groups)) [
    | inl e ↦ cc (e, min_start_some q.groups t h)
    | inr (m, e) ↦ elim (Bool-cases (any_eligible q.v q.groups)) [
      | inl b ↦ (q.v, ground arith, omega arith, b)
      | inr b ↦ (
        max q.v m,
        ground arith,
        omega arith,
        min_start_eligible q.groups m (max q.v m) e (omega arith),
      )
    ]
  ]

  -- The walk over the groups in reverse finds a group that is there, if one is eligible.
  pub walk_lem :
      (v : ℕ) (gs : Groups K)
      → any_eligible v gs ≡ true
      → (idx : ℕ) × ((walk v (reverse gs) (u64_max, none)).1 ≡ some idx)
        × (is_some (lookup idx gs) ≡ true)
  walk_lem v gs h =
      let (idx, found) =
        go (walk v (reverse gs) (u64_max, none)).1 (walk_finds v (reverse gs) rev) in
      (idx, found, there idx found)
    where
      go : (o : Option ℕ) → is_some o ≡ true → (idx : ℕ) × (o ≡ some idx)
      go none n = cc
      go (some idx) n = (idx, refl)

      rev : any_eligible v (reverse gs) ≡ true
      rev = reverse_aux-eligible v gs [] (rw h)

      there :
          (idx : ℕ)
          → (walk v (reverse gs) (u64_max, none)).1 ≡ some idx
          → is_some (lookup idx gs) ≡ true
      there idx found = elim (walk_member v (reverse gs) (u64_max, none) idx found) [
        | inl p ↦ cc
        | inr p ↦ ground (arith, reverse_aux-lookup idx gs [], lookup-nil idx)
      ]
