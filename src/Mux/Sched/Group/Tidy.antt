-- ===== src/Mux/Sched/Group/Tidy.antt =====
-- Groups and slots that are not empty, through the operations on the groups.
use tunnel_weaver.Base.{
  ℕ, ◌≡◌, refl, false, List, [], ◌∷◌, ◌++◌, Option, none, some, Eq, nat_eq, lookup, unwrap_or,
  is_empty, AllValues, AllValues-lookup, AllValues-remove, AllValues-insert_sorted,
  is_empty-insert_sorted, Option-cases, inl, inr,
}
use tunnel_weaver.Mux.Sched.Group.{
  Group, Groups, push_slot, place, pull_slot, unplace, move, put_slot, put_group, push_if,
}

module _ {K : Type 0} where
  abbrev pub IsFull : List K → Type 0
  IsFull q = is_empty q ≡ false

  abbrev pub IsTidyGroup : Group K → Type 0
  IsTidyGroup g = (is_empty g ≡ false) × AllValues IsFull g

  abbrev pub IsTidy : Groups K → Type 0
  IsTidy gs = AllValues IsTidyGroup gs

  is_empty-push : (q : List K) (k : K) → is_empty (q ++ (k ∷ [])) ≡ false
  is_empty-push [] k = refl
  is_empty-push (x ∷ q) k = refl

  push_slot-IsTidyGroup :
      (key : ℕ) (k : K) (g : Group K) → AllValues IsFull g → IsTidyGroup (push_slot key k g)
  unfolding push_slot
  push_slot-IsTidyGroup key k g h =
      (is_empty-insert_sorted key _ g, AllValues-insert_sorted IsFull key _ g (is_empty-push _ k) h)

  -- The slots of a group that may not be there.
  AllValues-group_at :
      (group : ℕ) (gs : Groups K) → IsTidy gs → AllValues IsFull (unwrap_or (lookup group gs) [])
  AllValues-group_at group gs t = elim (Option-cases (lookup group gs)) [
    | inl h ↦ rw h tt
    | inr (g, h) ↦ rw h (AllValues-lookup IsTidyGroup group gs g t h).1
  ]

  pub place-IsTidy :
      (group key : ℕ) (k : K) (gs : Groups K) → IsTidy gs → IsTidy (place group key k gs)
  unfolding place
  place-IsTidy group key k gs t =
      AllValues-insert_sorted IsTidyGroup group _ gs
        (push_slot-IsTidyGroup key k _ (AllValues-group_at group gs t)) t

module _ {K : Type 0} ⦃e : Eq K⦄ where
  put_slot-IsFull :
      (key : ℕ) (q : List K) (g : Group K)
      → AllValues IsFull g
      → AllValues IsFull (put_slot key q g)
  put_slot-IsFull key [] g h = AllValues-remove IsFull key g h
  put_slot-IsFull key (x ∷ q) g h = AllValues-insert_sorted IsFull key (x ∷ q) g refl h

  pull_slot-IsFull :
      (key : ℕ) (k : K) (g : Group K) → AllValues IsFull g → AllValues IsFull (pull_slot key k g)
  unfolding pull_slot
  pull_slot-IsFull key k g h = elim (Option-cases (lookup key g)) [
    | inl q ↦ rw (q, pull_slot) h
    | inr (xs, q) ↦ rw (q, pull_slot) (put_slot-IsFull key _ g h)
  ]

  put_group-IsTidy :
      (group : ℕ) (g : Group K) (gs : Groups K)
      → AllValues IsFull g
      → IsTidy gs
      → IsTidy (put_group group g gs)
  put_group-IsTidy group [] gs h t = AllValues-remove IsTidyGroup group gs t
  put_group-IsTidy group (x ∷ g) gs h t =
      AllValues-insert_sorted IsTidyGroup group (x ∷ g) gs (refl, h) t

  pub unplace-IsTidy :
      (group key : ℕ) (k : K) (gs : Groups K) → IsTidy gs → IsTidy (unplace group key k gs)
  unfolding unplace
  unplace-IsTidy group key k gs t = elim (Option-cases (lookup group gs)) [
    | inl q ↦ rw (q, unplace) t
    | inr (g, q) ↦
        rw (q, unplace)
          (put_group-IsTidy group _ gs
            (pull_slot-IsFull key k g (AllValues-lookup IsTidyGroup group gs g t q).1) t)
  ]

  push_if-IsFull :
      (new : Option ℕ) (k : K) (g : Group K)
      → AllValues IsFull g
      → AllValues IsFull (push_if new k g)
  push_if-IsFull none k g h = h
  push_if-IsFull (some key) k g h = (push_slot-IsTidyGroup key k g h).1

  pub move-IsTidy :
      (group old : ℕ) (new : Option ℕ) (k : K) (gs : Groups K)
      → IsTidy gs
      → IsTidy (move group old new k gs)
  unfolding move
  move-IsTidy group old new k gs t = elim (Option-cases (lookup group gs)) [
    | inl q ↦ rw (q, move) t
    | inr (g, q) ↦
        rw (q, move)
          (put_group-IsTidy group _ gs
            (push_if-IsFull new k _
              (pull_slot-IsFull old k g (AllValues-lookup IsTidyGroup group gs g t q).1))
            t)
  ]
