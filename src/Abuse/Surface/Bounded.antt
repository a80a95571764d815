-- ===== src/Abuse/Surface/Bounded.antt =====
-- The path that a log line shows.
use tunnel_weaver.Base.{
  ℕ, zero, suc, ◌<◌, ◌≤◌, ◌≡◌, ◌≢◌, ◌==◌, ◌⊎◌, inl, inr, refl, leb, leb→le, true, false, Bool-cases,
  if_rule, subst, sym, ◌||◌, List, [], ◌∷◌, ◌++◌, All, All-append, length, take, length-append,
  length-take, arith,
}
use tunnel_weaver.Abuse.Surface.{
  before_query, boundary_below, bounded_path, is_char_boundary, max_logged_path, ellipsis,
}

-- A byte that opens no query and no fragment.
abbrev pub IsPathByte : ℕ → Type 0
IsPathByte c = (c ≢ b'?') × (c ≢ b'#')

before_query-IsPathByte : (raw : List ℕ) → All IsPathByte (before_query raw)
unfolding before_query
before_query-IsPathByte [] = tt
before_query-IsPathByte (c ∷ cs) =
    if_rule (All IsPathByte) (c == b'?' || c == b'#') _ _ (λ _. tt)
      (λ h. ((ground arith, ground arith), before_query-IsPathByte cs))

take-All : (n : ℕ) (xs : List ℕ) → All IsPathByte xs → All IsPathByte (take n xs)
take-All zero xs h = tt
take-All (suc n) [] h = tt
take-All (suc n) (x ∷ xs) h = (h.0, take-All n xs h.1)

-- The boundary that the loop stops at, and that it is the last one.
boundary_below-last :
    (path : List ℕ) (n : ℕ)
    → (boundary_below path n ≤ n)
      × ((boundary_below path n ≡ 0) ⊎ (is_char_boundary path (boundary_below path n) ≡ true))
      × ((m : ℕ) → boundary_below path n < m → m ≤ n → is_char_boundary path m ≡ false)
unfolding boundary_below
boundary_below-last path zero = (omega arith, inl refl, (λ m a b. absurd (omega arith)))
boundary_below-last path (suc n) =
    let ih = boundary_below-last path n in
    let P : ℕ → Type 0 = λ r.
      (r ≤ suc n)
      × ((r ≡ 0) ⊎ (is_char_boundary path r ≡ true))
      × ((m : ℕ) → r < m → m ≤ suc n → is_char_boundary path m ≡ false) in
    if_rule P (is_char_boundary path (suc n)) _ _
      (λ h. (omega arith, inr h, (λ m a b. absurd (omega arith))))
      (λ h. (
        omega (arith, ih.0),
        ih.1,
        (λ m a b. elim (Bool-cases (leb m n)) [
          | inl le ↦ ih.2 m a (leb→le m n le)
          | inr gt ↦
              let top : m ≡ suc n = ground arith in
              subst (λ i. is_char_boundary path i ≡ false) (sym top) h
        ]),
      ))

-- The path that is logged: it has no byte of a query or a fragment and at most 131 bytes. It is the
-- request's path where that has at most 128, and else a part of it that ends at the last boundary
-- between characters within the first 128 bytes, with the mark of the cut behind it.
pub bounded_path-cut :
    (raw : List ℕ)
    → (length (bounded_path raw) ≤ 131)
      × ((bounded_path raw ≡ before_query raw)
          ⊎ ((n : ℕ) × (bounded_path raw ≡ take n (before_query raw) ++ ellipsis)
              × (n ≤ max_logged_path)
              × (max_logged_path < length (before_query raw))
              × ((n ≡ 0) ⊎ (is_char_boundary (before_query raw) n ≡ true))
              × ((m : ℕ)
                  → n < m
                  → m ≤ max_logged_path
                  → is_char_boundary (before_query raw) m ≡ false)))
      × All IsPathByte (bounded_path raw)
unfolding bounded_path
bounded_path-cut raw =
    let path = before_query raw in
    let last = boundary_below-last path max_logged_path in
    let n = boundary_below path max_logged_path in
    let P : List ℕ → Type 0 = λ r.
      (length r ≤ 131)
      × ((r ≡ path)
          ⊎ ((n : ℕ) × (r ≡ take n path ++ ellipsis)
              × (n ≤ max_logged_path)
              × (max_logged_path < length path)
              × ((n ≡ 0) ⊎ (is_char_boundary path n ≡ true))
              × ((m : ℕ) → n < m → m ≤ max_logged_path → is_char_boundary path m ≡ false)))
      × All IsPathByte r in
    if_rule P (leb (length path) max_logged_path) _ _
      (λ h. (
        omega (arith, leb→le (length path) max_logged_path h),
        inl refl,
        before_query-IsPathByte raw,
      ))
      (λ h. (
        omega (arith, length-append (take n path) ellipsis, length-take n path, last.0),
        inr (n, refl, last.0, ground arith, last.1, last.2),
        All-append IsPathByte (take n path) ellipsis (take-All n path (before_query-IsPathByte raw))
            (
              (omega arith, omega arith),
              ((omega arith, omega arith), ((omega arith, omega arith), tt)),
            ),
      ))
