-- ===== src/Abuse/Gcra/Limit.antt =====
-- What a limiter lets through, and what it tells a caller that it refuses.
use tunnel_weaver.Base.{ℕ, ◌+◌, ◌≡◌, ◌≤◌, ◌<◌, ◌↔◌, List, [], ◌∷◌, arith, i64_max, max}
use tunnel_weaver.Abuse.Gcra.{Gcra, Quota, Outcome, Charge, check, tolerance_ms, cost_ms, tat_at}

-- A refusal is exact: the limiter is unchanged, and where the cap did not shorten the reported delay,
-- a later request of any cost is refused too exactly while that delay has not passed.
pub check-throttled :
    (g : Gcra) (quota : Quota) (cost now cap cost' later cap' : ℕ)
    → (check g quota cost now cap).1.outcome ≡ Outcome.throttled
    → (check g quota cost now cap).1.retry_after_ms < max cap 1
    → now ≤ later
    → ((check g quota cost now cap).0 ≡ g)
      × (((check g quota cost' later cap').1.outcome ≡ Outcome.throttled)
          ↔ (later < now + (check g quota cost now cap).1.retry_after_ms))
unfolding check
check-throttled g quota cost now cap cost' later cap' h r a = ground arith

-- The time that the admitted requests of a sequence occupy.
pub spent : Gcra → Quota → ℕ → List (ℕ × ℕ) → ℕ
spent g quota cap [] = 0
spent g quota cap ((now, cost) ∷ rest) =
    let (g', charge) = check g quota cost now cap in
    elim charge.outcome [
      | Outcome.admitted ↦ cost_ms quota cost + spent g' quota cap rest
      | Outcome.throttled ↦ spent g' quota cap rest
    ]

-- Requests of at most `most` units between two instants, in the order of theirs.
abbrev pub IsWithin : ℕ → ℕ → ℕ → List (ℕ × ℕ) → Type 0
IsWithin most from until [] = Unit {0}
IsWithin most from until ((now, cost) ∷ rest) =
    (from ≤ now) × (now ≤ until) × (cost ≤ most) × IsWithin most now until rest

pub cost_ms-le : (quota : Quota) (a b : ℕ) → a ≤ b → cost_ms quota a ≤ cost_ms quota b
unfolding cost_ms
cost_ms-le quota a b h = grind arith

-- One request, seen from an earlier instant.
check-spends :
    (g : Gcra) (quota : Quota) (cost most now from until cap left : ℕ)
    → from ≤ now
    → now ≤ until
    → cost_ms quota cost ≤ cost_ms quota most
    → until + tolerance_ms quota + cost_ms quota most ≤ i64_max
    → left + tat_at (check g quota cost now cap).0 now
      ≤ max
          (tat_at (check g quota cost now cap).0 now)
          (until + tolerance_ms quota + cost_ms quota most)
    → (elim (check g quota cost now cap).1.outcome [
      | Outcome.admitted ↦ cost_ms quota cost + left
      | Outcome.throttled ↦ left
    ])
        + tat_at g from
      ≤ max (tat_at g from) (until + tolerance_ms quota + cost_ms quota most)
unfolding check
check-spends g quota cost most now from until cap left a b c small h = ground arith

spent-le-max :
    (g : Gcra) (quota : Quota) (cap most from until : ℕ) (requests : List (ℕ × ℕ))
    → IsWithin most from until requests
    → until + tolerance_ms quota + cost_ms quota most ≤ i64_max
    → spent g quota cap requests + tat_at g from
      ≤ max (tat_at g from) (until + tolerance_ms quota + cost_ms quota most)
unfolding spent
spent-le-max g quota cap most from until [] w small = omega arith
spent-le-max g quota cap most from until ((now, cost) ∷ rest) w small =
    check-spends g quota cost most now from until cap
      (spent (check g quota cost now cap).0 quota cap rest) w.0 w.1 (cost_ms-le quota cost most w.2)
      small (spent-le-max (check g quota cost now cap).0 quota cap most now until rest w.3 small)

-- The budget holds in every window, whatever the state of the limiter at its start: the requests
-- admitted between two instants, of at most `most` units each, occupy no more time than lies between
-- the instants, and the tolerance, and one such request. The end of the window, with that tolerance and
-- request, is an instant that 64 bits hold.
pub spent_bound :
    (g : Gcra) (quota : Quota) (cap most from until : ℕ) (requests : List (ℕ × ℕ))
    → from ≤ until
    → IsWithin most from until requests
    → until + tolerance_ms quota + cost_ms quota most ≤ i64_max
    → from + spent g quota cap requests ≤ until + tolerance_ms quota + cost_ms quota most
spent_bound g quota cap most from until requests le w small =
    omega (arith, spent-le-max g quota cap most from until requests w small)

-- A delay that is told lies between one millisecond and the cap.
abbrev pub IsBounded : ℕ → Charge → Type 0
IsBounded cap charge =
    charge.outcome ≡ Outcome.throttled
    → (1 ≤ charge.retry_after_ms) × (charge.retry_after_ms ≤ max cap 1)

pub check-IsBounded :
    (g : Gcra) (quota : Quota) (cost now cap : ℕ) → IsBounded cap (check g quota cost now cap).1
unfolding check
check-IsBounded g quota cost now cap h = ground arith
