-- ===== src/Abuse/Gcra/Bucket.antt =====
-- The limiter against the bucket that the comments of gcra.rs describe: a level that drains with
-- time, and that a request raises.
use tunnel_weaver.Base.{
  ℕ, ◌+◌, ◌-◌, ◌≡◌, ◌≤◌, refl, subst, sym, List, [], ◌∷◌, arith, leb, if◌then◌else◌, i64_max,
}
use tunnel_weaver.Abuse.Gcra.{Gcra, Quota, Outcome, check, tolerance_ms, cost_ms, tat_at}

-- How full the bucket was when it was last looked at.
pub record Bucket : Type 0 where
  pub level : ℕ
  pub seen : ℕ

pub drained : Bucket → ℕ → ℕ
drained b now = b.level - (now - b.seen)

-- A request is let through while the level is not above the tolerance, and then raises it.
pub pour : Bucket → Quota → ℕ → ℕ → Bucket × Outcome
unfolding drained
pour b quota cost now =
    if leb (drained b now) (tolerance_ms quota)
    then (record { level = drained b now + cost_ms quota cost; seen = now }, Outcome.admitted)
    else (record { level = drained b now; seen = now }, Outcome.throttled)

pub record Represents (b : Bucket) (g : Gcra) : Type 0 where
  pub same : b.seen + b.level ≡ tat_at g b.seen

pub empty : ℕ → Bucket
empty now = record { level = 0; seen = now }

-- The outcomes of a sequence of requests, in order.
pub pours : Bucket → Quota → List (ℕ × ℕ) → List Outcome
pours b quota [] = []
pours b quota ((now, cost) ∷ rest) = let (b', o) = pour b quota cost now in o ∷ pours b' quota rest

pub checks : Gcra → Quota → ℕ → List (ℕ × ℕ) → List Outcome
checks g quota cap [] = []
checks g quota cap ((now, cost) ∷ rest) =
    let (g', charge) = check g quota cost now cap in charge.outcome ∷ checks g' quota cap rest

-- Requests in the order of their instants, none before `from`, that stay clear of `i64::MAX`.
abbrev pub IsTimely : Quota → ℕ → List (ℕ × ℕ) → Type 0
IsTimely quota from [] = Unit {0}
IsTimely quota from ((now, cost) ∷ rest) =
    (from ≤ now)
    × (now + tolerance_ms quota + cost_ms quota cost ≤ i64_max)
    × IsTimely quota now rest

check-pour :
    (b : Bucket) (g : Gcra) (quota : Quota) (cost now cap : ℕ)
    → b.seen ≤ now
    → now + tolerance_ms quota + cost_ms quota cost ≤ i64_max
    → Represents b g
    → ((check g quota cost now cap).1.outcome ≡ (pour b quota cost now).1)
      × Represents (pour b quota cost now).0 (check g quota cost now cap).0
      × ((pour b quota cost now).0.seen ≡ now)
unfolding check pour drained
check-pour b g quota cost now cap le small r = ground arith

-- The limiter refines the bucket: on every timely sequence of requests both let the same ones
-- through, starting from a bucket that the limiter's state represents, such as an empty one and a
-- fresh limiter.
pub checks-eq-pours :
    (b : Bucket) (g : Gcra) (quota : Quota) (cap : ℕ) (requests : List (ℕ × ℕ))
    → Represents b g
    → IsTimely quota b.seen requests
    → checks g quota cap requests ≡ pours b quota requests
unfolding checks pours
checks-eq-pours b g quota cap [] r t = refl
checks-eq-pours b g quota cap ((now, cost) ∷ rest) r t =
    let (same, r', at) = check-pour b g quota cost now cap t.0 t.1 r in
    let rest_same =
      checks-eq-pours (pour b quota cost now).0 (check g quota cost now cap).0 quota cap rest r'
        (subst (λ from. IsTimely quota from rest) (sym at) t.2) in
    λ i. same i ∷ rest_same i
