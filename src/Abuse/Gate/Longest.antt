-- ===== src/Abuse/Gate/Longest.antt =====
-- The longest delay of a list of charges.
use tunnel_weaver.Base.{
  ℕ, ◌≡◌, ◌≤◌, ◌⊎◌, refl, List, [], ◌∷◌, none, some, All, max, arith, ap, ◌∙◌, subst, leb,
  Bool-cases, Option-cases, inl, inr,
}
use tunnel_weaver.Abuse.Gcra.{Charge, Outcome}
use tunnel_weaver.Abuse.Gate.{longest}
use tunnel_weaver.Abuse.Gcra.Limit.{IsBounded}

abbrev pub IsAdmitted : Charge → Type 0
IsAdmitted charge = charge.outcome ≡ Outcome.admitted

-- A charge that throttles with a given delay is among the charges.
abbrev pub HasThrottle : ℕ → List Charge → Type 0
HasThrottle retry [] = ⊥
HasThrottle retry (charge ∷ charges) =
    ((charge.outcome ≡ Outcome.throttled) × (charge.retry_after_ms ≡ retry))
    ⊎ HasThrottle retry charges

-- Every charge that throttles does so for at most a given delay.
abbrev pub IsThrottledBy : ℕ → Charge → Type 0
IsThrottledBy retry charge = charge.outcome ≡ Outcome.throttled → charge.retry_after_ms ≤ retry

Outcome-cases : (o : Outcome) → (o ≡ Outcome.admitted) ⊎ (o ≡ Outcome.throttled)
Outcome-cases Outcome.admitted = inl refl
Outcome-cases Outcome.throttled = inr refl

pub longest-none : (charges : List Charge) → longest charges ≡ none → All IsAdmitted charges
unfolding longest
longest-none [] h = tt
longest-none (charge ∷ charges) h =
    let both : (charge.outcome ≡ Outcome.admitted) × (longest charges ≡ none) = ground arith in
    (both.0, longest-none charges both.1)

pub none-longest : (charges : List Charge) → All IsAdmitted charges → longest charges ≡ none
unfolding longest
none-longest [] h = refl
none-longest (charge ∷ charges) h = rw (h.0, none-longest charges h.1)

All-admitted-throttled :
    (retry : ℕ) (charges : List Charge) → All IsAdmitted charges → All (IsThrottledBy retry) charges
All-admitted-throttled retry [] h = tt
All-admitted-throttled retry (charge ∷ charges) h =
    ((λ t. absurd (ground arith)), All-admitted-throttled retry charges h.1)

IsThrottledBy-mono :
    (a b : ℕ) (charges : List Charge)
    → a ≤ b
    → All (IsThrottledBy a) charges
    → All (IsThrottledBy b) charges
IsThrottledBy-mono a b [] le h = tt
IsThrottledBy-mono a b (charge ∷ charges) le h =
    ((λ t. omega (arith, h.0 t)), IsThrottledBy-mono a b charges le h.1)

pub longest-some :
    (charges : List Charge) (retry : ℕ)
    → longest charges ≡ some retry
    → HasThrottle retry charges × All (IsThrottledBy retry) charges
unfolding longest
longest-some [] retry h = absurd (cc)
longest-some (charge ∷ charges) retry h = elim (Outcome-cases charge.outcome) [
  | inl a ↦
      let rest = longest-some charges retry (ground arith) in
      (inr rest.0, ((λ t. absurd (ground arith)), rest.1))
  | inr t ↦ elim (Option-cases (longest charges)) [
    | inl q ↦
        let same : charge.retry_after_ms ≡ retry = ground arith in
        (
          inl (t, same),
          ((λ _. grind arith), All-admitted-throttled retry charges (longest-none charges q)),
        )
    | inr (r, q) ↦
        let rest = longest-some charges r q in
        let most : max charge.retry_after_ms r ≡ retry = ground arith in
        (
          elim (Bool-cases (leb r charge.retry_after_ms)) [
            | inl le ↦ inl (t, grind arith)
            | inr lt ↦ inr (subst (λ n. HasThrottle n charges) (grind arith) rest.0)
          ],
          ((λ _. grind arith), IsThrottledBy-mono r retry charges (grind arith) rest.1),
        )
  ]
]

HasThrottle-not-IsAdmitted :
    (retry : ℕ) (charges : List Charge) → HasThrottle retry charges → ¬ All IsAdmitted charges
HasThrottle-not-IsAdmitted retry [] h a = h
HasThrottle-not-IsAdmitted retry (charge ∷ charges) (inl h) a = ground arith
HasThrottle-not-IsAdmitted retry (charge ∷ charges) (inr h) a =
    HasThrottle-not-IsAdmitted retry charges h a.1

HasThrottle-≤ :
    (a b : ℕ) (charges : List Charge)
    → HasThrottle a charges
    → All (IsThrottledBy b) charges
    → a ≤ b
HasThrottle-≤ a b [] h l = absurd h
HasThrottle-≤ a b (charge ∷ charges) (inl h) l = omega (arith, h.1, l.0 h.0)
HasThrottle-≤ a b (charge ∷ charges) (inr h) l = HasThrottle-≤ a b charges h l.1

-- What the longest delay says, both ways.
pub some-longest :
    (charges : List Charge) (retry : ℕ)
    → HasThrottle retry charges
    → All (IsThrottledBy retry) charges
    → longest charges ≡ some retry
some-longest charges retry h l = elim (Option-cases (longest charges)) [
  | inl q ↦ absurd (HasThrottle-not-IsAdmitted retry charges h (longest-none charges q))
  | inr (r, q) ↦
      let found = longest-some charges r q in
      let le = HasThrottle-≤ retry r charges h found.1 in
      let ge = HasThrottle-≤ r retry charges found.0 l in q ∙ ap (λ n. some n) (omega arith)
]

pub HasThrottle-IsBounded :
    (retry cap : ℕ) (charges : List Charge)
    → HasThrottle retry charges
    → All (IsBounded cap) charges
    → (1 ≤ retry) × (retry ≤ max cap 1)
HasThrottle-IsBounded retry cap [] h b = absurd h
HasThrottle-IsBounded retry cap (charge ∷ charges) (inl h) b = omega (arith, h.1, b.0 h.0)
HasThrottle-IsBounded retry cap (charge ∷ charges) (inr h) b =
    HasThrottle-IsBounded retry cap charges h b.1
