-- ===== src/Abuse/Altcha/Pow/Solved.antt =====
-- What the solver finds, and that it serves the verifier.
use tunnel_weaver.Base.{
  ℕ, zero, suc, ◌+◌, ◌/◌, ◌≤◌, ◌<◌, ◌==◌, ltb, min, not, Bool, true, false, List, Option, none,
  some, ok, ascii, arith, ◌≡◌, inl, inr, refl, Bool-cases, Option-cases, is_hex_digit, is_empty,
  u32_max, length, ◌||◌, ◌*◌, subst,
}
use native.Mathlib.Nat.{div-mul-le_self, mul-le-mul_right, min-le_left}
use tunnel_weaver.Relay.Host.{every}
use tunnel_weaver.Abuse.Altcha.{Challenge, ChallengeParameters, Solution, Libraries}
use tunnel_weaver.Abuse.Altcha.Pow.{
  CreateRequest, VerifyRequest, SolveLimits, SolveError, is_supported, signed, derive_key,
  key_prefix_matches, create_challenge, verify_solution, solve_from, solve_within,
  try_solve_challenge, is_hopeless,
}
use tunnel_weaver.Abuse.Altcha.Pow.Accepts.{Accepts-verify_solution, refuse_if-ok}

module _ {Json : Type 0} (lib : Libraries Json) where
  abbrev pub matches : ChallengeParameters Json → List ℕ → List ℕ → ℕ → Bool
  matches params nonce salt counter =
      key_prefix_matches lib params.key_prefix (derive_key lib params nonce salt counter)

  -- The first of the counters whose key has the prefix, and its key.
  pub record First (params : ChallengeParameters Json) (nonce salt : List ℕ) (from : ℕ)
      (s : Solution) : Type 0 where
    pub is_from : from ≤ s.counter
    pub is_key : lib.hex_encode (derive_key lib params nonce salt s.counter) ≡ s.derived_key
    pub is_match : matches params nonce salt s.counter ≡ true
    pub is_first : (c : ℕ) → from ≤ c → c < s.counter → matches params nonce salt c ≡ false

  found :
      (params : ChallengeParameters Json) (nonce salt : List ℕ) (from left : ℕ) (s : Solution)
      → solve_from lib params nonce salt from left ≡ some s
      → First params nonce salt from s × (s.counter < from + left)
  unfolding solve_from
  found params nonce salt from zero s h = absurd (cc)
  found params nonce salt from (suc left) s h = elim (Bool-cases (matches params nonce salt from)) [
    | inl hit ↦
        let key = lib.hex_encode (derive_key lib params nonce salt from) in
        let this : Solution = record { counter = from; derived_key = key } in
        let is_this : this ≡ s = ground arith in
        let first : First params nonce salt from this = record {
          is_from = omega arith;
          is_key = refl;
          is_match = hit;
          is_first = λ c lo hi. absurd (omega arith);
        } in
        (subst (First params nonce salt from) is_this first, ground arith)
    | inr miss ↦
        let later : solve_from lib params nonce salt (from + 1) left ≡ some s = ground arith in
        let (rest, below) = found params nonce salt (from + 1) left s later in
        (
          record {
            is_from = omega (arith, rest.is_from);
            is_key = rest.is_key;
            is_match = rest.is_match;
            is_first = λ c lo hi. ground (arith, miss, rest.is_first c);
          },
          omega (arith, below),
        )
  ]

  missed :
      (params : ChallengeParameters Json) (nonce salt : List ℕ) (from left : ℕ)
      → solve_from lib params nonce salt from left ≡ none
      → (c : ℕ) → from ≤ c
      → c < from + left
      → matches params nonce salt c ≡ false
  unfolding solve_from
  missed params nonce salt from zero h c lo hi = absurd (omega arith)
  missed params nonce salt from (suc left) h c lo hi =
      elim (Bool-cases (matches params nonce salt from)) [
        | inl hit ↦ absurd (ground arith)
        | inr miss ↦
            let later : solve_from lib params nonce salt (from + 1) left ≡ none = ground arith in
            ground (arith, missed params nonce salt (from + 1) left later c)
      ]

  -- What a call of the solver answers.
  abbrev pub Answers : ChallengeParameters Json → List ℕ → List ℕ → ℕ → Option Solution → Type 0
  Answers params nonce salt max_counter none =
      (c : ℕ) → c ≤ max_counter → matches params nonce salt c ≡ false
  Answers params nonce salt max_counter (some s) =
      First params nonce salt 0 s × (s.counter ≤ max_counter)

  -- On a challenge whose nonce and salt are hex, the solver answers with the first counter whose key has
  -- the prefix, and with that key; it gives up only where no counter up to the last one has it.
  pub solve_within-Answers :
      (challenge : Challenge Json) (max_counter : ℕ) (nonce salt : List ℕ)
      → lib.hex_decode challenge.parameters.nonce ≡ some nonce
      → lib.hex_decode challenge.parameters.salt ≡ some salt
      → Answers challenge.parameters nonce salt max_counter (solve_within lib challenge max_counter)
  unfolding solve_within
  solve_within-Answers challenge max_counter nonce salt n k =
      let params = challenge.parameters in
      rw (n, k)
        (elim (Option-cases (solve_from lib params nonce salt 0 (max_counter + 1))) [
          | inl e ↦
              rw e (λ c le.
                missed params nonce salt 0 (max_counter + 1) e c (omega arith) (omega arith))
          | inr (s, e) ↦
              let (first, below) = found params nonce salt 0 (max_counter + 1) s e in
              rw e (first, omega (arith, below))
        ])

  decoded :
      (challenge : Challenge Json) (max_counter : ℕ) (s : Solution)
      → solve_within lib challenge max_counter ≡ some s
      → (nonce salt : List ℕ) × (lib.hex_decode challenge.parameters.nonce ≡ some nonce)
        × (lib.hex_decode challenge.parameters.salt ≡ some salt)
  unfolding solve_within
  decoded challenge max_counter s h =
      let params = challenge.parameters in
      elim (Option-cases (lib.hex_decode params.nonce)) [
        | inl e ↦ absurd (ground arith)
        | inr (nonce, e) ↦ elim (Option-cases (lib.hex_decode params.salt)) [
          | inl f ↦ absurd (ground arith)
          | inr (salt, f) ↦ (nonce, salt, e, f)
        ]
      ]

  -- What the limits leave the solver.
  pub record Solves (challenge : Challenge Json) (limits : SolveLimits) (s : Solution)
      : Type 0 where
    pub is_algorithm : is_supported challenge.parameters.algorithm ≡ true
    pub is_cheap : challenge.parameters.cost ≤ limits.max_cost
    pub max_counter : ℕ
    pub is_bounded : max_counter * challenge.parameters.cost ≤ limits.max_work
    pub is_solved : solve_within lib challenge max_counter ≡ some s

  pub try_solve_challenge-Solves :
      (challenge : Challenge Json) (limits : SolveLimits) (s : Solution)
      → try_solve_challenge lib challenge limits ≡ ok s
      → Solves challenge limits s
  unfolding try_solve_challenge
  try_solve_challenge-Solves challenge limits s h =
      let params = challenge.parameters in
      let (foreign, h1) =
        refuse_if-ok (not (is_supported params.algorithm)) SolveError.unsupported_algorithm _ s h in
      let (odd, h2) =
        refuse_if-ok (params.cost == 0 || (params.key_length == 0 || ltb 64 params.key_length))
          SolveError.malformed _ s h1 in
      let (text, h3) =
        refuse_if-ok (not (every is_hex_digit params.key_prefix)) SolveError.malformed _ s h2 in
      let (dear, h4) =
        refuse_if-ok (ltb limits.max_cost params.cost) SolveError.too_expensive _ s h3 in
      let n = min (limits.max_work / params.cost) u32_max in
      let (hopeless, h5) =
        refuse_if-ok (is_hopeless (length params.key_prefix) n) SolveError.too_expensive _ s h4 in
      let share : n * params.cost ≤ limits.max_work = omega (
        arith,
        div-mul-le_self limits.max_work params.cost,
        mul-le-mul_right params.cost (min-le_left (limits.max_work / params.cost) u32_max),
      ) in
      record {
        is_algorithm = ground arith;
        is_cheap = ground arith;
        max_counter = n;
        is_bounded = share;
        is_solved = ground arith;
      }

  abbrev pub to_verify : CreateRequest Json → Solution → ℕ → List ℕ → List ℕ → VerifyRequest Json
  to_verify req s now_ms purpose flow = record {
    challenge = create_challenge lib req;
    solution = s;
    secret = req.secret;
    now_ms = now_ms;
    expected_purpose = purpose;
    expected_flow = flow;
  }

  -- A challenge that the relay makes, solved by the solver within its limits and handed in before it runs
  -- out, is verified for the purpose and the flow that it was made for.
  pub verify_solution-try_solve_challenge :
      (req : CreateRequest Json) (limits : SolveLimits) (s : Solution) (now_ms : ℕ)
      → try_solve_challenge lib (create_challenge lib req) limits ≡ ok s
      → is_empty req.context ≡ false
      → (0 < req.ttl_secs → now_ms / 1000 ≤ req.now_ms / 1000 + req.ttl_secs)
      → verify_solution lib (
          to_verify req s now_ms
            (signed lib req.context (ascii "purpose"))
            (signed lib req.context (ascii "flow")))
        ≡ ok (record {
          nonce = lib.hex_encode req.nonce;
          purpose = signed lib req.context (ascii "purpose");
          flow = signed lib req.context (ascii "flow");
        })
  unfolding create_challenge
  verify_solution-try_solve_challenge req limits s now_ms h full soon =
      let challenge = create_challenge lib req in
      let params = challenge.parameters in
      let solves = try_solve_challenge-Solves challenge limits s h in
      let (nonce, salt, is_nonce, is_salt) =
        decoded challenge solves.max_counter s solves.is_solved in
      let first : First params nonce salt 0 s × (s.counter ≤ solves.max_counter) =
        subst (Answers params nonce salt solves.max_counter) solves.is_solved
          (solve_within-Answers challenge solves.max_counter nonce salt is_nonce is_salt) in
      Accepts-verify_solution lib _ _ (record {
        is_current = λ t e n. ground arith;
        is_signed = refl;
        is_algorithm = solves.is_algorithm;
        context = req.context;
        has_context = rw full refl;
        is_purpose = refl;
        is_flow = refl;
        nonce = nonce;
        salt = salt;
        is_nonce = is_nonce;
        is_salt = is_salt;
        is_derived = first.0.is_key;
        is_work = first.0.is_match;
        is_answer = refl;
      })
