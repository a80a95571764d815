-- ===== src/Mux/Connection/Time/Termination.antt =====
-- The rounds of the loop of `handle_timeout`.
use tunnel_weaver.Base.{
  ℕ, zero, suc, ◌+◌, ◌≡◌, ◌≤◌, ◌<◌, refl, ltb, not, Bool, true, false, none, some, is_some,
  Option-cases, Bool-cases, if_rule, inl, inr, ◌⊎◌, arith, max,
}
use tunnel_weaver.Mux.Timers.{Timers, Expired, expired, passed, ping_due, idle_deadline}
use tunnel_weaver.Mux.Timers
use tunnel_weaver.Mux.Env.{Env}
use tunnel_weaver.Mux.Connection.{Connection}
use tunnel_weaver.Mux.Connection.Close.Laws.{closed-close_internal}
use tunnel_weaver.Mux.Connection.Time.{fire, fire_all, handle_timeout, still_valid}

-- A re-verification that fires is armed again for a later time.
abbrev pub rearms : Timers → Bool
rearms t = elim t.reverify_interval [ none ↦ not (is_some t.reverify_due) | some i ↦ ltb 0 i ]

abbrev bit : Bool → ℕ
bit true = 1
bit false = 0

-- The deadlines that can fire without closing the connection.
rank : Timers → ℕ → ℕ
unfolding ping_due
rank t now = bit (passed t.reverify_due now) + bit (passed (ping_due t) now)

-- The loop closes the connection in a round, or has one deadline less.
Progress : Connection → Connection → ℕ → Type 0
Progress c d now =
    (is_some d.closed ≡ true) ⊎ ((rank d.timers now < rank c.timers now) × (rearms d.timers ≡ true))

fire-Progress :
    (env : Env) (c : Connection) (now : ℕ) (x : Expired)
    → expired c.timers now ≡ some x
    → rearms c.timers ≡ true
    → Progress c (fire env c now x) now
unfolding fire Progress
fire-Progress env c now Expired.handshake h r = inl (closed-close_internal env c _ true)
fire-Progress env c now Expired.idle h r = inl (closed-close_internal env c _ true)
fire-Progress env c now Expired.reverify h r =
    if_rule (λ d. Progress c d now) (still_valid env c.cfg.role c.key_id) _ _
      (λ _. inr (unfold rank expired in ground arith))
      (λ _. inl (closed-close_internal env _ _ true))
fire-Progress env c now Expired.ping h r = inr (unfold rank expired in ground arith)

fire_all-closed :
    (fuel : ℕ) (env : Env) (c : Connection) (now : ℕ)
    → is_some c.closed ≡ true
    → is_some (fire_all (suc fuel) env c now) ≡ true
unfolding fire_all
fire_all-closed fuel env c now h = ground arith

fire_all-stop :
    (fuel : ℕ) (env : Env) (c : Connection) (now : ℕ)
    → expired c.timers now ≡ none
    → is_some (fire_all (suc fuel) env c now) ≡ true
unfolding fire_all
fire_all-stop fuel env c now h = ground arith

fire_all-next :
    (fuel : ℕ) (env : Env) (c : Connection) (now : ℕ) (x : Expired)
    → is_some c.closed ≡ false
    → expired c.timers now ≡ some x
    → fire_all (suc fuel) env c now ≡ fire_all fuel env (fire env c now x) now
unfolding fire_all
fire_all-next fuel env c now x b h = ground arith

fire_all_ends :
    (fuel : ℕ) (env : Env) (c : Connection) (now : ℕ)
    → rearms c.timers ≡ true
    → rank c.timers now + 2 ≤ fuel
    → is_some (fire_all fuel env c now) ≡ true
unfolding Progress
fire_all_ends zero env c now r h = absurd (omega arith)
fire_all_ends (suc zero) env c now r h = absurd (omega arith)
fire_all_ends (suc (suc fuel)) env c now r h = elim (Bool-cases (is_some c.closed)) [
  | inl b ↦ fire_all-closed (suc fuel) env c now b
  | inr b ↦ elim (Option-cases (expired c.timers now)) [
    | inl e ↦ fire_all-stop (suc fuel) env c now e
    | inr (x, e) ↦
        rw (fire_all-next (suc fuel) env c now x b e) (elim (fire-Progress env c now x e r) [
          | inl closed ↦ fire_all-closed fuel env (fire env c now x) now closed
          | inr (less, again) ↦
              fire_all_ends (suc fuel) env (fire env c now x) now again (omega arith)
        ])
  ]
]

rank-le : (t : Timers) (now : ℕ) → rank t now ≤ 2
unfolding rank
rank-le t now = ground arith

-- With a re-verification interval that is not zero, or none, four rounds are enough for the loop of
-- `handle_timeout`, whatever deadlines have passed.
pub handle_timeout_ends :
    (env : Env) (c : Connection) (now : ℕ)
    → rearms c.timers ≡ true
    → is_some (handle_timeout 4 env c now) ≡ true
unfolding handle_timeout Timers.observe
handle_timeout_ends env c now r =
    fire_all_ends 4 env _ _ r
      (omega (arith, rank-le (Timers.observe c.timers now).0 (max now c.timers.last_now)))

-- The states in which a re-verification is due again as soon as it has fired.
pub record IsStuck (env : Env) (c : Connection) (now : ℕ) : Type 0 where
  pub open_there : c.closed ≡ none
  pub no_handshake : c.timers.handshake_deadline ≡ none
  pub not_idle : passed (idle_deadline c.timers) now ≡ false
  pub due : passed c.timers.reverify_due now ≡ true
  pub zero_interval : c.timers.reverify_interval ≡ some 0
  pub valid : still_valid env c.cfg.role c.key_id ≡ true

fire-IsStuck :
    (env : Env) (c : Connection) (now : ℕ)
    → IsStuck env c now
    → IsStuck env (fire env c now Expired.reverify) now
unfolding fire idle_deadline
fire-IsStuck env c now s = ground arith

expired-IsStuck :
    (env : Env) (c : Connection) (now : ℕ)
    → IsStuck env c now
    → expired c.timers now ≡ some Expired.reverify
unfolding expired
expired-IsStuck env c now s = ground arith

-- With a re-verification interval of zero the loop never ends: on an open connection past its
-- handshake, not idle, with a peer that is still valid and a re-verification that is due, no number
-- of rounds is enough.
pub fire_all-IsStuck :
    (fuel : ℕ) (env : Env) (c : Connection) (now : ℕ)
    → IsStuck env c now
    → fire_all fuel env c now ≡ none
fire_all-IsStuck zero env c now s = unfold fire_all in refl
fire_all-IsStuck (suc fuel) env c now s =
    rw
      (fire_all-next fuel env c now Expired.reverify (rw (s.open_there))
        (expired-IsStuck env c now s))
      (fire_all-IsStuck fuel env (fire env c now Expired.reverify) now (fire-IsStuck env c now s))
