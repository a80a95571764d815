-- ===== src/Relay/Scheduler/Due.antt =====
-- Which tasks run, and when they run next.
use tunnel_weaver.Base.{
  ℕ, ◌+◌, ◌-◌, ◌*◌, ◌/◌, ◌%◌, ◌≤◌, ◌<◌, leb, min, true, false, List, [], ◌∷◌, some, is_empty, All,
  i64_max, arith, ◌≡◌, refl, inl, inr, Bool-cases, Option-cases, if_rule, leb→le, ltb→lt, ltb, sym,
  ◌∙◌,
}
use tunnel_weaver.Relay.Scheduler.{
  day, next_midnight, Task, Entry, next_deadline, next_wait, due, run_due,
}

-- The first midnight after a time.
pub next_midnight_lem :
    (now : ℕ)
    → (now < next_midnight now) × (next_midnight now ≤ now + day) × (next_midnight now % day ≡ 0)
unfolding next_midnight
next_midnight_lem now = (omega arith, omega arith, omega arith)

module _ {World : Type 0} where
  due-deadline :
      (entries : List (Entry World)) (deadline now : ℕ)
      → next_deadline entries ≡ some deadline
      → deadline ≤ now
      → is_empty (due entries now) ≡ false
  unfolding next_deadline due
  due-deadline [] deadline now h le = absurd (cc)
  due-deadline (entry ∷ entries) deadline now h le = elim (Option-cases (next_deadline entries)) [
    | inl e ↦ ground arith
    | inr (d, e) ↦ ground (arith, due-deadline entries d now e)
  ]

  -- No run comes before its tick.
  pub due-All :
      (entries : List (Entry World)) (clock_ms : ℕ)
      → All (λ (run : Task World × ℕ). run.1 * 1000 ≤ clock_ms) (due entries (clock_ms / 1000))
  unfolding due
  due-All [] clock_ms = tt
  due-All (entry ∷ entries) clock_ms =
      if_rule (All (λ (run : Task World × ℕ). run.1 * 1000 ≤ clock_ms))
        (leb entry.next_run (clock_ms / 1000)) _ _
        (λ e. (omega (arith, leb→le entry.next_run (clock_ms / 1000) e), due-All entries clock_ms))
        (λ _. due-All entries clock_ms)

  not-due :
      (entries : List (Entry World)) (deadline now : ℕ)
      → next_deadline entries ≡ some deadline
      → now < deadline
      → is_empty (due entries now) ≡ true
  unfolding next_deadline due
  not-due [] deadline now h lt = refl
  not-due (entry ∷ []) deadline now h lt = ground arith
  not-due (entry ∷ other ∷ entries) deadline now h lt =
      elim (Option-cases (next_deadline (other ∷ entries))) [
        | inl e ↦ absurd (ground arith)
        | inr (d, e) ↦ ground (arith, not-due (other ∷ entries) d now e)
      ]

  -- A scheduler with a task says how long to wait: a pass at any later time runs a task exactly if at
  -- least that long has gone by, and each run comes at its tick or after it. The deadlines are below the
  -- end of the clock.
  pub run_due-next_wait :
      (entries : List (Entry World)) (world : World) (clock_ms elapsed later_ms deadline : ℕ)
      → next_deadline entries ≡ some deadline
      → deadline * 1000 ≤ i64_max
      → (wait : ℕ) × (next_wait entries clock_ms ≡ some wait)
        × (is_empty (run_due entries world (clock_ms + elapsed) later_ms).1 ≡ ltb elapsed wait)
        × All
            (λ (run : Task World × ℕ). run.1 * 1000 ≤ clock_ms + elapsed)
            (run_due entries world (clock_ms + elapsed) later_ms).1
  unfolding next_wait run_due
  run_due-next_wait entries world clock_ms elapsed later_ms deadline h fits =
      let wait = min (deadline * 1000) i64_max - clock_ms in
      let now = (clock_ms + elapsed) / 1000 in
      let exact : is_empty (due entries now) ≡ ltb elapsed wait =
        elim (Bool-cases (ltb elapsed wait)) [
          | inl e ↦ not-due entries deadline now h (omega (arith, ltb→lt elapsed wait e)) ∙ sym e
          | inr e ↦ due-deadline entries deadline now h (ground arith) ∙ sym e
        ] in
      (wait, ground (arith, h), exact, due-All entries (clock_ms + elapsed))
