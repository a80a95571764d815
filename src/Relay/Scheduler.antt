-- ===== src/Relay/Scheduler.antt =====
-- crates/weaver-server/src/scheduler.rs and the schedule of the sweeps of housekeeping.rs: when the
-- relay's periodic tasks run. The clock is in Unix milliseconds; a pass takes the time at which it starts
-- and the time at which its runs have returned. The runs of a pass are concurrent: the world that they
-- leave is an argument.
pub mod Due
pub mod Tests
use tunnel_weaver.Base.{
  ℕ, ◌+◌, ◌-◌, ◌*◌, ◌/◌, leb, min, if◌then◌else◌, Bool, true, false, List, [], ◌∷◌, Option, none,
  some, sat_mul63, sat_sub,
}

abbrev pub day : ℕ
day = 86400

unfoldable pub next_midnight : ℕ → ℕ
next_midnight now = (now / day + 1) * day

-- Boot catch-up, then every midnight.
unfoldable pub at_boot_then_midnight : Option ℕ → ℕ → ℕ
unfolding next_midnight
at_boot_then_midnight none now = now
at_boot_then_midnight (some last) now = next_midnight now

module _ (World : Type 0) where
  -- What a task answers is up to the world. Its run is up to the world, too.
  pub record Task : Type 0 where
    pub name : List ℕ
    pub next_tick : World → Option ℕ → ℕ → ℕ

  pub record Entry : Type 0 where
    pub task : Task
    pub next_run : ℕ

abbrev pub earlier : ℕ → Option ℕ → ℕ
earlier a none = a
earlier a (some b) = min a b

abbrev pub wait_for : Option ℕ → ℕ → Option ℕ
wait_for none clock_ms = none
wait_for (some deadline) clock_ms = some (sat_sub (sat_mul63 deadline 1000) clock_ms)

module _ {World : Type 0} where
  unfoldable pub with_clock : List (Task World) → World → ℕ → List (Entry World)
  with_clock [] world clock_ms = []
  with_clock (task ∷ tasks) world clock_ms =
      record { task = task; next_run = task.next_tick world none (clock_ms / 1000) }
      ∷ with_clock tasks world clock_ms

  unfoldable pub next_deadline : List (Entry World) → Option ℕ
  next_deadline [] = none
  next_deadline (entry ∷ entries) = some (earlier entry.next_run (next_deadline entries))

  -- In milliseconds.
  unfoldable pub next_wait : List (Entry World) → ℕ → Option ℕ
  unfolding next_deadline
  next_wait entries clock_ms = wait_for (next_deadline entries) clock_ms

  -- The runs of a pass: each task that is due, with its tick.
  unfoldable pub due : List (Entry World) → ℕ → List (Task World × ℕ)
  due [] now = []
  due (entry ∷ entries) now =
      let rest = due entries now in
      if leb entry.next_run now then (entry.task, entry.next_run) ∷ rest else rest

  abbrev pub reschedule : Entry World → World → ℕ → ℕ → Entry World
  reschedule entry world now later =
      if leb entry.next_run now
      then record entry { next_run = entry.task.next_tick world (some entry.next_run) later }
      else entry

  unfoldable pub reschedule_due : List (Entry World) → World → ℕ → ℕ → List (Entry World)
  reschedule_due [] world now later = []
  reschedule_due (entry ∷ entries) world now later =
      reschedule entry world now later ∷ reschedule_due entries world now later

  -- A pass from `clock_ms` to `later_ms`, and its runs.
  unfoldable pub run_due :
      List (Entry World)
      → World
      → (clock_ms later_ms : ℕ) → List (Entry World) × List (Task World × ℕ)
  unfolding due reschedule_due
  run_due entries world clock_ms later_ms = (
    reschedule_due entries world (clock_ms / 1000) (later_ms / 1000),
    due entries (clock_ms / 1000),
  )
