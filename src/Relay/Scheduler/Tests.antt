-- ===== src/Relay/Scheduler/Tests.antt =====
-- The schedule of two tasks: the sweep of each midnight, and one that is due a minute after its last run.
use tunnel_weaver.Base.{
  ℕ, ◌+◌, ◌*◌, ◌≤◌, ◌≡◌, refl, ltb, is_empty, All, List, [], ◌∷◌, some, unwrap_or, ascii, arith,
}
use tunnel_weaver.Relay.Scheduler.{
  Task, Entry, at_boot_then_midnight, next_midnight, next_deadline, next_wait, run_due,
}
use tunnel_weaver.Relay.Scheduler.Due.{run_due-next_wait}

abbrev World : Type 0
World = Unit {0}

abbrev sweep : Task World
sweep = record {
  name = ascii "sweep";
  next_tick = λ world last now. at_boot_then_midnight last now;
}

abbrev meter : Task World
meter = record { name = ascii "meter"; next_tick = λ world last now. unwrap_or last now + 60 }

abbrev entries : List (Entry World)
entries =
    record { task = sweep; next_run = next_midnight 100000 }
    ∷ record { task = meter; next_run = 100060 }
    ∷ []

run_due-next_wait_example :
    (wait : ℕ) × (next_wait entries 100000500 ≡ some wait)
    × (is_empty (run_due entries tt (100000500 + 59500) 100060100).1 ≡ ltb 59500 wait)
    × All
        (λ (run : Task World × ℕ). run.1 * 1000 ≤ 100000500 + 59500)
        (run_due entries tt (100000500 + 59500) 100060100).1
unfolding next_deadline next_midnight
run_due-next_wait_example =
    run_due-next_wait entries tt 100000500 59500 100060100 100060 refl (omega arith)
