-- ===== src/Jobs/Scheduler/Tests.antt =====
-- Runs of src/server/job-scheduler.ts with a repository that counts its claims.
use chatwca.Prelude.{List, [], false, nat, none, refl, some, true, ℕ, ◌+◌, ◌∷◌, ◌≡◌}
use chatwca.Prelude.Text.{codes}
use chatwca.Jobs.Scheduler.{Job, Repository, Scheduler, begin_shutdown, claimed, new_scheduler}
use chatwca.Jobs.Scheduler.Claims.{
  Event, arm, immediate_ran, run, run_requested, start_called, start_ran, step, timer_fired,
}
use chatwca.Jobs.Scheduler.Wakes.{IsTimely, arm-IsTimely}
use chatwca.Jobs.Scheduler.Shutdown.{IsQuiet, shutdown-IsQuiet}

abbrev nightly : Job
nightly = record { id = codes "n"; enabled = true; next_run_at = some 500; invalid = false }

abbrev broken : Job
broken = record { id = codes "x"; enabled = true; next_run_at = some 10; invalid = true }

abbrev counting : Repository ℕ
counting = record {
  mark_all_interrupted = λ now count. some count;
  list_enabled = λ count. some (broken ∷ nightly ∷ []);
  list_due = λ now count. some (broken ∷ nightly ∷ []);
  claim_startup_catch_up = λ id now count. (count + 1, claimed id);
  claim_due = λ id now count. (count + 1, claimed id);
  claim_manual = λ id now count. (count + 1, claimed id);
}

abbrev history : List Event
history =
    start_called
    ∷ start_ran 1 (nat 100) (nat 100) (nat 100)
    ∷ timer_fired 1 (nat 600) (nat 600)
    ∷ run_requested true (codes "x") (nat 700)
    ∷ []

abbrev late_events : List Event
late_events =
    timer_fired 1 (nat 900) (nat 900)
    ∷ immediate_ran
    ∷ start_called
    ∷ run_requested false (codes "n") (nat 950)
    ∷ []

abbrev used : Scheduler ℕ
used = run counting 1000 history (new_scheduler 0)

claims : (used.store ≡ 2) × (used.dispatched ≡ codes "n" ∷ [])
unfolding new_scheduler step
claims = (refl, refl)

arm-IsTimely_example :
    ((arm counting 1000 (some 100) used).thrown ≡ false)
    × IsTimely 1000 100 (broken ∷ nightly ∷ []) (arm counting 1000 (some 100) used).state.timer
arm-IsTimely_example = arm-IsTimely counting 1000 100 (broken ∷ nightly ∷ []) used refl

shutdown-IsQuiet_example :
    IsQuiet counting 1000
      (begin_shutdown used)
      (run counting 1000 late_events (begin_shutdown used))
    × ((run counting 1000 late_events (begin_shutdown used)).running ≡ false)
    × ((run counting 1000 late_events (begin_shutdown used)).timer ≡ none)
shutdown-IsQuiet_example = shutdown-IsQuiet counting 1000 history late_events 0
