-- ===== src/Jobs/Scheduler/Claims.antt =====
-- src/server/job-scheduler.ts, what claims runs and arms the timer.
use chatwca.Prelude.{
  Bool, List, Number, Option, [], false, if◌then◌else◌, min, none, not, some, true, ℕ, ◌++◌, ◌-◌,
  ◌||◌, ◌∷◌,
}
use chatwca.Prelude.Text.{Text}
use chatwca.Jobs.Scheduler.{
  Claim, Job, Outcome, Repository, Scheduler, add_error, claim_failed, claim_invalid, claimed,
  has_valid_persisted_schedule, nothing_due, runs_by, begin_shutdown, cancel_timer, is_current,
  nearest_run, report, safe_now, start, stop,
}

module _ {R : Type 0} (repository : Repository R) (max_timer_delay : ℕ) where
  -- `#dispatch` of a claim, with the error of the claim reported.
  abbrev pub take_claim : R × Claim → Scheduler R → Scheduler R
  take_claim (store, claimed run) s = record s {
    store = store;
    dispatched = s.dispatched ++ (run ∷ []);
  }
  take_claim (store, nothing_due) s = record s { store = store }
  take_claim (store, claim_invalid) s = record s { store = store }
  take_claim (store, claim_failed) s = add_error (record s { store = store })

  -- The loop of `#claimDue` over the jobs that are due.
  unfoldable pub claim_jobs : ℕ → List Job → Scheduler R → Scheduler R
  unfolding has_valid_persisted_schedule
  claim_jobs now [] s = s
  claim_jobs now (job ∷ jobs) s =
      claim_jobs now jobs
        (if runs_by now job then take_claim (repository.claim_due job.id now s.store) s else s)

  abbrev pub claim_listed : ℕ → Option (List Job) → Scheduler R → Outcome R
  claim_listed now none s = record { thrown = true; state = s }
  claim_listed now (some due) s = record { thrown = false; state = claim_jobs now due s }

  abbrev pub claim_at : Option ℕ → Scheduler R → Outcome R
  claim_at none s = record { thrown = true; state = s }
  claim_at (some now) s = claim_listed now (repository.list_due now s.store) s

  abbrev pub is_failed : Claim → Bool
  is_failed claim_failed = true
  is_failed _ = false

  -- The loop of `start` over the enabled jobs: an error other than JOB_INVALID is thrown.
  unfoldable pub catch_up : ℕ → List Job → Scheduler R → Outcome R
  unfolding has_valid_persisted_schedule
  catch_up now [] s = record { thrown = false; state = record s { initialized = true } }
  catch_up now (job ∷ jobs) s =
      let (store, claim) = repository.claim_startup_catch_up job.id now s.store in
      elim (runs_by now job) [
        | false ↦ catch_up now jobs s
        | true ↦ elim (is_failed claim) [
          | true ↦ record { thrown = true; state = record s { store = store } }
          | false ↦ catch_up now jobs (take_claim (store, claim) s)
        ]
      ]

  abbrev pub catch_up_listed : ℕ → Option (List Job) → Scheduler R → Outcome R
  catch_up_listed now none s = record { thrown = true; state = s }
  catch_up_listed now (some enabled) s = catch_up now enabled s

  abbrev pub recover : ℕ → Option R → Scheduler R → Outcome R
  recover now none s = record { thrown = true; state = s }
  recover now (some store) s =
      catch_up_listed now (repository.list_enabled store) (record s { store = store })

  abbrev pub recover_at : Option ℕ → Scheduler R → Outcome R
  recover_at none s = record { thrown = true; state = s }
  recover_at (some now) s = recover now (repository.mark_all_interrupted now s.store) s

  abbrev pub set_timer : Option ℕ → ℕ → Scheduler R → Outcome R
  set_timer none nearest s = record { thrown = true; state = s }
  set_timer (some now) nearest s = record {
    thrown = false;
    state = record s {
      timer =
          some (record { generation = s.generation; delay = min max_timer_delay (nearest - now) });
    };
  }

  abbrev pub arm_nearest : Option ℕ → Option ℕ → Scheduler R → Outcome R
  arm_nearest now none s = record { thrown = false; state = s }
  arm_nearest now (some nearest) s = set_timer now nearest s

  abbrev pub arm_listed : Option ℕ → Option (List Job) → Scheduler R → Outcome R
  arm_listed now none s = record { thrown = true; state = s }
  arm_listed now (some enabled) s = arm_nearest now (nearest_run none enabled) s

  -- `#arm`, with what `safeNow` gives.
  unfoldable pub arm : Option ℕ → Scheduler R → Outcome R
  unfolding nearest_run
  arm now s = arm_listed now (repository.list_enabled s.store) (cancel_timer s)

  abbrev pub then_arm : ℕ → Option ℕ → Outcome R → Outcome R
  then_arm generation now outcome =
      if outcome.thrown || not (is_current generation outcome.state)
      then outcome
      else arm now outcome.state

  -- The `catch` of `start`.
  abbrev pub settle : Outcome R → Scheduler R
  settle outcome =
      if outcome.thrown
      then record outcome.state { running = false; timer = none }
      else outcome.state

  -- What `start` does with the time at which it starts, and a second reading for `#claimDue`.
  abbrev pub start_at : Option ℕ → Number → Scheduler R → Outcome R
  start_at none again s = record { thrown = true; state = s }
  start_at (some startup_at) again s =
      if s.initialized then claim_at (safe_now again) s else recover_at (some startup_at) s

  -- The callback of the promise of `start`, with three readings of the clock.
  unfoldable pub run_start : ℕ → Number → Number → Number → Scheduler R → Scheduler R
  unfolding arm claim_jobs catch_up safe_now
  run_start generation first again later s =
      if not (is_current generation s)
      then s
      else settle (then_arm generation (safe_now later) (start_at (safe_now first) again s))

  abbrev pub wake_again : ℕ → Option ℕ → Scheduler R → Scheduler R
  wake_again generation now s = if is_current generation s then report (arm now s) else s

  -- `#wake`: what the timer calls.
  unfoldable pub wake : ℕ → Number → Number → Scheduler R → Scheduler R
  unfolding arm claim_jobs safe_now
  wake generation first later s =
      if not (is_current generation s)
      then s
      else wake_again generation (safe_now later)
          (report (claim_at (safe_now first) (cancel_timer s)))

  unfoldable pub refresh_schedule : Number → Scheduler R → Scheduler R
  unfolding arm safe_now
  refresh_schedule clock s =
      if not s.running || s.closed then s else report (arm (safe_now clock) s)

  -- `runNow` and `runNowAccepted`, that give the run to the runner at once or by setImmediate; they
  -- throw the errors.
  abbrev pub take_manual : Bool → R × Claim → Scheduler R → Outcome R
  take_manual later (store, claimed run) s = record {
    thrown = false;
    state =
        if later
        then record s { store = store; accepted = s.accepted ++ (run ∷ []) }
        else record s { store = store; dispatched = s.dispatched ++ (run ∷ []) };
  }
  take_manual later (store, _) s = record { thrown = true; state = record s { store = store } }

  abbrev pub manual_at : Bool → Text → Option ℕ → Scheduler R → Outcome R
  manual_at later id none s = record { thrown = true; state = s }
  manual_at later id (some now) s = take_manual later (repository.claim_manual id now s.store) s

  unfoldable pub run_now : Bool → Text → Number → Scheduler R → Outcome R
  unfolding safe_now
  run_now later id clock s =
      if s.closed || not s.running
      then record { thrown = true; state = s }
      else manual_at later id (safe_now clock) s

  abbrev pub dispatch_accepted : List Text → Scheduler R → Scheduler R
  dispatch_accepted [] s = s
  dispatch_accepted (run ∷ runs) s = record s {
    accepted = runs;
    dispatched = s.dispatched ++ (run ∷ []);
  }

-- What happens to a scheduler, with the readings of the clock.
pub data Event : Type 0 where
  start_called stop_called shutdown_called immediate_ran : Event
  start_ran : ℕ → Number → Number → Number → Event
  timer_fired : ℕ → Number → Number → Event
  schedule_refreshed : Number → Event
  run_requested : Bool → Text → Number → Event

module _ {R : Type 0} (repository : Repository R) (max_timer_delay : ℕ) where
  unfoldable pub step : Event → Scheduler R → Scheduler R
  unfolding start stop begin_shutdown run_start wake refresh_schedule run_now
  step start_called s = start s
  step stop_called s = stop s
  step shutdown_called s = begin_shutdown s
  step immediate_ran s = dispatch_accepted repository max_timer_delay s.accepted s
  step (start_ran generation first again later) s =
      run_start repository max_timer_delay generation first again later s
  step (timer_fired generation first later) s =
      wake repository max_timer_delay generation first later s
  step (schedule_refreshed clock) s = refresh_schedule repository max_timer_delay clock s
  step (run_requested later id clock) s =
      (run_now repository max_timer_delay later id clock s).state

  abbrev pub run : List Event → Scheduler R → Scheduler R
  run [] s = s
  run (event ∷ events) s = run events (step event s)
