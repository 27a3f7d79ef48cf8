-- ===== src/Jobs/Scheduler/Ownership.antt =====
-- src/server/job-scheduler.ts: what the claims and the arming leave of a scheduler in use.
use chatwca.Prelude.{
  Bool, List, Number, Option, [], arith, elim_holds, false, if_holds, none, not, refl, some, true,
  ℕ, ◌&&◌, ◌==◌, ◌||◌, ◌∷◌, ◌≡◌,
}
use chatwca.Jobs.Scheduler.{
  Claim, Job, Outcome, Repository, Scheduler, Timer, cancel_timer, claim_failed, claim_invalid,
  claimed, is_current, nearest_run, nothing_due, report, runs_by, safe_now,
}
use chatwca.Jobs.Scheduler.Claims.{
  arm, arm_listed, arm_nearest, catch_up, catch_up_listed, claim_at, claim_jobs, claim_listed,
  is_failed, recover, recover_at, set_timer, settle, take_claim, then_arm, start_at, wake_again,
}

-- A timer is set only while the scheduler runs, and for its generation.
abbrev pub TimerOf : Bool → ℕ → Option Timer → Type 0
TimerOf is_running generation none = Unit
TimerOf is_running generation (some timer) = (is_running ≡ true) × (timer.generation ≡ generation)

pub record IsOwned {R : Type 0} (s : Scheduler R) : Type 0 where
  pub timed : TimerOf s.running s.generation s.timer
  pub ended : s.closed ≡ true → s.running ≡ false

-- A scheduler in use.
pub record IsActive {R : Type 0} (s : Scheduler R) : Type 0 where
  pub timed : TimerOf s.running s.generation s.timer
  pub runs : s.running ≡ true
  pub opened : s.closed ≡ false

pub active-IsOwned : {R : Type 0} (s : Scheduler R) → IsActive s → IsOwned s
active-IsOwned s v = record {
  timed = v.timed;
  ended = λ closed. absurd (ground (arith, closed, v.opened));
}

pub unset-TimerOf :
    (generation : ℕ) (timer : Option Timer) → TimerOf false generation timer → timer ≡ none
unset-TimerOf generation none h = refl
unset-TimerOf generation (some timer) (h, _) = absurd (ground (arith, h))

pub is_current-IsActive :
    {R : Type 0} (generation : ℕ) (s : Scheduler R)
    → not (is_current generation s) ≡ false
    → IsOwned s
    → IsActive s
is_current-IsActive generation s h v = record {
  timed = v.timed;
  runs = first s.running s.closed (generation == s.generation) h;
  opened = second s.running s.closed (generation == s.generation) h;
}
  where
    first : (a b c : Bool) → not (a && not b && c) ≡ false → a ≡ true
    first a b c h = ground (arith, h)

    second : (a b c : Bool) → not (a && not b && c) ≡ false → b ≡ false
    second a b c h = ground (arith, h)

module _ {R : Type 0} (repository : Repository R) (max_timer_delay : ℕ) where
  -- What claims leave: a scheduler in use.
  take_claim-IsActive :
      (claim : R × Claim) (s : Scheduler R)
      → IsActive s
      → IsActive (take_claim repository max_timer_delay claim s)
  take_claim-IsActive (store, claimed id) s v = record {
    timed = v.timed;
    runs = v.runs;
    opened = v.opened;
  }
  take_claim-IsActive (store, nothing_due) s v = record {
    timed = v.timed;
    runs = v.runs;
    opened = v.opened;
  }
  take_claim-IsActive (store, claim_invalid) s v = record {
    timed = v.timed;
    runs = v.runs;
    opened = v.opened;
  }
  take_claim-IsActive (store, claim_failed) s v = record {
    timed = v.timed;
    runs = v.runs;
    opened = v.opened;
  }

  claim_jobs-IsActive :
      (now : ℕ) (jobs : List Job) (s : Scheduler R)
      → IsActive s
      → IsActive (claim_jobs repository max_timer_delay now jobs s)
  unfolding claim_jobs
  claim_jobs-IsActive now [] s v = v
  claim_jobs-IsActive now (job ∷ jobs) s v = claim_jobs-IsActive now jobs _ (
      if_holds IsActive (runs_by now job)
        (λ _. take_claim-IsActive (repository.claim_due job.id now s.store) s v) (λ _. v))

  claim_listed-IsActive :
      (now : ℕ) (due : Option (List Job)) (s : Scheduler R)
      → IsActive s
      → IsActive (claim_listed repository max_timer_delay now due s).state
  claim_listed-IsActive now none s v = v
  claim_listed-IsActive now (some due) s v = claim_jobs-IsActive now due s v

  pub claim_at-IsActive :
      (now : Option ℕ) (s : Scheduler R)
      → IsActive s
      → IsActive (claim_at repository max_timer_delay now s).state
  claim_at-IsActive none s v = v
  claim_at-IsActive (some now) s v = claim_listed-IsActive now (repository.list_due now s.store) s v

  catch_up-IsActive :
      (now : ℕ) (jobs : List Job) (s : Scheduler R)
      → IsActive s
      → IsActive (catch_up repository max_timer_delay now jobs s).state
  unfolding catch_up
  catch_up-IsActive now [] s v = record { timed = v.timed; runs = v.runs; opened = v.opened }
  catch_up-IsActive now (job ∷ jobs) s v =
      let (store, claim) = repository.claim_startup_catch_up job.id now s.store in
      let P = λ (o : Outcome R). IsActive o.state in
      elim_holds P (runs_by now job)
        (λ _.
          elim_holds P (is_failed repository max_timer_delay claim)
            (λ _. record { timed = v.timed; runs = v.runs; opened = v.opened })
            (λ _. catch_up-IsActive now jobs _ (take_claim-IsActive (store, claim) s v)))
        (λ _. catch_up-IsActive now jobs s v)

  catch_up_listed-IsActive :
      (now : ℕ) (enabled : Option (List Job)) (s : Scheduler R)
      → IsActive s
      → IsActive (catch_up_listed repository max_timer_delay now enabled s).state
  catch_up_listed-IsActive now none s v = v
  catch_up_listed-IsActive now (some enabled) s v = catch_up-IsActive now enabled s v

  recover-IsActive :
      (now : ℕ) (store : Option R) (s : Scheduler R)
      → IsActive s
      → IsActive (recover repository max_timer_delay now store s).state
  recover-IsActive now none s v = v
  recover-IsActive now (some store) s v =
      catch_up_listed-IsActive now (repository.list_enabled store) _
        (record { timed = v.timed; runs = v.runs; opened = v.opened })

  pub recover_at-IsActive :
      (now : Option ℕ) (s : Scheduler R)
      → IsActive s
      → IsActive (recover_at repository max_timer_delay now s).state
  recover_at-IsActive none s v = v
  recover_at-IsActive (some now) s v =
      recover-IsActive now (repository.mark_all_interrupted now s.store) s v

  set_timer-IsActive :
      (now : Option ℕ) (nearest : ℕ) (s : Scheduler R)
      → IsActive s
      → IsActive (set_timer repository max_timer_delay now nearest s).state
  set_timer-IsActive none nearest s v = v
  set_timer-IsActive (some now) nearest s v = record {
    timed = (v.runs, refl);
    runs = v.runs;
    opened = v.opened;
  }

  arm_nearest-IsActive :
      (now nearest : Option ℕ) (s : Scheduler R)
      → IsActive s
      → IsActive (arm_nearest repository max_timer_delay now nearest s).state
  arm_nearest-IsActive now none s v = v
  arm_nearest-IsActive now (some nearest) s v = set_timer-IsActive now nearest s v

  arm_listed-IsActive :
      (now : Option ℕ) (enabled : Option (List Job)) (s : Scheduler R)
      → IsActive s
      → IsActive (arm_listed repository max_timer_delay now enabled s).state
  arm_listed-IsActive now none s v = v
  arm_listed-IsActive now (some enabled) s v =
      arm_nearest-IsActive now (nearest_run none enabled) s v

  pub arm-IsActive :
      (now : Option ℕ) (s : Scheduler R)
      → IsActive s
      → IsActive (arm repository max_timer_delay now s).state
  unfolding arm
  arm-IsActive now s v =
      arm_listed-IsActive now (repository.list_enabled s.store) (cancel_timer s)
        (record { timed = tt; runs = v.runs; opened = v.opened })

  pub settle-IsOwned :
      (generation : ℕ) (now : Option ℕ) (outcome : Outcome R)
      → IsActive outcome.state
      → IsOwned (
          settle repository max_timer_delay
            (then_arm repository max_timer_delay generation now outcome))
  settle-IsOwned generation now outcome v =
      settled (then_arm repository max_timer_delay generation now outcome) (
        if_holds (λ (o : Outcome R). IsActive o.state)
          (outcome.thrown || not (is_current generation outcome.state)) (λ _. v)
          (λ _. arm-IsActive now outcome.state v))
    where
      settled : (o : Outcome R) → IsActive o.state → IsOwned (settle repository max_timer_delay o)
      settled o w =
          if_holds IsOwned o.thrown (λ _. record { timed = tt; ended = λ _. refl })
            (λ _. active-IsOwned o.state w)

  pub report-IsActive : (o : Outcome R) → IsActive o.state → IsActive (report o)
  report-IsActive o v =
      if_holds IsActive o.thrown (λ _. record { timed = v.timed; runs = v.runs; opened = v.opened })
        (λ _. v)

  pub start_at-IsActive :
      (now : Option ℕ) (again : Number) (s : Scheduler R)
      → IsActive s
      → IsActive (start_at repository max_timer_delay now again s).state
  start_at-IsActive none again s v = v
  start_at-IsActive (some now) again s v =
      if_holds (λ (o : Outcome R). IsActive o.state) s.initialized
        (λ _. claim_at-IsActive (safe_now again) s v) (λ _. recover_at-IsActive (some now) s v)

  pub wake_again-IsActive :
      (generation : ℕ) (now : Option ℕ) (s : Scheduler R)
      → IsActive s
      → IsActive (wake_again repository max_timer_delay generation now s)
  wake_again-IsActive generation now s v =
      if_holds IsActive (is_current generation s) (λ _. report-IsActive _ (arm-IsActive now s v))
        (λ _. v)
