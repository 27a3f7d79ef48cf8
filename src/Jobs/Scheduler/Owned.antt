-- ===== src/Jobs/Scheduler/Owned.antt =====
-- src/server/job-scheduler.ts: every event keeps the timer in the hands of a scheduler that runs.
use chatwca.Prelude.{
  Bool, List, Option, [], arith, false, if_holds, none, not, refl, some, subst, suc, sym, true, ℕ,
  ◌||◌, ◌∷◌, ◌≡◌,
}
use chatwca.Prelude.Text.{Text}
use chatwca.Jobs.Scheduler.{
  Claim, Outcome, Repository, Scheduler, begin_shutdown, cancel_timer, claim_failed, claim_invalid,
  claimed, is_current, nothing_due, safe_now, start, stop,
}
use chatwca.Jobs.Scheduler.Claims.{
  Event, dispatch_accepted, immediate_ran, manual_at, refresh_schedule, run_now, run_requested,
  run_start, schedule_refreshed, shutdown_called, start_called, start_ran, step, stop_called,
  take_manual, timer_fired, wake, run,
}
use chatwca.Jobs.Scheduler.Ownership.{
  IsOwned, active-IsOwned, arm-IsActive, claim_at-IsActive, is_current-IsActive, report-IsActive,
  settle-IsOwned, TimerOf, unset-TimerOf, start_at-IsActive, wake_again-IsActive,
}

module _ {R : Type 0} (repository : Repository R) (max_timer_delay : ℕ) where
  manual-IsOwned :
      (later : Bool) (id : Text) (claim : R × Claim) (s : Scheduler R)
      → IsOwned s
      → IsOwned (take_manual repository max_timer_delay later claim s).state
  manual-IsOwned later id (store, claimed r) s v =
      if_holds IsOwned later (λ _. record { timed = v.timed; ended = v.ended })
        (λ _. record { timed = v.timed; ended = v.ended })
  manual-IsOwned later id (store, nothing_due) s v = record { timed = v.timed; ended = v.ended }
  manual-IsOwned later id (store, claim_invalid) s v = record { timed = v.timed; ended = v.ended }
  manual-IsOwned later id (store, claim_failed) s v = record { timed = v.timed; ended = v.ended }

  manual_at-IsOwned :
      (later : Bool) (id : Text) (now : Option ℕ) (s : Scheduler R)
      → IsOwned s
      → IsOwned (manual_at repository max_timer_delay later id now s).state
  manual_at-IsOwned later id none s v = v
  manual_at-IsOwned later id (some now) s v =
      manual-IsOwned later id (repository.claim_manual id now s.store) s v

  accepted-IsOwned :
      (runs : List Text) (s : Scheduler R)
      → IsOwned s
      → IsOwned (dispatch_accepted repository max_timer_delay runs s)
  accepted-IsOwned [] s v = v
  accepted-IsOwned (r ∷ runs) s v = record { timed = v.timed; ended = v.ended }

  start-IsOwned : (s : Scheduler R) → IsOwned s → IsOwned (start s)
  unfolding start
  start-IsOwned s v =
      if_holds IsOwned (s.closed || s.running) (λ _. v)
        (λ resting. record {
          timed =
              subst (TimerOf true (suc s.generation))
                (sym (
                  unset-TimerOf s.generation s.timer (
                    subst (λ b. TimerOf b s.generation s.timer) (second s.closed s.running resting)
                      v.timed)))
                tt;
          ended = λ closed. absurd (clash s.closed s.running resting closed);
        })
    where
      second : (a b : Bool) → (a || b) ≡ false → b ≡ false
      second a b h = ground (arith, h)

      clash : (a b : Bool) → (a || b) ≡ false → a ≡ true → ⊥
      clash a b h e = ground (arith, h, e)

  pub begin_shutdown-IsOwned : (s : Scheduler R) → IsOwned s → IsOwned (begin_shutdown s)
  unfolding begin_shutdown stop
  begin_shutdown-IsOwned s v =
      if_holds IsOwned s.closed (λ _. v)
        (λ _.
          if_holds (λ (t : Scheduler R). IsOwned (record t { closed = true })) s.running
            (λ _. record { timed = tt; ended = λ _. refl })
            (λ idle. record { timed = v.timed; ended = λ _. idle }))

  step-IsOwned :
      (event : Event) (s : Scheduler R)
      → IsOwned s
      → IsOwned (step repository max_timer_delay event s)
  unfolding step stop wake run_start refresh_schedule run_now
  step-IsOwned start_called s v = start-IsOwned s v
  step-IsOwned stop_called s v =
      if_holds IsOwned s.running (λ _. record { timed = tt; ended = λ _. refl }) (λ _. v)
  step-IsOwned shutdown_called s v = begin_shutdown-IsOwned s v
  step-IsOwned immediate_ran s v = accepted-IsOwned s.accepted s v
  step-IsOwned (start_ran generation first again later) s v =
      if_holds IsOwned (not (is_current generation s)) (λ _. v)
        (λ current. settle-IsOwned repository max_timer_delay generation (safe_now later) _ (
          start_at-IsActive repository max_timer_delay (safe_now first) again s
            (is_current-IsActive generation s current v)))
  step-IsOwned (timer_fired generation first later) s v =
      if_holds IsOwned (not (is_current generation s)) (λ _. v)
        (λ current.
          let active = is_current-IsActive generation s current v in
          active-IsOwned _ (
            wake_again-IsActive repository max_timer_delay generation (safe_now later) _ (
              report-IsActive repository max_timer_delay _ (
                claim_at-IsActive repository max_timer_delay (safe_now first) (cancel_timer s)
                  (record { timed = tt; runs = active.runs; opened = active.opened })))))
  step-IsOwned (schedule_refreshed clock) s v =
      if_holds IsOwned (not s.running || s.closed) (λ _. v)
        (λ current. active-IsOwned _ (
          report-IsActive repository max_timer_delay _ (
            arm-IsActive repository max_timer_delay (safe_now clock) s (record {
              timed = v.timed;
              runs = first s.running s.closed current;
              opened = second s.running s.closed current;
            }))))
    where
      first : (a b : Bool) → (not a || b) ≡ false → a ≡ true
      first a b h = ground (arith, h)

      second : (a b : Bool) → (not a || b) ≡ false → b ≡ false
      second a b h = ground (arith, h)
  step-IsOwned (run_requested later id clock) s v =
      if_holds (λ (o : Outcome R). IsOwned o.state) (s.closed || not s.running) (λ _. v)
        (λ _. manual_at-IsOwned later id (safe_now clock) s v)

  pub run-IsOwned :
      (events : List Event) (s : Scheduler R)
      → IsOwned s
      → IsOwned (run repository max_timer_delay events s)
  run-IsOwned [] s v = v
  run-IsOwned (event ∷ events) s v =
      run-IsOwned events (step repository max_timer_delay event s) (step-IsOwned event s v)
