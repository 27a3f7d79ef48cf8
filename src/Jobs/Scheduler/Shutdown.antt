-- ===== src/Jobs/Scheduler/Shutdown.antt =====
-- src/server/job-scheduler.ts: what is left of a scheduler that is shut down.
use mathlib.Core.List.{append_assoc}
use chatwca.Prelude.{
  Bool, List, [], ap, arith, false, if_holds, none, not, refl, subst, sym, true, ℕ, ◌&&◌, ◌++◌,
  ◌==◌, ◌||◌, ◌∙◌, ◌∷◌, ◌≡◌,
}
use chatwca.Prelude.Text.{Text}
use chatwca.Jobs.Scheduler.{
  Outcome, Repository, Scheduler, begin_shutdown, is_current, new_scheduler, start, stop,
}
use chatwca.Jobs.Scheduler.Claims.{
  Event, dispatch_accepted, immediate_ran, refresh_schedule, run, run_now, run_requested, run_start,
  schedule_refreshed, shutdown_called, start_called, start_ran, step, stop_called, timer_fired,
  wake,
}
use chatwca.Jobs.Scheduler.Ownership.{IsOwned, TimerOf, unset-TimerOf}
use chatwca.Jobs.Scheduler.Owned.{begin_shutdown-IsOwned, run-IsOwned}

module _ {R : Type 0} (repository : Repository R) (max_timer_delay : ℕ) where
  -- What a closed scheduler keeps: its store, and the runs that it gave or will give to the runner.
  abbrev pub given : Scheduler R → List Text
  given s = s.dispatched ++ s.accepted

  pub record IsQuiet (s t : Scheduler R) : Type 0 where
    pub closed : t.closed ≡ true
    pub store : t.store ≡ s.store
    pub runs : given t ≡ given s

  still : (s : Scheduler R) → s.closed ≡ true → IsQuiet s s
  still s closed = record { closed = closed; store = refl; runs = refl }

  accepted-IsQuiet :
      (runs : List Text) (s : Scheduler R)
      → s.accepted ≡ runs
      → s.closed ≡ true
      → IsQuiet s (dispatch_accepted repository max_timer_delay runs s)
  accepted-IsQuiet [] s e closed = still s closed
  accepted-IsQuiet (r ∷ runs) s e closed = record {
    closed = closed;
    store = refl;
    runs = append_assoc s.dispatched (r ∷ []) runs ∙ ap (λ later. s.dispatched ++ later) (sym e);
  }

  step-IsQuiet :
      (event : Event) (s : Scheduler R)
      → s.closed ≡ true
      → IsQuiet s (step repository max_timer_delay event s)
  unfolding step start stop begin_shutdown run_start wake refresh_schedule run_now
  step-IsQuiet start_called s c =
      if_holds (IsQuiet s) (s.closed || s.running) (λ _. still s c)
        (λ h. absurd (or_clash s.closed s.running c h))
    where
      or_clash : (a b : Bool) → a ≡ true → (a || b) ≡ false → ⊥
      or_clash a b e h = ground (arith, e, h)
  step-IsQuiet stop_called s c =
      if_holds (IsQuiet s) s.running (λ _. record { closed = c; store = refl; runs = refl })
        (λ _. still s c)
  step-IsQuiet shutdown_called s c =
      if_holds (IsQuiet s) s.closed (λ _. still s c) (λ h. absurd (ground (arith, c, h)))
  step-IsQuiet immediate_ran s c = accepted-IsQuiet s.accepted s refl c
  step-IsQuiet (start_ran generation first again later) s c =
      if_holds (IsQuiet s) (not (is_current generation s)) (λ _. still s c)
        (λ h. absurd (current_clash s.running s.closed (generation == s.generation) c h))
    where
      current_clash : (a b d : Bool) → b ≡ true → not (a && not b && d) ≡ false → ⊥
      current_clash a b d e h = ground (arith, e, h)
  step-IsQuiet (timer_fired generation first later) s c =
      if_holds (IsQuiet s) (not (is_current generation s)) (λ _. still s c)
        (λ h. absurd (current_clash s.running s.closed (generation == s.generation) c h))
    where
      current_clash : (a b d : Bool) → b ≡ true → not (a && not b && d) ≡ false → ⊥
      current_clash a b d e h = ground (arith, e, h)
  step-IsQuiet (schedule_refreshed clock) s c =
      if_holds (IsQuiet s) (not s.running || s.closed) (λ _. still s c)
        (λ h. absurd (or_clash (not s.running) s.closed c h))
    where
      or_clash : (a b : Bool) → b ≡ true → (a || b) ≡ false → ⊥
      or_clash a b e h = ground (arith, e, h)
  step-IsQuiet (run_requested later id clock) s c =
      if_holds (λ (o : Outcome R). IsQuiet s o.state) (s.closed || not s.running) (λ _. still s c)
        (λ h. absurd (or_clash s.closed (not s.running) c h))
    where
      or_clash : (a b : Bool) → a ≡ true → (a || b) ≡ false → ⊥
      or_clash a b e h = ground (arith, e, h)

  run-IsQuiet :
      (events : List Event) (s : Scheduler R)
      → s.closed ≡ true
      → IsQuiet s (run repository max_timer_delay events s)
  run-IsQuiet [] s c = still s c
  run-IsQuiet (event ∷ events) s c =
      let first = step-IsQuiet event s c in
      let later = run-IsQuiet events (step repository max_timer_delay event s) first.closed in
      record {
        closed = later.closed;
        store = later.store ∙ first.store;
        runs = later.runs ∙ first.runs;
      }

  begin_shutdown_closes : (s : Scheduler R) → (begin_shutdown s).closed ≡ true
  unfolding begin_shutdown
  begin_shutdown_closes s =
      if_holds (λ (t : Scheduler R). t.closed ≡ true) s.closed (λ c. c) (λ _. refl)

  first-IsOwned : (store : R) → IsOwned (new_scheduler store)
  unfolding new_scheduler
  first-IsOwned store = record { timed = tt; ended = λ _. refl }

  -- Whatever happened to a scheduler before its shutdown and whatever happens after it (late
  -- callbacks of its timer and of its start, requests for runs, restarts): from the shutdown on it is
  -- closed and not running, no timer is set, the repository stays as it is, so that no run is claimed,
  -- and the runner is given no run but those already accepted.
  pub shutdown-IsQuiet :
      (before after : List Event) (store : R)
      → let s = begin_shutdown (run repository max_timer_delay before (new_scheduler store)) in
        let t = run repository max_timer_delay after s in
        IsQuiet s t × (t.running ≡ false) × (t.timer ≡ none)
  shutdown-IsQuiet before after store =
      let s = begin_shutdown (run repository max_timer_delay before (new_scheduler store)) in
      let t = run repository max_timer_delay after s in
      let quiet = run-IsQuiet after s (begin_shutdown_closes _) in
      let owned = run-IsOwned repository max_timer_delay after s (
        begin_shutdown-IsOwned repository max_timer_delay _
          (run-IsOwned repository max_timer_delay before _ (first-IsOwned store))) in
      let stopped = owned.ended quiet.closed in
      (
        quiet,
        stopped,
        unset-TimerOf t.generation t.timer
            (subst (λ b. TimerOf b t.generation t.timer) stopped owned.timed),
      )
