-- ===== src/Jobs/Scheduler/Wakes.antt =====
-- src/server/job-scheduler.ts, `#arm`: when the timer fires.
use mathlib.Core.Option.{none-ne-some, get_or}
use chatwca.Prelude.{
  All, Bool-cases, List, Option, [], ap, arith, elim_holds, false, if_holds, inl, inr, ltb, max,
  min, none, refl, some, subst, sym, true, ℕ, ◌+◌, ◌-◌, ◌∷◌, ◌≡◌, ◌≤◌,
}
use chatwca.Jobs.Scheduler.{
  Job, earlier, has_valid_persisted_schedule, nearest_run, Repository, Scheduler, Timer,
  cancel_timer, has_next_run,
}
use chatwca.Jobs.Scheduler.Claims.{arm, arm_listed, arm_nearest}

-- A time that is not after what a job is due at.
abbrev pub IsNotAfter : ℕ → Option ℕ → Type 0
IsNotAfter at none = Unit
IsNotAfter at (some due) = at ≤ due

abbrev Before : Option ℕ → Option ℕ → Type 0
Before none due = due ≡ none
Before (some at) due = IsNotAfter at due

earlier-Before : (nearest due : Option ℕ) → Before (earlier nearest due) due
earlier-Before none none = refl
earlier-Before none (some at) = omega arith
earlier-Before (some nearest) none = tt
earlier-Before (some nearest) (some at) =
    if_holds (λ o. Before o (some at)) (ltb at nearest) (λ _. reflexive at)
      (λ late. not_before at nearest late)
  where
    reflexive : (n : ℕ) → n ≤ n
    reflexive n = omega arith

    not_before : (a b : ℕ) → ltb a b ≡ false → b ≤ a
    not_before a b h = ground (arith, h)

earlier-keeps :
    (nearest other_due due : Option ℕ) → Before nearest due → Before (earlier nearest other_due) due
earlier-keeps none none due h = h
earlier-keeps none (some at) none h = tt
earlier-keeps none (some at) (some due) h = absurd (none-ne-some due (sym h))
earlier-keeps (some nearest) none due h = h
earlier-keeps (some nearest) (some at) none h =
    if_holds (λ o. Before o none) (ltb at nearest) (λ _. tt) (λ _. tt)
earlier-keeps (some nearest) (some at) (some due) h =
    if_holds (λ o. Before o (some due)) (ltb at nearest) (λ early. chain at nearest due early h)
      (λ _. h)
  where
    chain : (a b c : ℕ) → ltb a b ≡ true → b ≤ c → a ≤ c
    chain a b c h k = ground (arith, h, k)

nearest_run-keeps :
    (nearest due : Option ℕ) (jobs : List Job)
    → Before nearest due
    → Before (nearest_run nearest jobs) due
unfolding nearest_run
nearest_run-keeps nearest due [] h = h
nearest_run-keeps nearest due (job ∷ jobs) h =
    elim_holds (λ o. Before o due) (has_valid_persisted_schedule job)
      (λ _.
        nearest_run-keeps (earlier nearest job.next_run_at) due jobs
          (earlier-keeps nearest job.next_run_at due h))
      (λ _. nearest_run-keeps nearest due jobs h)

abbrev AllBefore : Option ℕ → List Job → Type 0
AllBefore at [] = Unit
AllBefore at (job ∷ jobs) =
    (has_valid_persisted_schedule job ≡ true → Before at job.next_run_at) × AllBefore at jobs

nearest_run-AllBefore :
    (nearest : Option ℕ) (jobs : List Job) → AllBefore (nearest_run nearest jobs) jobs
unfolding nearest_run
nearest_run-AllBefore nearest [] = tt
nearest_run-AllBefore nearest (job ∷ jobs) =
    elim_holds (λ o. AllBefore o (job ∷ jobs)) (has_valid_persisted_schedule job)
      (λ _. (
        (λ _.
            nearest_run-keeps (earlier nearest job.next_run_at) job.next_run_at jobs
              (earlier-Before nearest job.next_run_at)),
        nearest_run-AllBefore (earlier nearest job.next_run_at) jobs,
      ))
      (λ invalid.
        ((λ valid. absurd (ground (arith, invalid, valid))), nearest_run-AllBefore nearest jobs))

-- A timer that is set at a time fires by the time that a job is due, or at once where it is overdue.
abbrev pub FiresBy : ℕ → ℕ → Option ℕ → Type 0
FiresBy now delay none = Unit
FiresBy now delay (some due) = now + delay ≤ max now due

abbrev pub IsTimely : ℕ → ℕ → List Job → Option Timer → Type 0
IsTimely max_timer_delay now enabled none =
    All (λ (job : Job). has_valid_persisted_schedule job ≡ false) enabled
IsTimely max_timer_delay now enabled (some timer) =
    (timer.delay ≤ max_timer_delay)
    × All
        (λ (job : Job).
          has_valid_persisted_schedule job ≡ true → FiresBy now timer.delay job.next_run_at)
        enabled

none_valid :
    (jobs : List Job)
    → AllBefore none jobs
    → All (λ (job : Job). has_valid_persisted_schedule job ≡ false) jobs
unfolding has_valid_persisted_schedule
none_valid [] h = tt
none_valid (job ∷ jobs) (h, hs) = (unset job h, none_valid jobs hs)
  where
    unset :
        (j : Job)
        → (has_valid_persisted_schedule j ≡ true → j.next_run_at ≡ none)
        → has_valid_persisted_schedule j ≡ false
    unset j h = elim (Bool-cases (has_valid_persisted_schedule j)) [
      | inl valid ↦ absurd (ground (arith, valid, ap has_next_run (h valid)))
      | inr invalid ↦ invalid
    ]

fires :
    (max_timer_delay now nearest : ℕ) (due : Option ℕ)
    → IsNotAfter nearest due
    → FiresBy now (min max_timer_delay (nearest - now)) due
fires max_timer_delay now nearest none h = tt
fires max_timer_delay now nearest (some due) h = omega (arith, h)

All-fire :
    (max_timer_delay now nearest : ℕ) (jobs : List Job)
    → AllBefore (some nearest) jobs
    → All
        (λ (job : Job).
          has_valid_persisted_schedule job ≡ true
          → FiresBy now (min max_timer_delay (nearest - now)) job.next_run_at)
        jobs
All-fire max_timer_delay now nearest [] h = tt
All-fire max_timer_delay now nearest (job ∷ jobs) (h, hs) = (
  (λ valid. fires max_timer_delay now nearest job.next_run_at (h valid)),
  All-fire max_timer_delay now nearest jobs hs,
)

module _ {R : Type 0} (repository : Repository R) (max_timer_delay : ℕ) where
  nearest-IsTimely :
      (now : ℕ) (nearest : Option ℕ) (enabled : List Job) (s : Scheduler R)
      → s.timer ≡ none
      → AllBefore nearest enabled
      → let o = arm_nearest repository max_timer_delay (some now) nearest s in
        (o.thrown ≡ false) × IsTimely max_timer_delay now enabled o.state.timer
  nearest-IsTimely now none enabled s unset h =
      (refl, subst (IsTimely max_timer_delay now enabled) (sym unset) (none_valid enabled h))
  nearest-IsTimely now (some nearest) enabled s unset h =
      (refl, (omega arith, All-fire max_timer_delay now nearest enabled h))

  listed-IsTimely :
      (now : ℕ) (listed : Option (List Job)) (enabled : List Job) (s : Scheduler R)
      → s.timer ≡ none
      → listed ≡ some enabled
      → let o = arm_listed repository max_timer_delay (some now) listed s in
        (o.thrown ≡ false) × IsTimely max_timer_delay now enabled o.state.timer
  listed-IsTimely now none enabled s unset e = absurd (none-ne-some enabled e)
  listed-IsTimely now (some listed) enabled s unset e =
      subst
        (λ (jobs : List Job).
          let o = arm_nearest repository max_timer_delay (some now) (nearest_run none listed) s in
          (o.thrown ≡ false) × IsTimely max_timer_delay now jobs o.state.timer)
        (ap (λ o. get_or o listed) e)
        (nearest-IsTimely now (nearest_run none listed) listed s unset
          (nearest_run-AllBefore none listed))

  -- Arming at a time, where the repository lists the enabled jobs, throws nothing. It leaves no timer
  -- only where no enabled job has a valid persisted schedule; otherwise the timer's delay is at most
  -- the maximum, and it fires, for each enabled job with a valid schedule, by the time that the job is
  -- due, or at once where it is overdue.
  pub arm-IsTimely :
      (now : ℕ) (enabled : List Job) (s : Scheduler R)
      → repository.list_enabled s.store ≡ some enabled
      → let o = arm repository max_timer_delay (some now) s in
        (o.thrown ≡ false) × IsTimely max_timer_delay now enabled o.state.timer
  unfolding arm
  arm-IsTimely now enabled s e =
      listed-IsTimely now (repository.list_enabled s.store) enabled (cancel_timer s) refl e
