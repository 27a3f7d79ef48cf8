-- ===== src/Jobs/Scheduler.antt =====
-- src/server/job-scheduler.ts: the owner of the timer for recurring jobs and of their claims. The
-- repository is a parameter: `none` is an error that it throws.
pub mod Claims
pub mod Ownership
pub mod Owned
pub mod Shutdown
pub mod Wakes
mod Tests
use chatwca.Prelude.{
  Bool, List, Number, Option, [], false, if◌then◌else◌, is_safe, leb, ltb, nat, none, not, other,
  some, suc, true, ℕ, ◌&&◌, ◌+◌, ◌==◌, ◌||◌, ◌∷◌,
}
use chatwca.Prelude.Text.{Text}

-- Of a job's summary what the scheduler reads; `invalid` says that its configurationIssue is
-- JOB_INVALID.
pub record Job : Type 0 where
  pub id : Text
  pub enabled : Bool
  pub next_run_at : Option ℕ
  pub invalid : Bool

-- A claim by the repository: a run, nothing to run, JOB_INVALID, or another error.
pub data Claim : Type 0 where
  claimed : Text → Claim
  nothing_due claim_invalid claim_failed : Claim

pub record Repository (R : Type 0) : Type 0 where
  pub mark_all_interrupted : ℕ → R → Option R
  pub list_enabled : R → Option (List Job)
  pub list_due : ℕ → R → Option (List Job)
  pub claim_startup_catch_up : Text → ℕ → R → R × Claim
  pub claim_due : Text → ℕ → R → R × Claim
  pub claim_manual : Text → ℕ → R → R × Claim

pub record Timer : Type 0 where
  pub generation : ℕ
  pub delay : ℕ

-- `dispatched` are the runs given to the runner, `accepted` those that setImmediate will give to it,
-- and `internal_errors` counts the calls of #onInternalError.
pub record Scheduler (R : Type 0) : Type 0 where
  pub running : Bool
  pub closed : Bool
  pub initialized : Bool
  pub generation : ℕ
  pub timer : Option Timer
  pub store : R
  pub dispatched : List Text
  pub accepted : List Text
  pub internal_errors : ℕ

unfoldable pub new_scheduler : {R : Type 0} → R → Scheduler R
new_scheduler store = record {
  running = false;
  closed = false;
  initialized = false;
  generation = 0;
  timer = none;
  store = store;
  dispatched = [];
  accepted = [];
  internal_errors = 0;
}

abbrev pub has_next_run : Option ℕ → Bool
has_next_run none = false
has_next_run (some at) = true

unfoldable pub has_valid_persisted_schedule : Job → Bool
has_valid_persisted_schedule job = job.enabled && has_next_run job.next_run_at && not job.invalid

abbrev pub is_past : ℕ → Option ℕ → Bool
is_past now none = false
is_past now (some at) = leb at now

abbrev pub runs_by : ℕ → Job → Bool
runs_by now job = has_valid_persisted_schedule job && is_past now job.next_run_at

abbrev pub earlier : Option ℕ → Option ℕ → Option ℕ
earlier none at = at
earlier (some nearest) none = some nearest
earlier (some nearest) (some at) = if ltb at nearest then some at else some nearest

-- The loop of `#arm`.
unfoldable pub nearest_run : Option ℕ → List Job → Option ℕ
unfolding has_valid_persisted_schedule
nearest_run nearest [] = nearest
nearest_run nearest (job ∷ jobs) = elim (has_valid_persisted_schedule job) [
  | true ↦ nearest_run (earlier nearest job.next_run_at) jobs
  | false ↦ nearest_run nearest jobs
]

-- `safeNow` of what the clock gives.
unfoldable pub safe_now : Number → Option ℕ
safe_now (nat n) = if is_safe n then some n else none
safe_now other = none

-- A state, and whether an error was thrown on the way to it.
pub record Outcome (R : Type 0) : Type 0 where
  pub thrown : Bool
  pub state : Scheduler R

abbrev pub cancel_timer : {R : Type 0} → Scheduler R → Scheduler R
cancel_timer s = record s { timer = none }

abbrev pub add_error : {R : Type 0} → Scheduler R → Scheduler R
add_error s = record s { internal_errors = s.internal_errors + 1 }

abbrev pub report : {R : Type 0} → Outcome R → Scheduler R
report outcome = if outcome.thrown then add_error outcome.state else outcome.state

-- `beginShutdown` and `stop`.
unfoldable pub stop : {R : Type 0} → Scheduler R → Scheduler R
stop s =
    if s.running
    then record s { running = false; generation = suc s.generation; timer = none }
    else s

unfoldable pub begin_shutdown : {R : Type 0} → Scheduler R → Scheduler R
unfolding stop
begin_shutdown s = if s.closed then s else record (stop s) { closed = true }

-- The part of `start` before its promise: with a new generation, or nothing.
unfoldable pub start : {R : Type 0} → Scheduler R → Scheduler R
start s =
    if s.closed || s.running then s else record s { running = true; generation = suc s.generation }

abbrev pub is_current : {R : Type 0} → ℕ → Scheduler R → Bool
is_current generation s = s.running && not s.closed && generation == s.generation
