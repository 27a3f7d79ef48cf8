-- ===== src/Jobs/Schedule.antt =====
-- src/server/job-schedule.ts: the schedules of a job and the instant of its next run, in
-- milliseconds. Of src/shared/jobs.ts it uses the limits and `isSafeJobTimestamp`.
pub mod Occurrences
mod Tests
use chatwca.Prelude.{
  Bool, Number, Option, Result, [], err, false, if◌then◌else◌, is_safe, leb, ltb, max, nat, none,
  not, ok, other, some, ℕ, ◌&&◌, ◌*◌, ◌+◌, ◌-◌, ◌/◌, ◌==◌, ◌>>=◌, ◌>>◌, ◌||◌, ◌∷◌,
}
use chatwca.Prelude.Text.{Text, is_digit}

pub data JobScheduleInput : Type 0 where
  interval : Number → JobScheduleInput
  daily : Text → Text → JobScheduleInput

pub data JobSchedule : Type 0 where
  interval_from : Number → Number → JobSchedule
  daily_at : Text → Text → JobSchedule

pub data ScheduleError : Type 0 where
  job_invalid : ScheduleError

-- `isSupportedJobTimeZone` together with Temporal's own test of a zone, and Temporal's calendar: the
-- local date of an instant, the day after, and the instant of a local time (`none` where it throws).
pub record Calendar : Type 1 where
  pub Date : Type 0
  pub supports : Text → Bool
  pub local_date : Text → ℕ → Option Date
  pub next_day : Date → Date
  pub instant_of : Text → Date → ℕ → ℕ → Option Number

abbrev pub minute_ms : ℕ
minute_ms = 60_000

-- `isSafeJobTimestamp`, and what passes `requireTimestamp`.
unfoldable pub require_timestamp : Number → Result ScheduleError ℕ
require_timestamp (nat n) = if is_safe n then ok n else err job_invalid
require_timestamp other = err job_invalid

abbrev pub require_interval : Number → Result ScheduleError ℕ
require_interval (nat n) = if leb 1 n && leb n 525_600 then ok n else err job_invalid
require_interval other = err job_invalid

-- `JOB_DAILY_TIME_PATTERN`: `^(?:[01][0-9]|2[0-3]):[0-5][0-9]$`.
unfoldable pub is_daily_time : Text → Bool
is_daily_time (h ∷ i ∷ c ∷ m ∷ n ∷ []) =
    (((h == b'0' || h == b'1') && is_digit i) || (h == b'2' && leb b'0' i && leb i b'3'))
    && c == b':'
    && leb b'0' m
    && leb m b'5'
    && is_digit n
is_daily_time _ = false

abbrev pub digits_value : ℕ → ℕ → ℕ
digits_value h i = (h - b'0') * 10 + (i - b'0')

unfoldable pub parse_daily_time : Text → Result ScheduleError (ℕ × ℕ)
unfolding is_daily_time
parse_daily_time (h ∷ i ∷ c ∷ m ∷ n ∷ []) =
    if is_daily_time (h ∷ i ∷ c ∷ m ∷ n ∷ [])
    then ok (digits_value h i, digits_value m n)
    else err job_invalid
parse_daily_time _ = err job_invalid

unfoldable pub safe_add : ℕ → ℕ → Result ScheduleError ℕ
safe_add left right = if is_safe (left + right) then ok (left + right) else err job_invalid

-- A safe integer on the way to the result.
abbrev pub safe : ℕ → Result ScheduleError ℕ
safe n = if is_safe n then ok n else err job_invalid

-- `intervalOccurrenceAfter` with the duration of the interval.
unfoldable pub occurrence_after : ℕ → ℕ → ℕ → Result ScheduleError ℕ
unfolding safe_add
occurrence_after duration anchor after =
    if not (is_safe duration) || leb duration 0
    then err job_invalid
    else if ltb after anchor
    then ok anchor
    else do
      elapsed ← safe (after - anchor)
      periods ← safe (elapsed / duration + 1)
      offset ← safe (periods * duration)
      safe_add anchor offset

module _ (calendar : Calendar) where
  unfoldable pub normalize_input : JobScheduleInput → Result ScheduleError JobScheduleInput
  unfolding is_daily_time
  normalize_input (interval minutes) = do n ← require_interval minutes; ok (interval (nat n))
  normalize_input (daily time zone) =
      if is_daily_time time && calendar.supports zone then ok (daily time zone) else err job_invalid

  -- `establishJobSchedule`.
  unfoldable pub establish : JobScheduleInput → Number → Result ScheduleError JobSchedule
  unfolding normalize_input require_timestamp
  establish (interval minutes) anchor = do
    at ← require_timestamp anchor
    n ← require_interval minutes
    ok (interval_from (nat n) (nat at))
  establish (daily time zone) anchor = do
    at ← require_timestamp anchor
    found ← normalize_input (daily time zone)
    ok (daily_at time zone)

  -- The candidate of the local date, or that of the day after.
  abbrev pub after_today : ℕ → ℕ → Text → ℕ → ℕ → calendar.Date → Result ScheduleError ℕ
  after_today after today zone hour minute date =
      if leb today after
      then elim (calendar.instant_of zone (calendar.next_day date) hour minute) [
        | none ↦ err job_invalid
        | some result ↦ require_timestamp result
      ]
      else require_timestamp (nat today)

  abbrev pub from_date : ℕ → Text → ℕ → ℕ → calendar.Date → Result ScheduleError ℕ
  from_date after zone hour minute date = elim (calendar.instant_of zone date hour minute) [
    | none ↦ err job_invalid
    | some other ↦ after_today after 0 zone hour minute date
    | some (nat today) ↦ after_today after today zone hour minute date
  ]

  unfoldable pub daily_occurrence_after : Text → Text → ℕ → Result ScheduleError ℕ
  unfolding parse_daily_time require_timestamp
  daily_occurrence_after time zone after = do
    (hour, minute) ← parse_daily_time time
    elim (calendar.local_date zone after) [
      | none ↦ err job_invalid
      | some date ↦ from_date after zone hour minute date
    ]

  unfoldable pub first_occurrence_after : JobSchedule → Number → Result ScheduleError ℕ
  unfolding daily_occurrence_after normalize_input occurrence_after require_timestamp
  first_occurrence_after (interval_from minutes anchor) after = do
    t ← require_timestamp after
    a ← require_timestamp anchor
    n ← require_interval minutes
    occurrence_after (n * minute_ms) a t
  first_occurrence_after (daily_at time zone) after = do
    t ← require_timestamp after
    found ← normalize_input (daily time zone)
    daily_occurrence_after time zone t

  -- `advanceJobOccurrence`.
  unfoldable pub advance_occurrence : JobSchedule → Number → Number → Result ScheduleError ℕ
  unfolding first_occurrence_after
  advance_occurrence schedule persisted now = do
    p ← require_timestamp persisted
    n ← require_timestamp now
    first_occurrence_after schedule (nat (max p n))
