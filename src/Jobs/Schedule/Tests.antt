-- ===== src/Jobs/Schedule/Tests.antt =====
-- Runs of src/server/job-schedule.ts, on a calendar of one zone with days of 24 hours.
use chatwca.Prelude.{arith, err, max, nat, ok, refl, some, suc, ℕ, ◌*◌, ◌+◌, ◌/◌, ◌≡◌}
use chatwca.Prelude.Text.{text_eq, codes}
use chatwca.Jobs.Schedule.{
  Calendar, interval, minute_ms, normalize_input, daily_at, interval_from, first_occurrence_after,
  advance_occurrence, job_invalid,
}
use chatwca.Jobs.Schedule.Occurrences.{
  IsNext, first_occurrence_after-IsNext, advance_occurrence-IsNext,
}

abbrev plain : Calendar
plain = record {
  Date = ℕ;
  supports = λ zone. text_eq zone (codes "UTC");
  local_date = λ zone now. some (now / 86_400_000);
  next_day = suc;
  instant_of =
      λ zone day hour minute. some (nat (day * 86_400_000 + (hour * 60 + minute) * minute_ms));
}

tomorrow :
    first_occurrence_after plain (daily_at (codes "09:30") (codes "UTC")) (nat 34_200_000)
    ≡ ok 120_600_000
unfolding first_occurrence_after text_eq
tomorrow = refl

too_short : normalize_input plain (interval (nat 0)) ≡ err job_invalid
unfolding normalize_input
too_short = refl

first_occurrence_after-IsNext_example :
    IsNext
      (15 * minute_ms)
      1_000
      2_000_000
      (first_occurrence_after plain (interval_from (nat 15) (nat 1_000)) (nat 2_000_000))
first_occurrence_after-IsNext_example =
    first_occurrence_after-IsNext plain 15 1_000 2_000_000 (omega arith) (omega arith) (omega arith)
      (omega arith)

advance_occurrence-IsNext_example :
    IsNext
      (15 * minute_ms)
      1_000
      (max 901_000 9_000_000)
      (advance_occurrence plain (interval_from (nat 15) (nat 1_000)) (nat 901_000) (nat 9_000_000))
advance_occurrence-IsNext_example =
    advance_occurrence-IsNext plain 15 1_000 901_000 9_000_000 (omega arith) (omega arith)
      (omega arith) (omega arith) (omega arith)
