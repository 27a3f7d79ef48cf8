-- ===== src/Jobs/Schedule/Occurrences.antt =====
-- The next run of an interval schedule of src/server/job-schedule.ts.
use native.Mathlib.Nat.{lt-div-mul-add, div-lt_iff_lt-mul, mul-le-mul_right, add-mul, mul-le-mul}
use chatwca.Prelude.{
  Bool-cases, Result, arith, err, if◌then◌else◌, inl, inr, ltb, max, max_safe, nat, ok, refl, subst,
  sym, ℕ, ◌*◌, ◌+◌, ◌-◌, ◌/◌, ◌<◌, ◌≡◌, ◌≤◌, ◌⊎◌,
}
use chatwca.Jobs.Schedule.{
  Calendar, ScheduleError, interval_from, minute_ms, occurrence_after, first_occurrence_after,
  advance_occurrence, require_timestamp, job_invalid,
}

-- The first instant after another that is a whole number of intervals from the anchor.
pub record IsFirst (duration anchor after at : ℕ) : Type 0 where
  pub later : after < at
  pub aligned : (k : ℕ) × (at ≡ anchor + k * duration)
  pub first : (j : ℕ) → after < anchor + j * duration → at ≤ anchor + j * duration

abbrev pub next_instant : ℕ → ℕ → ℕ → ℕ
next_instant duration anchor after =
    if ltb after anchor then anchor else anchor + ((after - anchor) / duration + 1) * duration

steps_first :
    (duration elapsed j : ℕ)
    → 0 < duration
    → elapsed < j * duration
    → (elapsed / duration + 1) * duration ≤ j * duration
steps_first duration elapsed j positive h =
    mul-le-mul_right {m = elapsed / duration + 1} duration
      (omega (arith, (div-lt_iff_lt-mul {k = duration} {x = elapsed} {y = j} positive).1 h))

steps_later : (duration elapsed : ℕ) → 0 < duration → elapsed < (elapsed / duration + 1) * duration
steps_later duration elapsed positive = omega (
  arith,
  add-mul (elapsed / duration) 1 duration,
  lt-div-mul-add {a = elapsed} {b = duration} positive,
)

next_instant-IsFirst :
    (duration anchor after : ℕ)
    → 0 < duration
    → IsFirst duration anchor after (next_instant duration anchor after)
next_instant-IsFirst duration anchor after positive = elim (Bool-cases (ltb after anchor)) [
  | inl before ↦
      subst (IsFirst duration anchor after) {x = anchor} (ground (arith, before)) (record {
        later = ground (arith, before);
        aligned = (0, omega arith);
        first = λ j h. omega arith;
      })
  | inr started ↦
      let steps = (after - anchor) / duration + 1 in
      let past = steps_later duration (after - anchor) positive in
      subst (IsFirst duration anchor after) {x = anchor + steps * duration}
        (ground (arith, started))
        (record {
          later = ground (arith, past, started);
          aligned = (steps, refl);
          first = λ j h.
              omega
                (arith, steps_first duration (after - anchor) j positive (ground (arith, started)));
        })
]

IsFirst-unique :
    (duration anchor after r s : ℕ)
    → IsFirst duration anchor after r
    → IsFirst duration anchor after s
    → r ≡ s
IsFirst-unique duration anchor after r s u v =
    let (j, e) = u.aligned in
    let (k, e') = v.aligned in
    omega (
      arith,
      u.first k (subst (λ x. after < x) e' v.later),
      v.first j (subst (λ x. after < x) e u.later),
    )

-- The two outcomes of the next run: the first aligned instant, or an error where that instant is
-- no safe integer.
abbrev pub IsNext : ℕ → ℕ → ℕ → Result ScheduleError ℕ → Type 0
IsNext duration anchor after (ok at) = IsFirst duration anchor after at × (at ≤ max_safe)
IsNext duration anchor after (err e) = (at : ℕ) → IsFirst duration anchor after at → max_safe < at

occurrence_after-cases :
    (duration anchor after : ℕ)
    → 0 < duration
    → duration ≤ max_safe
    → anchor ≤ max_safe
    → after ≤ max_safe
    → ((occurrence_after duration anchor after ≡ ok (next_instant duration anchor after))
        × (next_instant duration anchor after ≤ max_safe))
      ⊎ ((occurrence_after duration anchor after ≡ err job_invalid)
          × (max_safe < next_instant duration anchor after))
unfolding occurrence_after
occurrence_after-cases duration anchor after p d a t =
    let periods = (after - anchor) / duration + 1 in
    ground (arith, mul-le-mul {n₁ = periods} {m₁ = periods} {n₂ = 1} {m₂ = duration})

occurrence_after-IsNext :
    (duration anchor after : ℕ)
    → 0 < duration
    → duration ≤ max_safe
    → anchor ≤ max_safe
    → after ≤ max_safe
    → IsNext duration anchor after (occurrence_after duration anchor after)
occurrence_after-IsNext duration anchor after p d a t =
    let next = next_instant-IsFirst duration anchor after p in
    elim (occurrence_after-cases duration anchor after p d a t) [
      | inl (found, bounded) ↦ subst (IsNext duration anchor after) (sym found) (next, bounded)
      | inr (refused, beyond) ↦ subst (IsNext duration anchor after) (sym refused) (λ at h.
          subst (λ x. max_safe < x) (IsFirst-unique duration anchor after _ at next h) beyond)
    ]

module _ (calendar : Calendar) where
  interval_occurrence :
      (minutes anchor after : ℕ)
      → 1 ≤ minutes
      → minutes ≤ 525_600
      → anchor ≤ max_safe
      → after ≤ max_safe
      → first_occurrence_after calendar (interval_from (nat minutes) (nat anchor)) (nat after)
        ≡ occurrence_after (minutes * minute_ms) anchor after
  unfolding first_occurrence_after
  interval_occurrence minutes anchor after p d a t = ground arith

  -- For an interval schedule of 1 to 525600 minutes with a safe anchor, the first occurrence after a
  -- safe instant is the first instant after it that is a whole number of intervals from the anchor;
  -- there is an error only where that instant is no safe integer.
  pub first_occurrence_after-IsNext :
      (minutes anchor after : ℕ)
      → 1 ≤ minutes
      → minutes ≤ 525_600
      → anchor ≤ max_safe
      → after ≤ max_safe
      → IsNext
          (minutes * minute_ms)
          anchor
          after
          (first_occurrence_after calendar (interval_from (nat minutes) (nat anchor)) (nat after))
  first_occurrence_after-IsNext minutes anchor after p d a t =
      subst (IsNext (minutes * minute_ms) anchor after)
        (sym (interval_occurrence minutes anchor after p d a t))
        (occurrence_after-IsNext (minutes * minute_ms) anchor after (omega arith) (omega arith) a t)

  -- Advancing an interval schedule of 1 to 525600 minutes with a safe anchor, from a safe persisted
  -- occurrence at a safe time, gives the first instant after both that is a whole number of intervals
  -- from the anchor, or an error where that instant is no safe integer.
  pub advance_occurrence-IsNext :
      (minutes anchor persisted now : ℕ)
      → 1 ≤ minutes
      → minutes ≤ 525_600
      → anchor ≤ max_safe
      → persisted ≤ max_safe
      → now ≤ max_safe
      → IsNext (minutes * minute_ms) anchor (max persisted now) (
          advance_occurrence calendar
            (interval_from (nat minutes) (nat anchor))
            (nat persisted)
            (nat now))
  unfolding advance_occurrence require_timestamp
  advance_occurrence-IsNext minutes anchor persisted now p d a t u =
      subst (IsNext (minutes * minute_ms) anchor (max persisted now)) (ground (arith, t, u))
        (first_occurrence_after-IsNext minutes anchor (max persisted now) p d a (omega arith))
