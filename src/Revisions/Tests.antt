-- ===== src/Revisions/Tests.antt =====
-- Runs of src/shared/revisions.ts and the instances of its laws.
use chatwca.Prelude.{err, max_safe, nat, none, ok, refl, some, true, ℕ, ◌+◌, ◌<◌, ◌↔◌, ◌≡◌, ◌≤◌}
use chatwca.Revisions.{
  apply, ignore, resync, replace, decide_event_revision, next_revision, unsafe_revision,
  decide_snapshot_revision, is_revision,
}
use chatwca.Revisions.Laws.{apply_iff_next, decide_event_revision_cases, replace_iff}

next_at_limit : next_revision (nat max_safe) ≡ err unsafe_revision
unfolding next_revision
next_at_limit = refl

gap : decide_event_revision (nat 4) (nat 6) ≡ resync
unfolding decide_event_revision
gap = refl

apply_iff_next_example :
    (decide_event_revision (nat 4) (nat 5) ≡ apply) ↔ (next_revision (nat 4) ≡ ok (nat 5))
apply_iff_next_example = apply_iff_next (nat 4) (nat 5)

decide_event_revision_cases_example :
    ((decide_event_revision (nat 4) (nat 6) ≡ ignore) ↔ (6 ≤ 4))
    × ((decide_event_revision (nat 4) (nat 6) ≡ apply) ↔ (◌≡◌ {A = ℕ} 6 (4 + 1)))
    × ((decide_event_revision (nat 4) (nat 6) ≡ resync) ↔ (4 + 1 < 6))
unfolding is_revision
decide_event_revision_cases_example = decide_event_revision_cases 4 6 refl refl

replace_iff_example :
    ((decide_snapshot_revision (some (nat 4)) (nat 6) ≡ replace)
      ↔ ((n : ℕ) × (nat 6 ≡ nat n) × (4 ≤ n) × (n ≤ max_safe)))
    × ((decide_snapshot_revision none (nat 6) ≡ replace) ↔ (is_revision (nat 6) ≡ true))
replace_iff_example = replace_iff 4 (nat 6)
