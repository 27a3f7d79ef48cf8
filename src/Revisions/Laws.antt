-- ===== src/Revisions/Laws.antt =====
-- What src/shared/revisions.ts promises: the server's count and the client's decision agree, and a
-- projection never goes back.
use chatwca.Prelude.{
  Number, arith, max_safe, nat, none, ok, other, some, true, ℕ, ◌+◌, ◌<◌, ◌↔◌, ◌≡◌, ◌≤◌,
}
use chatwca.Revisions.{
  apply, ignore, resync, replace, is_revision, decide_event_revision, decide_snapshot_revision,
  next_revision,
}

-- An event is applied exactly when its revision is the one that `nextRevision` gives for the
-- current revision.
pub apply_iff_next :
    (current incoming : Number)
    → (decide_event_revision current incoming ≡ apply) ↔ (next_revision current ≡ ok incoming)
unfolding decide_event_revision next_revision
apply_iff_next (nat c) (nat n) = ground arith
apply_iff_next (nat c) other = ground arith
apply_iff_next other n = ground arith

-- For two revisions, an event is ignored exactly when it is at most the current one, applied exactly
-- when it is the current one plus one, and asks for a snapshot exactly when it is greater than that.
pub decide_event_revision_cases :
    (c n : ℕ)
    → is_revision (nat c) ≡ true
    → is_revision (nat n) ≡ true
    → ((decide_event_revision (nat c) (nat n) ≡ ignore) ↔ (n ≤ c))
      × ((decide_event_revision (nat c) (nat n) ≡ apply) ↔ (n ≡ c + 1))
      × ((decide_event_revision (nat c) (nat n) ≡ resync) ↔ (c + 1 < n))
unfolding decide_event_revision
decide_event_revision_cases c n h k = ground arith

-- A snapshot replaces a projection at a current revision exactly when its own is a natural number
-- that is at least the current one and safe; with no projection, exactly when it is a revision.
pub replace_iff :
    (current : ℕ) (incoming : Number)
    → ((decide_snapshot_revision (some (nat current)) incoming ≡ replace)
        ↔ ((n : ℕ) × (incoming ≡ nat n) × (current ≤ n) × (n ≤ max_safe)))
      × ((decide_snapshot_revision none incoming ≡ replace) ↔ (is_revision incoming ≡ true))
unfolding decide_snapshot_revision
replace_iff c (nat n) = ground arith
replace_iff c other = ground arith

pub apply-next :
    (current incoming : ℕ)
    → decide_event_revision (nat current) (nat incoming) ≡ apply
    → incoming ≡ current + 1
unfolding decide_event_revision
apply-next current incoming h = ground (arith, h)

pub replace-not_older :
    (current incoming : ℕ)
    → decide_snapshot_revision (some (nat current)) (nat incoming) ≡ replace
    → current ≤ incoming
unfolding decide_snapshot_revision
replace-not_older current incoming h = ground (arith, h)
