-- ===== src/Revisions.antt =====
-- src/shared/revisions.ts: how a client decides on an incremental event and on a snapshot from the
-- revision that it carries, and how the server counts revisions.
pub mod Laws
mod Tests
use chatwca.Prelude.{
  Bool, Number, Option, Result, err, false, if◌then◌else◌, is_safe, leb, ltb, max_safe, nat, none,
  not, ok, other, some, true, ◌+◌, ◌==◌, ◌||◌,
}

pub data EventDecision : Type 0 where
  apply ignore resync : EventDecision

pub data SnapshotDecision : Type 0 where
  replace keep_current : SnapshotDecision

unfoldable pub is_revision : Number → Bool
is_revision (nat n) = is_safe n
is_revision other = false

-- The comparisons of `decideEventRevision`, made of two revisions.
contiguous : Number → Number → EventDecision
contiguous (nat current) (nat incoming) =
    if leb incoming current then ignore else if incoming == current + 1 then apply else resync
contiguous (nat _) other = resync
contiguous other _ = resync

unfoldable pub decide_event_revision : Number → Number → EventDecision
unfolding is_revision contiguous
decide_event_revision current incoming =
    if not (is_revision current) || not (is_revision incoming)
    then resync
    else contiguous current incoming

-- `incomingRevision < currentRevision`.
older : Number → Number → Bool
older (nat incoming) (nat current) = ltb incoming current
older (nat _) other = false
older other _ = false

unfoldable pub decide_snapshot_revision : Option Number → Number → SnapshotDecision
unfolding is_revision older
decide_snapshot_revision none incoming =
    if not (is_revision incoming) then keep_current else replace
decide_snapshot_revision (some current) incoming =
    if not (is_revision incoming)
    then keep_current
    else if not (is_revision current) || older incoming current
    then keep_current
    else replace

pub data RangeError : Type 0 where
  unsafe_revision : RangeError

at_limit : Number → Bool
at_limit (nat n) = leb max_safe n
at_limit other = true

successor : Number → Number
successor (nat n) = nat (n + 1)
successor other = other

unfoldable pub next_revision : Number → Result RangeError Number
unfolding is_revision at_limit successor
next_revision current =
    if not (is_revision current) || at_limit current
    then err unsafe_revision
    else ok (successor current)
