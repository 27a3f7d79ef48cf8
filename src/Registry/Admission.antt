-- ===== src/Registry/Admission.antt =====
-- src/server/conversation-registry.ts, `#reserveCapacity`: when capacity is refused, and what is evicted.
use chatwca.Prelude.{
  All, Bool, Option, arith, false, if_holds, leb, leb→le, length, none, refl, some, ℕ, ◌+◌, ◌<◌,
  ◌≡◌, ◌≤◌,
}
use chatwca.Prelude.Text.{Text}
use chatwca.Registry.Records.{ConversationRecord, is_evictable}
use chatwca.Registry.Capacity.{
  Registry, Turn, change_record, evict, evicting, grant, granted, live_runtime_limit, reserve_turn,
  start_close,
}
use chatwca.Registry.Selection.{IsChoice, IsStrictOrder, least_recently_used_idle-IsChoice}

-- What a turn says of the state that it is taken in.
abbrev pub IsDecision : ℕ → (Text → Text → Bool) → Option ℕ → Registry → Turn → Type 0
IsDecision max_live precedes protected s (granted s') =
    (length s.records + s.capacity_reservations < max_live) × (s' ≡ grant s)
IsDecision max_live precedes protected s (evicting r s') =
    (max_live ≤ length s.records + s.capacity_reservations)
    × ((c : ConversationRecord) × (c.reference ≡ r)
        × (s' ≡ change_record start_close r s)
        × IsChoice precedes protected s.records (some c))
IsDecision max_live precedes protected s live_runtime_limit =
    (max_live ≤ length s.records + s.capacity_reservations)
    × All (λ y. is_evictable protected y ≡ false) s.records

evict-IsDecision :
    (max_live : ℕ) (precedes : Text → Text → Bool) (protected : Option ℕ) (s : Registry)
    (o : Option ConversationRecord)
    → max_live ≤ length s.records + s.capacity_reservations
    → IsChoice precedes protected s.records o
    → IsDecision max_live precedes protected s (evict o s)
evict-IsDecision max_live precedes protected s none full choice = (full, choice)
evict-IsDecision max_live precedes protected s (some c) full choice =
    (full, (c, refl, refl, choice))

-- Where localeCompare is a strict order: a turn for capacity gives a slot only where the live
-- conversations and the reservations are below the limit, and only counts it; it starts the eviction
-- of a record only at the limit, of one that may be evicted and than which none of these is older;
-- and it refuses only at the limit where no record may be evicted.
pub reserve_turn-IsDecision :
    (max_live : ℕ) (precedes : Text → Text → Bool) (protected : Option ℕ) (s : Registry)
    → IsStrictOrder precedes
    → IsDecision max_live precedes protected s (reserve_turn precedes max_live protected s)
unfolding reserve_turn
reserve_turn-IsDecision max_live precedes protected s order =
    let used = length s.records + s.capacity_reservations in
    if_holds (IsDecision max_live precedes protected s) (leb max_live used)
      (λ full.
        evict-IsDecision max_live precedes protected s _ (leb→le max_live used full)
          (least_recently_used_idle-IsChoice precedes order protected s.records))
      (λ free. (below max_live used free, refl))
  where
    below : (m n : ℕ) → leb m n ≡ false → n < m
    below m n h = ground (arith, h)
