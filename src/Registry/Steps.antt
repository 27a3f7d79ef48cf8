-- ===== src/Registry/Steps.antt =====
-- src/server/conversation-registry.ts: what happens between two awaits, in any order, and the states
-- that it leads to.
use chatwca.Prelude.{Bool, Option, false, get_elem?, some, true, ℕ, ◌≡◌}
use chatwca.Prelude.Text.{Text}
use chatwca.Protocol.Conversations.{LiveConversationStatus}
use chatwca.Registry.Records.{ConversationRecord}
use chatwca.Registry.Capacity.{
  Registry, Reservation, begin_shutdown, change_record, create_registry, decrement_fork, evicting,
  finish_close, granted, increment_fork, register, release_capacity, replace_identity, reserve_turn,
  set_status, start_close, touch, Turn, live_runtime_limit,
}

-- A runtime is registered by the caller that took a reservation for it and has not released it, once
-- and before the shutdown. A record is replaced while it is among the records.
pub data Step (precedes : Text → Text → Bool) (max_live : ℕ) (s : Registry)
    : Registry → Type 0 where
  shut_down : Step precedes max_live s (begin_shutdown s)
  reserved :
      {s' : Registry} (protected : Option ℕ)
      → reserve_turn precedes max_live protected s ≡ granted s'
      → Step precedes max_live s s'
  eviction_started :
      {s' : Registry} (protected : Option ℕ) (r : ℕ)
      → reserve_turn precedes max_live protected s ≡ evicting r s'
      → Step precedes max_live s s'
  close_started : (r : ℕ) → Step precedes max_live s (change_record start_close r s)
  touched : (now r : ℕ) → Step precedes max_live s (change_record (touch now) r s)
  status_changed :
      (status : LiveConversationStatus) (is_streaming : Bool) (r : ℕ)
      → Step precedes max_live s (change_record (set_status status is_streaming) r s)
  fork_started : (r : ℕ) → Step precedes max_live s (change_record increment_fork r s)
  fork_ended : (r : ℕ) → Step precedes max_live s (change_record decrement_fork r s)
  closed : (r : ℕ) → Step precedes max_live s (finish_close r s)
  released : (i : ℕ) → Step precedes max_live s (release_capacity i s)
  registered :
      (i : ℕ) (item : Reservation) (fresh : ConversationRecord)
      → s.shutting_down ≡ false
      → get_elem? s.reservations i ≡ some item
      → item.held ≡ true
      → item.registered ≡ false
      → Step precedes max_live s (register i item fresh s)
  replaced :
      (id session_file : Text) (now k : ℕ) (item : ConversationRecord)
      → get_elem? s.records k ≡ some item
      → Step precedes max_live s (replace_identity id session_file now item s)

pub data Reachable (precedes : Text → Text → Bool) (max_live : ℕ) : Registry → Type 0 where
  start : Reachable precedes max_live create_registry
  next :
      {s s' : Registry}
      → Reachable precedes max_live s
      → Step precedes max_live s s'
      → Reachable precedes max_live s'

-- What holds of the state after a turn.
abbrev pub TurnHolds : (Registry → Type 0) → Turn → Type 0
TurnHolds P (granted s) = P s
TurnHolds P (evicting r s) = P s
TurnHolds P live_runtime_limit = Unit
