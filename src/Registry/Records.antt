-- ===== src/Registry/Records.antt =====
-- src/server/conversation-registry.ts: the records of live conversations, and the one to evict.
use chatwca.Prelude.{
  Bool, List, Option, [], false, ltb, none, not, some, true, ℕ, ◌&&◌, ◌==◌, ◌||◌, ◌∷◌,
}
use chatwca.Prelude.Text.{Text}
use chatwca.Protocol.Conversations.{LiveConversationStatus, idle}

-- Of a ConversationRecord what admission and eviction read. `reference` is the object's identity,
-- `closing` whether it is in #pendingCloses, `forks` its count in #forkSourceReservations.
pub record ConversationRecord : Type 0 where
  pub reference : ℕ
  pub id : Text
  pub session_file : Text
  pub status : LiveConversationStatus
  pub session_streaming : Bool
  pub created_at : ℕ
  pub last_active_at : ℕ
  pub closing : Bool
  pub forks : ℕ

abbrev pub Records : Type 0
Records = List ConversationRecord

abbrev pub is_idle : LiveConversationStatus → Bool
is_idle idle = true
is_idle _ = false

abbrev pub is_reference : Option ℕ → ConversationRecord → Bool
is_reference none item = false
is_reference (some r) item = item.reference == r

-- The records that the loop of `#leastRecentlyUsedIdle` does not skip.
unfoldable pub is_evictable : Option ℕ → ConversationRecord → Bool
is_evictable protected item = not (
    is_reference protected item
    || not (is_idle item.status)
    || item.session_streaming
    || item.closing
    || ltb 0 item.forks)

-- `id.localeCompare(other) < 0` is a parameter.
module _ (precedes : Text → Text → Bool) where
  unfoldable pub is_older : ConversationRecord → ConversationRecord → Bool
  is_older item previous =
      ltb item.last_active_at previous.last_active_at
      || (item.last_active_at == previous.last_active_at
          && (ltb item.created_at previous.created_at
              || (item.created_at == previous.created_at && precedes item.id previous.id)))

  abbrev pub is_better : ConversationRecord → Option ConversationRecord → Bool
  is_better item none = true
  is_better item (some candidate) = is_older item candidate

  unfoldable pub select_from :
      Option ℕ → Option ConversationRecord → Records → Option ConversationRecord
  select_from protected candidate [] = candidate
  select_from protected candidate (item ∷ items) =
      elim (is_evictable protected item && is_better item candidate) [
        | true ↦ select_from protected (some item) items
        | false ↦ select_from protected candidate items
      ]

  unfoldable pub least_recently_used_idle : Option ℕ → Records → Option ConversationRecord
  unfolding select_from is_evictable is_older
  least_recently_used_idle protected = select_from protected none
