-- ===== src/Client/Conversations.antt =====
-- src/web/src/api/state.ts, the actions on conversations: snapshots, events and what removes them.
use chatwca.Prelude.{
  Bool, List, Option, [], false, if◌then◌else◌, keep, nat, none, not, some, true, ◌&&◌, ◌++◌, ◌∷◌,
}
use chatwca.Prelude.Text.{Text, text_eq}
use chatwca.Prelude.ObjectMap.{lookup, put, without, keep_entries}
use chatwca.Revisions.{
  apply, ignore, resync, SnapshotDecision, replace, keep_current, decide_event_revision,
  decide_snapshot_revision,
}
use chatwca.Protocol.Conversations.{ConversationState, ConversationSummary}
use chatwca.Protocol.Events.{ConversationEvent}
use chatwca.Client.Projection.{ConversationProjection, apply_to_projection}
use chatwca.Client.State.{ChatClientState, has_id, drop_id, is_id}

unfoldable pub replace_conversation : ChatClientState → ConversationProjection → ChatClientState
unfolding put text_eq
replace_conversation state projection =
    let id = projection.conversation.id in
    record state {
      conversations = put id projection state.conversations;
      resync_conversation_ids = drop_id id state.resync_conversation_ids;
    }

unfoldable pub request_resync : ChatClientState → Text → ChatClientState
unfolding text_eq
request_resync state id =
    if has_id id state.resync_conversation_ids
    then state
    else record state { resync_conversation_ids = state.resync_conversation_ids ++ (id ∷ []) }

abbrev pub is_kept : SnapshotDecision → Bool
is_kept keep_current = true
is_kept replace = false

-- The projection of a snapshot, and whether it is ignored, given the one that is held.
abbrev pub is_same_workspace : ConversationProjection → ConversationState → Bool
is_same_workspace current conversation =
    text_eq current.conversation.workspace_id conversation.workspace_id

abbrev pub fresh_projection : ConversationState → ConversationProjection
fresh_projection conversation = record {
  conversation = conversation;
  notices = [];
  network_blocked = [];
}

abbrev pub snapshot_over :
    ChatClientState → ConversationState → Option ConversationProjection → ChatClientState
snapshot_over state conversation none = replace_conversation state (fresh_projection conversation)
snapshot_over state conversation (some current) =
    if is_same_workspace current conversation
      && is_kept (
          decide_snapshot_revision (some (nat current.conversation.revision))
            (nat conversation.revision))
    then state
    else if is_same_workspace current conversation
    then replace_conversation state (record current { conversation = conversation })
    else replace_conversation state (fresh_projection conversation)

unfoldable pub reduce_snapshot : ChatClientState → ConversationState → ChatClientState
unfolding lookup text_eq
reduce_snapshot state conversation =
    snapshot_over state conversation (lookup conversation.id state.conversations)

abbrev pub event_over :
    ChatClientState → ConversationEvent → Option ConversationProjection → ChatClientState
event_over state event none = request_resync state event.conversation_id
event_over state event (some current) =
    if not (text_eq current.conversation.workspace_id event.workspace_id)
    then request_resync state event.conversation_id
    else elim (decide_event_revision (nat current.conversation.revision) (nat event.revision)) [
      | ignore ↦ state
      | resync ↦ request_resync state event.conversation_id
      | apply ↦ replace_conversation state (apply_to_projection current event)
    ]

unfoldable pub reduce_event : ChatClientState → ConversationEvent → ChatClientState
unfolding lookup text_eq
reduce_event state event = event_over state event (lookup event.conversation_id state.conversations)

abbrev pub is_empty_list {ℓ} : {A : Type ℓ} → List A → Bool
is_empty_list [] = true
is_empty_list (x ∷ xs) = false

unfoldable pub dismiss_blocked : ChatClientState → Text → ChatClientState
unfolding lookup replace_conversation
dismiss_blocked state id = elim (lookup id state.conversations) [
  | none ↦ state
  | some current ↦
      if is_empty_list current.network_blocked
      then state
      else replace_conversation state (record current { network_blocked = [] })
]

unfoldable pub close_conversation : ChatClientState → Text → ChatClientState
unfolding lookup keep_entries text_eq
close_conversation state id = elim (lookup id state.conversations) [
  | none ↦ state
  | some current ↦ record state {
    conversations = without id state.conversations;
    resync_conversation_ids = drop_id id state.resync_conversation_ids;
  }
]

unfoldable pub delete_conversation : ChatClientState → Text → ChatClientState
unfolding keep_entries text_eq
delete_conversation state id = record state {
  conversations = without id state.conversations;
  drafts = without id state.drafts;
  history = keep (λ (item : ConversationSummary). not (text_eq item.id id)) state.history;
  selected_conversation_id =
      if is_id id state.selected_conversation_id then none else state.selected_conversation_id;
  resync_conversation_ids = drop_id id state.resync_conversation_ids;
}
