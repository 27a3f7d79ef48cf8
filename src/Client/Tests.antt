-- ===== src/Client/Tests.antt =====
-- Runs of src/web/src/api/state.ts on a conversation whose title changes with every event.
use chatwca.Prelude.{
  List, Option, [], false, nat, none, refl, some, suc, true, zero, ℕ, ◌++◌, ◌<◌, ◌∷◌, ◌≡◌, ◌≢◌, ◌≤◌,
  ◌⊎◌,
}
use chatwca.Prelude.Text.{Text, codes}
use chatwca.Prelude.ObjectMap.{lookup}
use chatwca.Prelude.ObjectMap.Laws.{Every}
use chatwca.Protocol.Messages.{NormalizedMessage, assistant_message, text_block}
use chatwca.Protocol.Conversations.{ConversationState, idle, streaming}
use chatwca.Protocol.Events.{
  ConversationEvent, EventPayload, message_started, message_completed, metadata_changed, text_kind,
}
use chatwca.Client.Messages.{Messages, apply_delta}
use chatwca.Client.Projection.{
  ConversationProjection, apply_conversation_event, apply_to_projection,
}
use chatwca.Client.State.{
  ChatClientState, ChatClientAction, create_initial_chat_client_state, has_id, snapshot_received,
  event_received, workspace_selected, history_pending, network_blocked_dismissed,
}
use chatwca.Client.Conversations.{
  reduce_event, request_resync, close_conversation, fresh_projection, reduce_snapshot,
}
use chatwca.Client.Reducer.{reduce_all, reduce_chat_client_state}
use chatwca.Client.Wellformed.{IsWellformed, reduce_all-IsWellformed}
use chatwca.Client.Replays.{Replays, reverse_onto}
use chatwca.Client.Convergence.{reduce_all-Replays}
use chatwca.Client.Progress.{reduce_event-progress}
use chatwca.Client.Snapshots.{reduce_snapshot-forward}
use chatwca.Client.Scope.{IsScoped, scope}
use chatwca.Client.Scoped.{reduce_all-IsScoped}
use chatwca.Client.Entries.{entries}
use chatwca.Client.Transcript.{IsTranscript, reduce_all-IsTranscript}
use chatwca.Client.Streaming.{apply_delta-append}
use chatwca.Revisions.{is_revision, decide_event_revision}

abbrev base : ConversationState
base = record {
  id = codes "c";
  workspace_id = codes "w";
  session_file = codes "c.jsonl";
  title = codes "new";
  cwd = codes "/home";
  status = idle;
  created_at = nat 0;
  last_active_at = nat 0;
  revision = 0;
  durable = false;
  context_usage = none;
  messages = [];
  queue = record { steering = []; follow_up = [] };
  policies = [];
  owner = none;
}

abbrev sent : ℕ → ConversationEvent
sent n = record {
  workspace_id = codes "w";
  conversation_id = codes "c";
  revision = n;
  payload = metadata_changed (codes "title") true streaming;
}

server : ℕ → ConversationState
unfolding apply_conversation_event
server zero = base
server (suc n) = apply_conversation_event (server n) (sent (suc n))

-- A snapshot, an event that was lost before the next one, and a repeated one.
abbrev received : List ChatClientAction
received =
    snapshot_received (server 1)
    ∷ event_received (sent 3)
    ∷ event_received (sent 2)
    ∷ event_received (sent 2)
    ∷ network_blocked_dismissed (codes "c")
    ∷ []

abbrev after : ChatClientState
after = reduce_all create_initial_chat_client_state received

abbrev revision_of : Option ConversationProjection → Option ℕ
revision_of none = none
revision_of (some p) = some p.conversation.revision

last_applied : revision_of (lookup (codes "c") after.conversations) ≡ some 2
unfolding create_initial_chat_client_state reduce_chat_client_state server decide_event_revision
    request_resync apply_to_projection
last_applied = refl

abbrev shown : ConversationProjection
shown = record { conversation = base; notices = []; network_blocked = [] }

-- After the snapshot at revision 0, with the event at revision 2 in the wrong place.
abbrev at_zero : ChatClientState
at_zero = reduce_all create_initial_chat_client_state (
    workspace_selected (some (codes "w"))
    ∷ history_pending (codes "w")
    ∷ snapshot_received base
    ∷ [])

base-shown : lookup (codes "c") at_zero.conversations ≡ some shown
unfolding create_initial_chat_client_state reduce_chat_client_state
base-shown = refl

reduce_all-IsWellformed_example : Every IsWellformed after.conversations
reduce_all-IsWellformed_example = reduce_all-IsWellformed received

abbrev second : ConversationProjection
unfolding server
second = record { conversation = server 2; notices = []; network_blocked = [] }

reduce_all-Replays_example :
    (codes "c" ≡ codes "c") × Replays (reverse_onto received []) second.conversation
unfolding create_initial_chat_client_state reduce_chat_client_state server decide_event_revision
    request_resync apply_to_projection second
reduce_all-Replays_example = reduce_all-Replays received (codes "c") second refl

reduce_event-progress_example :
    let next = reduce_event at_zero (sent 2) in
    (2 ≤ 0 → next ≡ at_zero)
    × (◌≡◌ {A = ℕ} 2 1
        → (lookup (codes "c") next.conversations ≡ some (apply_to_projection shown (sent 2)))
          × (has_id (codes "c") next.resync_conversation_ids ≡ false))
    × (1 < 2
        → (next.conversations ≡ at_zero.conversations)
          × (has_id (codes "c") next.resync_conversation_ids ≡ true))
unfolding is_revision
reduce_event-progress_example =
    reduce_event-progress at_zero (sent 2) shown base-shown refl refl refl refl

second-shown : lookup (codes "c") after.conversations ≡ some second
unfolding create_initial_chat_client_state reduce_chat_client_state server decide_event_revision
    request_resync apply_to_projection second
second-shown = refl

-- The session is opened again at revision 0, and the client still holds revision 2.
reduce_snapshot-forward_example :
    let next = reduce_snapshot after base in
    let closed = close_conversation after (codes "c") in
    ((p : ConversationProjection)
      → lookup (codes "c") next.conversations ≡ some p
      → (p.conversation.workspace_id ≢ codes "w") ⊎ (2 ≤ p.conversation.revision))
    × (codes "w" ≡ codes "w" → 0 < 2 → next ≡ after)
    × (codes "w" ≡ codes "w"
        → is_revision (nat 0) ≡ true
        → 2 ≤ 0
        → lookup (codes "c") next.conversations ≡ some (record second { conversation = base }))
    × (lookup (codes "c") (reduce_snapshot closed base).conversations
        ≡ some (fresh_projection base))
unfolding second server apply_conversation_event
reduce_snapshot-forward_example = reduce_snapshot-forward after base second second-shown

reduce_all-IsScoped_example : IsScoped (scope at_zero)
reduce_all-IsScoped_example = reduce_all-IsScoped (
    workspace_selected (some (codes "w"))
    ∷ history_pending (codes "w")
    ∷ snapshot_received base
    ∷ [])

abbrev reply : Messages
reply =
    assistant_message (record {
      entry_id = codes "m";
      blocks = text_block (codes "a") ∷ [];
      timestamp = none;
      stop_reason = none;
      error = none;
      usage = none;
    })
    ∷ []

abbrev streamed : Text → NormalizedMessage
streamed id = assistant_message (record {
  entry_id = id;
  blocks = [];
  timestamp = none;
  stop_reason = none;
  error = none;
  usage = none;
})

abbrev sent_message : ℕ → EventPayload → ChatClientAction
sent_message n payload = event_received (record {
  workspace_id = codes "w";
  conversation_id = codes "c";
  revision = n;
  payload = payload;
})

-- A message in progress that takes its entry when it is complete, and the entry once more.
abbrev conversed : List ChatClientAction
conversed =
    snapshot_received base
    ∷ sent_message 1 (message_started (streamed (codes "stream:1")))
    ∷ sent_message 2 (message_completed (streamed (codes "m")) none)
    ∷ sent_message 3 (message_started (streamed (codes "m")))
    ∷ []

abbrev entries_of : Option ConversationProjection → List Text
entries_of none = []
entries_of (some p) = entries p.conversation.messages

conversed_once :
    entries_of
      (lookup (codes "c") (reduce_all create_initial_chat_client_state conversed).conversations)
    ≡ codes "m" ∷ []
unfolding create_initial_chat_client_state reduce_chat_client_state decide_event_revision
    apply_to_projection
conversed_once = refl

reduce_all-IsTranscript_example :
    Every IsTranscript (reduce_all create_initial_chat_client_state conversed).conversations
reduce_all-IsTranscript_example = reduce_all-IsTranscript conversed (tt, tt)

apply_delta-append_example :
    apply_delta
      (codes "m")
      0
      text_kind
      (codes "c")
      (apply_delta (codes "m") 0 text_kind (codes "b") reply)
    ≡ apply_delta (codes "m") 0 text_kind (codes "b" ++ codes "c") reply
apply_delta-append_example =
    apply_delta-append (codes "m") 0 text_kind (codes "b") (codes "c") reply
