-- ===== src/Client/Transcript.antt =====
-- src/web/src/api/state.ts: the messages of the conversations that a client holds.
use mathlib.Core.Option.{some-injective}
use chatwca.Prelude.{
  List, Option, Option-cases, [], ap, false, get_elem?, if_holds, inl, inr, none, refl, set_at,
  some, subst, suc, sym, true, zero, ℕ, ◌∙◌, ◌∷◌, ◌≡◌,
}
use chatwca.Prelude.Text.{Text, text_eq}
use chatwca.Prelude.ObjectMap.Laws.{Every}
use chatwca.Protocol.Messages.{
  AssistantMessage, NormalizedMessage, assistant_message, user_message, entry_id,
}
use chatwca.Protocol.Conversations.{ConversationState, ConversationSummary}
use chatwca.Protocol.Events.{
  EventPayload, ConversationEvent, TextKind, message_started, message_completed, message_delta,
  tool_started, tool_updated, tool_completed,
}
use chatwca.Client.Messages.{
  Messages, apply_delta, delta_message, target_of, update_assistant, update_message, start_tool,
  update_tool, complete_tool,
}
use chatwca.Client.Projection.{ConversationProjection, apply_payload, apply_to_projection}
use chatwca.Client.State.{
  ChatClientAction, create_initial_chat_client_state, event_received, history_listed,
  snapshot_received, network_blocked_dismissed,
}
use chatwca.Client.Workspaces.{retitle, summary_of}
use chatwca.Client.Reducer.{reduce_all}
use chatwca.Client.Preserved.{Allows, AllAllow, reduce_all-Every}
use chatwca.Client.Entries.{entries, Distinct, HasDistinctEntries, replace_message-Distinct}

-- An update of an assistant's message in its place keeps the entries.
entries-updated :
    (update : AssistantMessage → AssistantMessage)
    → ((m : AssistantMessage) → (update m).entry_id ≡ m.entry_id)
    → (i : ℕ) (m : AssistantMessage) (messages : Messages)
    → get_elem? messages i ≡ some (assistant_message m)
    → entries (set_at i (assistant_message (update m)) messages) ≡ entries messages
entries-updated update keeps i m [] found = refl
entries-updated update keeps zero m (x ∷ xs) found =
    ap (λ e. e ∷ entries xs)
      (keeps m ∙ ap entry_id (sym (some-injective x (assistant_message m) found)))
entries-updated update keeps (suc i) m (x ∷ xs) found =
    ap (◌∷◌ (entry_id x)) (entries-updated update keeps i m xs found)

entries-update_message :
    (update : AssistantMessage → AssistantMessage)
    → ((m : AssistantMessage) → (update m).entry_id ≡ m.entry_id)
    → (i : ℕ) (held : Option NormalizedMessage) (messages : Messages) → get_elem? messages i ≡ held
    → entries (update_message update i held messages) ≡ entries messages
entries-update_message update keeps i (some (assistant_message m)) messages found =
    entries-updated update keeps i m messages found
entries-update_message update keeps i (some (user_message m)) messages found = refl
entries-update_message update keeps i none messages found = refl

entries-update_assistant :
    (messages : Messages) (entry : Option Text) (update : AssistantMessage → AssistantMessage)
    (tool : Option Text)
    → ((m : AssistantMessage) → (update m).entry_id ≡ m.entry_id)
    → entries (update_assistant messages entry update tool) ≡ entries messages
unfolding update_assistant
entries-update_assistant messages entry update tool keeps =
    elim (Option-cases (target_of messages entry tool)) [
      | inl nowhere ↦
          ap
            (λ at. entries (elim at [
              | none ↦ messages
              | some i ↦ update_message update i (get_elem? messages i) messages
            ]))
            nowhere
      | inr (i, there) ↦
          ap
            (λ at. entries (elim at [
              | none ↦ messages
              | some j ↦ update_message update j (get_elem? messages j) messages
            ]))
            there
          ∙ entries-update_message update keeps i (get_elem? messages i) messages refl
    ]

entry-delta_message :
    (id : Text) (i : ℕ) (kind : TextKind) (delta : Text) (m : NormalizedMessage)
    → entry_id (delta_message id i kind delta m) ≡ entry_id m
entry-delta_message id i kind delta (user_message m) = refl
entry-delta_message id i kind delta (assistant_message m) =
    if_holds (λ x. entry_id x ≡ m.entry_id) (text_eq m.entry_id id) (λ _. refl) (λ _. refl)

entries-apply_delta :
    (id : Text) (i : ℕ) (kind : TextKind) (delta : Text) (messages : Messages)
    → entries (apply_delta id i kind delta messages) ≡ entries messages
unfolding apply_delta
entries-apply_delta id i kind delta [] = refl
entries-apply_delta id i kind delta (m ∷ ms) =
    ap (λ e. e ∷ entries (apply_delta id i kind delta ms)) (entry-delta_message id i kind delta m)
    ∙ ap (◌∷◌ (entry_id m)) (entries-apply_delta id i kind delta ms)

apply_payload-Distinct :
    (c : ConversationState) (payload : EventPayload)
    → HasDistinctEntries c.messages
    → HasDistinctEntries (apply_payload c payload).messages
unfolding apply_payload start_tool update_tool complete_tool
apply_payload-Distinct c (message_started m) d = replace_message-Distinct c.messages m false d
apply_payload-Distinct c (message_completed m usage) d =
    replace_message-Distinct c.messages m true d
apply_payload-Distinct c (message_delta id i kind delta) d =
    subst Distinct (sym (entries-apply_delta id i kind delta c.messages)) d
apply_payload-Distinct c (tool_started entry tool) d =
    subst Distinct
      (sym (entries-update_assistant c.messages entry (start_tool tool) none (λ m. refl))) d
apply_payload-Distinct c (tool_updated id content truncated) d =
    subst Distinct
      (sym (
        entries-update_assistant c.messages none (update_tool id content truncated) (some id)
          (λ m. refl)))
      d
apply_payload-Distinct c (tool_completed result) d =
    subst Distinct
      (sym (
        entries-update_assistant c.messages none (complete_tool result) (some result.tool_call_id)
          (λ m. refl)))
      d
apply_payload-Distinct c _ d = d

abbrev pub IsTranscript : Text → ConversationProjection → Type 0
IsTranscript key p = HasDistinctEntries p.conversation.messages

-- The snapshots among the actions have no two messages of the same entry.
abbrev pub SnapshotsAreDistinct : List ChatClientAction → Type 0
SnapshotsAreDistinct [] = Unit {0}
SnapshotsAreDistinct (snapshot_received c ∷ actions) =
    HasDistinctEntries c.messages × SnapshotsAreDistinct actions
SnapshotsAreDistinct (_ ∷ actions) = SnapshotsAreDistinct actions

event-IsTranscript : (received : ConversationEvent) → Allows IsTranscript (event_received received)
unfolding apply_to_projection
event-IsTranscript received current d here next =
    apply_payload-Distinct current.conversation received.payload d

retitle-IsTranscript :
    (key : Text) (summary : Option ConversationSummary) (p : ConversationProjection)
    → IsTranscript key p
    → IsTranscript key (retitle summary p)
retitle-IsTranscript key none p d = d
retitle-IsTranscript key (some summary) p d = d

all_transcripts :
    (actions : List ChatClientAction) → SnapshotsAreDistinct actions → AllAllow IsTranscript actions
all_transcripts [] h = tt
all_transcripts (snapshot_received c ∷ actions) (d, h) =
    ((d, λ current _. d), all_transcripts actions h)
all_transcripts (event_received received ∷ actions) h =
    (event-IsTranscript received, all_transcripts actions h)
all_transcripts (history_listed workspace listed ∷ actions) h =
    (λ key p. retitle-IsTranscript key (summary_of key listed) p, all_transcripts actions h)
all_transcripts (network_blocked_dismissed id ∷ actions) h =
    (λ current d. d, all_transcripts actions h)
all_transcripts (_ ∷ actions) h = (tt, all_transcripts actions h)

-- After any sequence of actions from the initial state whose snapshots have no two messages of the
-- same entry, no conversation that the client holds has two messages of the same entry, whatever
-- the events were.
pub reduce_all-IsTranscript :
    (actions : List ChatClientAction)
    → SnapshotsAreDistinct actions
    → Every IsTranscript (reduce_all create_initial_chat_client_state actions).conversations
unfolding create_initial_chat_client_state
reduce_all-IsTranscript actions distinct =
    reduce_all-Every IsTranscript actions create_initial_chat_client_state
      (all_transcripts actions distinct) tt
