-- ===== src/Client/Progress.antt =====
-- How an event moves a projection: never back, and with a gap to a request for a snapshot.
use chatwca.Prelude.{
  List, [], ap, arith, false, if◌then◌else◌, nat, refl, some, true, ◌++◌, ◌+◌, ◌<◌, ◌∙◌, ◌∷◌, ◌≡◌,
  ◌≤◌,
}
use chatwca.Prelude.Text.{Text, text_eq}
use chatwca.Prelude.Text.Equality.{text_eq_iff}
use chatwca.Prelude.ObjectMap.{lookup}
use chatwca.Prelude.ObjectMap.Laws.{lookup-put}
use chatwca.Revisions.{apply, ignore, resync, is_revision}
use chatwca.Revisions.Laws.{decide_event_revision_cases}
use chatwca.Protocol.Events.{ConversationEvent}
use chatwca.Client.Projection.{ConversationProjection, apply_to_projection}
use chatwca.Client.Identity.{apply_to_projection-identity}
use chatwca.Client.State.{ChatClientState, has_id, drop_id, same_id}
use chatwca.Client.Conversations.{replace_conversation, request_resync, reduce_event}
use chatwca.Client.Cases.{decision_of}

has_id-append : (id : Text) (ids : List Text) → has_id id (ids ++ (id ∷ [])) ≡ true
has_id-append id [] = ground (arith, text_eq_iff id id)
has_id-append id (x ∷ xs) = ground (arith, has_id-append id xs)

has_id-drop_id : (id : Text) (ids : List Text) → has_id id (drop_id id ids) ≡ false
has_id-drop_id id [] = refl
has_id-drop_id id (x ∷ xs) = ground (arith, has_id-drop_id id xs)

request_resync-lem :
    (state : ChatClientState) (id : Text)
    → ((request_resync state id).conversations ≡ state.conversations)
      × (has_id id (request_resync state id).resync_conversation_ids ≡ true)
unfolding request_resync
request_resync-lem state id = ground (arith, has_id-append id state.resync_conversation_ids)

pub replace_conversation-lem :
    (state : ChatClientState) (p : ConversationProjection) (id : Text)
    → (lookup id (replace_conversation state p).conversations
        ≡ (if text_eq p.conversation.id id then some p else lookup id state.conversations))
      × (has_id p.conversation.id (replace_conversation state p).resync_conversation_ids ≡ false)
unfolding replace_conversation
replace_conversation-lem state p id = (
  lookup-put id p.conversation.id p state.conversations,
  has_id-drop_id p.conversation.id state.resync_conversation_ids,
)

event-applied :
    (state : ChatClientState) (received : ConversationEvent) (current : ConversationProjection)
    → lookup received.conversation_id state.conversations ≡ some current
    → text_eq current.conversation.workspace_id received.workspace_id ≡ true
    → decision_of current received ≡ apply
    → reduce_event state received
      ≡ replace_conversation state (apply_to_projection current received)
unfolding reduce_event
event-applied state received current held here next = ground (arith, held, here, next)

event-ignored :
    (state : ChatClientState) (received : ConversationEvent) (current : ConversationProjection)
    → lookup received.conversation_id state.conversations ≡ some current
    → text_eq current.conversation.workspace_id received.workspace_id ≡ true
    → decision_of current received ≡ ignore
    → reduce_event state received ≡ state
unfolding reduce_event
event-ignored state received current held here old = ground (arith, held, here, old)

event-gap :
    (state : ChatClientState) (received : ConversationEvent) (current : ConversationProjection)
    → lookup received.conversation_id state.conversations ≡ some current
    → text_eq current.conversation.workspace_id received.workspace_id ≡ true
    → decision_of current received ≡ resync
    → reduce_event state received ≡ request_resync state received.conversation_id
unfolding reduce_event
event-gap state received current held here gap = ground (arith, held, here, gap)

-- For an event of a conversation that the client holds under its identifier and in the event's
-- workspace, both revisions valid: an event that is not newer changes nothing; the next one is
-- applied, and no snapshot of the conversation is asked for any more; with a later one every
-- conversation stays, and a snapshot of this one is asked for.
pub reduce_event-progress :
    (state : ChatClientState) (received : ConversationEvent) (current : ConversationProjection)
    → lookup received.conversation_id state.conversations ≡ some current
    → current.conversation.id ≡ received.conversation_id
    → current.conversation.workspace_id ≡ received.workspace_id
    → is_revision (nat current.conversation.revision) ≡ true
    → is_revision (nat received.revision) ≡ true
    → let id = received.conversation_id in
      let next = reduce_event state received in
      (received.revision ≤ current.conversation.revision → next ≡ state)
      × (received.revision ≡ current.conversation.revision + 1
          → (lookup id next.conversations ≡ some (apply_to_projection current received))
            × (has_id id next.resync_conversation_ids ≡ false))
      × (current.conversation.revision + 1 < received.revision
          → (next.conversations ≡ state.conversations)
            × (has_id id next.resync_conversation_ids ≡ true))
reduce_event-progress state received current held named placed good good' =
    let id = received.conversation_id in
    let here = (text_eq_iff current.conversation.workspace_id received.workspace_id).1 placed in
    let p = apply_to_projection current received in
    let (same_id, _, _) = apply_to_projection-identity current received in
    let (found, unasked) = replace_conversation-lem state p id in
    let (kept, asked) = request_resync-lem state id in
    let (old, new, gap) =
      decide_event_revision_cases current.conversation.revision received.revision good good' in
    (
      λ h. event-ignored state received current held here (old.1 h),
      λ h.
          let applied = event-applied state received current held here (new.1 h) in
          ground (
            arith,
            applied,
            found,
            unasked,
            same_id,
            named,
            text_eq_iff p.conversation.id id,
            ap (λ k. has_id k (replace_conversation state p).resync_conversation_ids)
                (same_id ∙ named),
          ),
      λ h.
          let resynced = event-gap state received current held here (gap.1 h) in
          ground (arith, resynced, kept, asked),
    )
