-- ===== src/Client/Identity.antt =====
-- What an event leaves of a conversation, and the revision that it sets.
use chatwca.Prelude.{arith, ◌≡◌}
use chatwca.Protocol.Conversations.{ConversationState}
use chatwca.Protocol.Events.{ConversationEvent, EventPayload}
use chatwca.Client.Projection.{ConversationProjection, apply_to_projection, apply_payload}

pub apply_payload-identity :
    (c : ConversationState) (payload : EventPayload)
    → ((apply_payload c payload).id ≡ c.id)
      × ((apply_payload c payload).workspace_id ≡ c.workspace_id)
unfolding apply_payload
apply_payload-identity c payload = ground arith

pub apply_to_projection-identity :
    (p : ConversationProjection) (received : ConversationEvent)
    → ((apply_to_projection p received).conversation.id ≡ p.conversation.id)
      × ((apply_to_projection p received).conversation.workspace_id ≡ p.conversation.workspace_id)
      × ((apply_to_projection p received).conversation.revision ≡ received.revision)
unfolding apply_to_projection
apply_to_projection-identity p received =
    ground (arith, apply_payload-identity p.conversation received.payload)
