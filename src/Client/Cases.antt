-- ===== src/Client/Cases.antt =====
-- The outcomes of an event and of a snapshot in the client's state.
use chatwca.Prelude.{
  Bool-cases, Option-cases, [], arith, false, inl, inr, nat, none, refl, some, true, ◌≡◌, ◌≤◌, ◌⊎◌,
}
use chatwca.Prelude.Text.{Text, text_eq}
use chatwca.Prelude.ObjectMap.{lookup}
use chatwca.Revisions.{
  EventDecision, apply, ignore, resync, SnapshotDecision, replace, keep_current,
  decide_event_revision, decide_snapshot_revision,
}
use chatwca.Revisions.Laws.{replace-not_older}
use chatwca.Protocol.Conversations.{ConversationState}
use chatwca.Protocol.Events.{ConversationEvent}
use chatwca.Client.State.{ChatClientState}
use chatwca.Client.Projection.{ConversationProjection, apply_to_projection}
use chatwca.Client.Conversations.{
  replace_conversation, request_resync, reduce_event, reduce_snapshot, is_same_workspace,
  fresh_projection, dismiss_blocked, is_empty_list,
}

abbrev pub decision_of : ConversationProjection → ConversationEvent → EventDecision
decision_of current received =
    decide_event_revision (nat current.conversation.revision) (nat received.revision)

decision-cases : (d : EventDecision) → (d ≡ ignore) ⊎ ((d ≡ resync) ⊎ (d ≡ apply))
decision-cases d = ground arith

-- An event is ignored, or asks for a snapshot, or is applied to the projection that is held.
pub reduce_event-cases :
    (state : ChatClientState) (received : ConversationEvent)
    → (reduce_event state received ≡ state)
      ⊎ ((reduce_event state received ≡ request_resync state received.conversation_id)
          ⊎ ((current : ConversationProjection) × (lookup received.conversation_id
                  state.conversations
                ≡ some current)
              × (text_eq current.conversation.workspace_id received.workspace_id ≡ true)
              × (decision_of current received ≡ apply)
              × (reduce_event state received
                  ≡ replace_conversation state (apply_to_projection current received))))
unfolding reduce_event
reduce_event-cases state received =
    elim (Option-cases (lookup received.conversation_id state.conversations)) [
      | inl absent ↦ inr (inl (ground (arith, absent)))
      | inr (current, held) ↦
          elim (Bool-cases (text_eq current.conversation.workspace_id received.workspace_id)) [
            | inr elsewhere ↦ inr (inl (ground (arith, held, elsewhere)))
            | inl here ↦ elim (decision-cases (decision_of current received)) [
              | inl ignored ↦ inl (ground (arith, held, here, ignored))
              | inr (inl gap) ↦ inr (inl (ground (arith, held, here, gap)))
              | inr (inr next) ↦
                  inr (inr (current, held, here, next, ground (arith, held, here, next)))
            ]
          ]
    ]

-- What a snapshot takes the place of: nothing, or a projection of another workspace or one that is
-- not newer.
abbrev pub Replaces : ChatClientState → ConversationState → Type 0
Replaces state conversation =
    (lookup conversation.id state.conversations ≡ none)
    ⊎ ((current : ConversationProjection) × (lookup conversation.id state.conversations
          ≡ some current)
        × ((is_same_workspace current conversation ≡ false)
            ⊎ (current.conversation.revision ≤ conversation.revision)))

-- The projection of a snapshot: a new one, or the one held with another conversation.
abbrev pub Shows : ChatClientState → ConversationState → ConversationProjection → Type 0
Shows state conversation p =
    (p ≡ fresh_projection conversation)
    ⊎ ((current : ConversationProjection) × (lookup conversation.id state.conversations
          ≡ some current)
        × (p ≡ record current { conversation = conversation }))

kept-cases : (d : SnapshotDecision) → (d ≡ keep_current) ⊎ (d ≡ replace)
kept-cases d = ground arith

-- A snapshot is ignored, or takes the place of the projection with what that keeps.
pub reduce_snapshot-cases :
    (state : ChatClientState) (conversation : ConversationState)
    → (reduce_snapshot state conversation ≡ state)
      ⊎ (Replaces state conversation
          × ((p : ConversationProjection) × Shows state conversation p
              × (reduce_snapshot state conversation ≡ replace_conversation state p)))
unfolding reduce_snapshot
reduce_snapshot-cases state conversation =
    elim (Option-cases (lookup conversation.id state.conversations)) [
      | inl absent ↦
          inr (inl absent, (fresh_projection conversation, inl refl, ground (arith, absent)))
      | inr (current, held) ↦ elim (Bool-cases (is_same_workspace current conversation)) [
        | inr elsewhere ↦ inr (
          inr (current, held, inl elsewhere),
          (fresh_projection conversation, inl refl, ground (arith, held, elsewhere)),
        )
        | inl here ↦
            let revision = current.conversation.revision in
            let decision =
              decide_snapshot_revision (some (nat revision)) (nat conversation.revision) in
            elim (kept-cases decision) [
              | inl older ↦ inl (ground (arith, held, here, older))
              | inr newer ↦ inr (
                inr (current, held, inr (replace-not_older revision conversation.revision newer)),
                (
                  record current { conversation = conversation },
                  inr (current, held, refl),
                  ground (arith, held, here, newer),
                ),
              )
            ]
      ]
    ]

-- Dismissing the denials leaves the state, or empties those of the projection that is held.
pub dismiss_blocked-cases :
    (state : ChatClientState) (id : Text)
    → (dismiss_blocked state id ≡ state)
      ⊎ ((current : ConversationProjection) × (lookup id state.conversations ≡ some current)
          × (dismiss_blocked state id
              ≡ replace_conversation state (record current { network_blocked = [] })))
unfolding dismiss_blocked
dismiss_blocked-cases state id = elim (Option-cases (lookup id state.conversations)) [
  | inl absent ↦ inl (ground (arith, absent))
  | inr (current, held) ↦ elim (Bool-cases (is_empty_list current.network_blocked)) [
    | inl quiet ↦ inl (ground (arith, held, quiet))
    | inr some_blocked ↦ inr (current, held, ground (arith, held, some_blocked))
  ]
]
