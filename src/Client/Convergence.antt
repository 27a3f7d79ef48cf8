-- ===== src/Client/Convergence.antt =====
-- What a client shows of a conversation while messages are lost, repeated and reordered.
use chatwca.Prelude.{
  List, Option-cases, [], arith, false, inl, inr, refl, some, subst, ◌∙◌, ◌∷◌, ◌≡◌,
}
use chatwca.Prelude.Text.{Text, text_eq}
use chatwca.Prelude.ObjectMap.{lookup, without}
use chatwca.Prelude.ObjectMap.Laws.{Every, Every-lookup, Every-imp, Every-without, Every-absent}
use chatwca.Protocol.Conversations.{ConversationState}
use chatwca.Client.Projection.{ConversationProjection}
use chatwca.Client.State.{
  ChatClientState, ChatClientAction, create_initial_chat_client_state, event_received,
  history_listed, snapshot_received, conversation_closed, conversation_deleted,
  network_blocked_dismissed,
}
use chatwca.Client.Conversations.{close_conversation, delete_conversation}
use chatwca.Client.Reducer.{reduce_all, reduce_chat_client_state}
use chatwca.Client.Preserved.{Allows, reduce-Every}
use chatwca.Client.Replays.{
  Replays, IsReplay, IsAround, IsTitled, removes, reverse_onto, passed-IsReplay, event-IsAround,
  around-IsReplay, history-IsTitled, titled-IsReplay, from_snapshot,
}

module _ (past : List ChatClientAction) where
  removed-IsReplay :
      (action : ChatClientAction) (id : Text)
      → ((key : Text) → removes action key ≡ text_eq key id)
      → (key : Text) (p : ConversationProjection) → text_eq key id ≡ false
      → IsReplay past key p
      → IsReplay (action ∷ past) key p
  removed-IsReplay action id only key p differs v =
      passed-IsReplay action past key p (only key ∙ differs) v

  -- What the actions that neither make nor remove a projection keep.
  kept-IsReplay :
      (state : ChatClientState) (action : ChatClientAction)
      → ((key : Text) → removes action key ≡ false)
      → Allows (IsReplay (action ∷ past)) action
      → Every (IsReplay past) state.conversations
      → Every (IsReplay (action ∷ past)) (reduce_chat_client_state state action).conversations
  kept-IsReplay state action stays allows v =
      reduce-Every (IsReplay (action ∷ past)) state action allows (
        Every-imp (IsReplay past) (IsReplay (action ∷ past)) state.conversations
          (λ key p. passed-IsReplay action past key p (stays key)) v)

  closed-IsReplay :
      (state : ChatClientState) (id : Text)
      → Every (IsReplay past) state.conversations
      → Every (IsReplay (conversation_closed id ∷ past)) (close_conversation state id).conversations
  unfolding close_conversation
  closed-IsReplay state id v =
      let removed = removed-IsReplay (conversation_closed id) id (λ key. refl) in
      elim (Option-cases (lookup id state.conversations)) [
        | inl absent ↦
            subst (Every (IsReplay (conversation_closed id ∷ past))) {x = state.conversations}
              (ground (arith, absent))
              (Every-absent (IsReplay past) (IsReplay (conversation_closed id ∷ past)) id
                state.conversations removed absent v)
        | inr (current, held) ↦
            subst (Every (IsReplay (conversation_closed id ∷ past)))
              {x = without id state.conversations} (ground (arith, held))
              (Every-without (IsReplay past) (IsReplay (conversation_closed id ∷ past)) id
                state.conversations removed v)
      ]

  deleted-IsReplay :
      (state : ChatClientState) (id : Text)
      → Every (IsReplay past) state.conversations
      → Every
          (IsReplay (conversation_deleted id ∷ past))
          (delete_conversation state id).conversations
  unfolding delete_conversation
  deleted-IsReplay state id v =
      Every-without (IsReplay past) (IsReplay (conversation_deleted id ∷ past)) id
        state.conversations (removed-IsReplay (conversation_deleted id) id (λ key. refl)) v

  snapshot-IsReplay :
      (conversation : ConversationState)
      → Allows (IsReplay (snapshot_received conversation ∷ past)) (snapshot_received conversation)
  snapshot-IsReplay conversation =
      let new = from_snapshot conversation in
      (record { named = refl; replays = new }, λ current v. record { named = refl; replays = new })

  step-IsReplay :
      (state : ChatClientState) (action : ChatClientAction)
      → Every (IsReplay past) state.conversations
      → Every (IsReplay (action ∷ past)) (reduce_chat_client_state state action).conversations
  unfolding reduce_chat_client_state
  step-IsReplay state (snapshot_received conversation) v =
      kept-IsReplay state (snapshot_received conversation) (λ key. refl)
        (snapshot-IsReplay conversation) v
  step-IsReplay state (event_received received) v =
      let after = reduce_chat_client_state state (event_received received) in
      Every-imp (IsAround past received) (IsReplay (event_received received ∷ past))
        after.conversations (around-IsReplay past received)
        (reduce-Every (IsAround past received) state (event_received received)
          (event-IsAround past received)
          (Every-imp (IsReplay past) (IsAround past received) state.conversations (λ key p. inl) v))
  step-IsReplay state (history_listed workspace listed) v =
      let after = reduce_chat_client_state state (history_listed workspace listed) in
      Every-imp (IsTitled past listed) (IsReplay (history_listed workspace listed ∷ past))
        after.conversations (titled-IsReplay past workspace listed)
        (reduce-Every (IsTitled past listed) state (history_listed workspace listed)
          (history-IsTitled past listed)
          (Every-imp (IsReplay past) (IsTitled past listed) state.conversations (λ key p. inl) v))
  step-IsReplay state (conversation_closed id) v = closed-IsReplay state id v
  step-IsReplay state (conversation_deleted id) v = deleted-IsReplay state id v
  step-IsReplay state (network_blocked_dismissed id) v =
      kept-IsReplay state (network_blocked_dismissed id) (λ key. refl)
        (λ current w. record { named = refl; replays = w.replays }) v
  step-IsReplay state action v = kept-IsReplay state action (λ key. refl) tt v

all-IsReplay :
    (actions past : List ChatClientAction) (state : ChatClientState)
    → Every (IsReplay past) state.conversations
    → Every (IsReplay (reverse_onto actions past)) (reduce_all state actions).conversations
all-IsReplay [] past state v = v
all-IsReplay (action ∷ actions) past state v =
    all-IsReplay actions (action ∷ past) (reduce_chat_client_state state action)
      (step-IsReplay past state action v)

-- A conversation that the client holds after any sequence of actions from the initial state is a
-- snapshot among them with events that were received after it, each of the conversation and of its
-- workspace and each of the next revision, in their order with none repeated or left out, and with
-- the titles of histories that were listed meanwhile; the snapshot came after the conversation was
-- last closed or deleted.
pub reduce_all-Replays :
    (actions : List ChatClientAction) (id : Text) (p : ConversationProjection)
    → lookup id (reduce_all create_initial_chat_client_state actions).conversations ≡ some p
    → (p.conversation.id ≡ id) × Replays (reverse_onto actions []) p.conversation
unfolding create_initial_chat_client_state
reduce_all-Replays actions id p held =
    let state = reduce_all create_initial_chat_client_state actions in
    let all = all-IsReplay actions [] create_initial_chat_client_state tt in
    let v = Every-lookup (IsReplay (reverse_onto actions [])) id p state.conversations all held in
    (v.named, v.replays)
