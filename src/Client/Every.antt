-- ===== src/Client/Every.antt =====
-- A property of every projection, under its key: what each operation on conversations must give for
-- the property to be kept.
use chatwca.Prelude.{
  List, Option-cases, [], arith, if_holds, inl, inr, not, subst, sym, true, ◌||◌, ◌≡◌,
}
use chatwca.Prelude.Text.{Text, text_eq}
use chatwca.Prelude.ObjectMap.{lookup, without, keep_entries}
use chatwca.Prelude.ObjectMap.Laws.{Every, Every-put, Every-keep, Every-map, Every-lookup}
use chatwca.Protocol.Conversations.{ConversationState, ConversationSummary}
use chatwca.Protocol.Events.{ConversationEvent}
use chatwca.Client.State.{ChatClientState, is_id, same_id}
use chatwca.Client.Identity.{apply_to_projection-identity}
use chatwca.Client.Cases.{
  Shows, decision_of, reduce_event-cases, dismiss_blocked-cases, reduce_snapshot-cases,
}
use chatwca.Client.Workspaces.{reduce_history, all_in, closed_ids, retitle, stays_open, summary_of}
use chatwca.Client.Projection.{ConversationProjection, apply_to_projection}
use chatwca.Revisions.{apply}
use chatwca.Client.Conversations.{
  fresh_projection, replace_conversation, request_resync, reduce_event, reduce_snapshot,
  dismiss_blocked, close_conversation, delete_conversation,
}

request_resync-conversations :
    (state : ChatClientState) (id : Text)
    → (request_resync state id).conversations ≡ state.conversations
unfolding request_resync
request_resync-conversations state id = ground arith

module _ (P : Text → ConversationProjection → Type 0) where
  -- What an action must give. A snapshot makes a new projection or changes the one held, an applied
  -- event and a dismissal change it, and a listed history may change the titles.
  abbrev pub SnapshotAllows : ConversationState → Type 0
  SnapshotAllows conversation =
      P conversation.id (fresh_projection conversation)
      × ((current : ConversationProjection)
          → P conversation.id current
          → P conversation.id (record current { conversation = conversation }))

  abbrev pub EventAllows : ConversationEvent → Type 0
  EventAllows received =
      (current : ConversationProjection)
      → P received.conversation_id current
      → text_eq current.conversation.workspace_id received.workspace_id ≡ true
      → decision_of current received ≡ apply
      → P current.conversation.id (apply_to_projection current received)

  abbrev pub DismissAllows : Text → Type 0
  DismissAllows id =
      (current : ConversationProjection)
      → P id current
      → P current.conversation.id (record current { network_blocked = [] })

  abbrev pub HistoryAllows : List ConversationSummary → Type 0
  HistoryAllows listed =
      (id : Text) (p : ConversationProjection) → P id p → P id (retitle (summary_of id listed) p)

  replaced :
      (state : ChatClientState) (p : ConversationProjection)
      → P p.conversation.id p
      → Every P state.conversations
      → Every P (replace_conversation state p).conversations
  unfolding replace_conversation
  replaced state p h v = Every-put P p.conversation.id p state.conversations h v

  pub reduce_event-Every :
      (state : ChatClientState) (received : ConversationEvent)
      → EventAllows received
      → Every P state.conversations
      → Every P (reduce_event state received).conversations
  reduce_event-Every state received allows v = elim (reduce_event-cases state received) [
    | inl same ↦ subst (λ s. Every P s.conversations) (sym same) v
    | inr (inl gap) ↦
        subst (λ s. Every P s.conversations) (sym gap)
          (subst (Every P) (sym (request_resync-conversations state received.conversation_id)) v)
    | inr (inr (current, held, here, next, applied)) ↦
        let before = Every-lookup P received.conversation_id current state.conversations v held in
        let p = apply_to_projection current received in
        let (same_id, _, _) = apply_to_projection-identity current received in
        subst (λ s. Every P s.conversations) (sym applied)
          (replaced state p (subst (λ id. P id p) (sym same_id) (allows current before here next))
            v)
  ]

  shown :
      (state : ChatClientState) (conversation : ConversationState) (p : ConversationProjection)
      → SnapshotAllows conversation
      → Every P state.conversations
      → Shows state conversation p
      → P p.conversation.id p
  shown state conversation p (new, over) v (inl e) = subst (λ q. P q.conversation.id q) (sym e) new
  shown state conversation p (new, over) v (inr (current, held, e)) =
      subst (λ q. P q.conversation.id q) (sym e)
        (over current (Every-lookup P conversation.id current state.conversations v held))

  pub reduce_snapshot-Every :
      (state : ChatClientState) (conversation : ConversationState)
      → SnapshotAllows conversation
      → Every P state.conversations
      → Every P (reduce_snapshot state conversation).conversations
  reduce_snapshot-Every state conversation allows v =
      elim (reduce_snapshot-cases state conversation) [
        | inl same ↦ subst (λ s. Every P s.conversations) (sym same) v
        | inr (_, (p, shows, taken)) ↦
            subst (λ s. Every P s.conversations) (sym taken)
              (replaced state p (shown state conversation p allows v shows) v)
      ]

  pub dismiss_blocked-Every :
      (state : ChatClientState) (id : Text)
      → DismissAllows id
      → Every P state.conversations
      → Every P (dismiss_blocked state id).conversations
  dismiss_blocked-Every state id allows v = elim (dismiss_blocked-cases state id) [
    | inl same ↦ subst (λ s. Every P s.conversations) (sym same) v
    | inr (current, held, dismissed) ↦
        let before = Every-lookup P id current state.conversations v held in
        subst (λ s. Every P s.conversations) (sym dismissed)
          (replaced state (record current { network_blocked = [] }) (allows current before) v)
  ]

  pub reduce_history-Every :
      (state : ChatClientState) (workspace : Text) (listed : List ConversationSummary)
      → HistoryAllows listed
      → Every P state.conversations
      → Every P (reduce_history state workspace listed).conversations
  unfolding reduce_history
  reduce_history-Every state workspace listed allows v =
      let open_here = stays_open workspace (closed_ids listed) in
      if_holds (λ (s : ChatClientState). Every P s.conversations)
        (not (is_id workspace state.selected_workspace_id) || not (all_in workspace listed))
        (λ refused. v)
        (λ accepted.
          Every-map P (λ id p. retitle (summary_of id listed) p)
            (keep_entries open_here state.conversations) allows
            (Every-keep P open_here state.conversations v))

  pub close_conversation-Every :
      (state : ChatClientState) (id : Text)
      → Every P state.conversations
      → Every P (close_conversation state id).conversations
  unfolding close_conversation
  close_conversation-Every state id v = elim (Option-cases (lookup id state.conversations)) [
    | inl absent ↦ subst (Every P) {x = state.conversations} (ground (arith, absent)) v
    | inr (current, held) ↦
        subst (Every P) {x = without id state.conversations} (ground (arith, held))
          (Every-keep P (λ key p. not (text_eq key id)) state.conversations v)
  ]

  pub delete_conversation-Every :
      (state : ChatClientState) (id : Text)
      → Every P state.conversations
      → Every P (delete_conversation state id).conversations
  unfolding delete_conversation
  delete_conversation-Every state id v =
      Every-keep P (λ key p. not (text_eq key id)) state.conversations v
