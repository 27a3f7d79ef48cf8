-- ===== src/Client/Wellformed.antt =====
-- What holds of every projection whatever the client receives.
use chatwca.Prelude.{
  List, Option, Option-cases, [], arith, find_last_index, inl, inr, length, length-last_items, none,
  refl, set_at, some, ◌++◌, ◌∷◌, ◌≡◌, ◌≤◌,
}
use chatwca.Prelude.Text.{Text}
use chatwca.Prelude.ObjectMap.Laws.{Every}
use chatwca.Protocol.Conversations.{ConversationState, ConversationSummary}
use chatwca.Protocol.Events.{
  ConversationEvent, EventPayload, NetworkBlockedEvent, network_blocked, blocked_event,
  notice_given,
}
use chatwca.Client.Projection.{
  ConversationProjection, PositionedStatusNotice, apply_to_projection, collect_network_blocked,
  next_notices, next_blocked, max_network_blocked_notices, same_blocked_destination,
}
use chatwca.Client.State.{
  ChatClientAction, create_initial_chat_client_state, event_received, history_listed,
  network_blocked_dismissed, snapshot_received,
}
use chatwca.Client.Workspaces.{retitle, summary_of}
use chatwca.Client.Reducer.{reduce_all}
use chatwca.Client.Identity.{apply_to_projection-identity}
use chatwca.Client.Every.{SnapshotAllows, EventAllows, DismissAllows, HistoryAllows}
use chatwca.Client.Preserved.{Allows, AllAllow, reduce_all-Every}

-- A projection stands under its conversation's identifier, and keeps at most 100 notices and 50
-- denials.
pub record IsWellformed (id : Text) (p : ConversationProjection) : Type 0 where
  pub named : p.conversation.id ≡ id
  pub few_notices : length p.notices ≤ 100
  pub few_denials : length p.network_blocked ≤ max_network_blocked_notices

collect_network_blocked-bounded :
    (current : List NetworkBlockedEvent) (received : NetworkBlockedEvent)
    → length (collect_network_blocked current received) ≤ max_network_blocked_notices
unfolding collect_network_blocked
collect_network_blocked-bounded current received =
    let appended = length-last_items max_network_blocked_notices (current ++ (received ∷ [])) in
    elim (Option-cases
      (find_last_index (λ candidate. same_blocked_destination candidate received) current)) [
        | inl new ↦ ground (arith, new, appended)
        | inr (i, old) ↦ ground (
          arith,
          old,
          appended,
          length-last_items max_network_blocked_notices (set_at i received current),
        )
      ]

next_notices-bounded :
    (c : ConversationState) (payload : EventPayload) (notices : List PositionedStatusNotice)
    → length notices ≤ 100
    → length (next_notices c payload notices) ≤ 100
next_notices-bounded c (notice_given notice) notices h =
    length-last_items 100
      (notices ++ (record { notice = notice; after_message_count = length c.messages } ∷ []))
next_notices-bounded c _ notices h = h

next_blocked-bounded :
    (received : ConversationEvent) (payload : EventPayload) (current : List NetworkBlockedEvent)
    → length current ≤ max_network_blocked_notices
    → length (next_blocked received payload current) ≤ max_network_blocked_notices
next_blocked-bounded received (network_blocked blocked) current h =
    collect_network_blocked-bounded current (blocked_event received blocked)
next_blocked-bounded received _ current h = h

event-IsWellformed : (received : ConversationEvent) → EventAllows IsWellformed received
unfolding apply_to_projection
event-IsWellformed received current v here next = record {
  named = (apply_to_projection-identity current received).0;
  few_notices =
      next_notices-bounded current.conversation received.payload current.notices v.few_notices;
  few_denials =
      next_blocked-bounded received received.payload current.network_blocked v.few_denials;
}

retitled-IsWellformed :
    (summary : Option ConversationSummary) (id : Text) (p : ConversationProjection)
    → IsWellformed id p
    → IsWellformed id (retitle summary p)
retitled-IsWellformed none id p v = v
retitled-IsWellformed (some summary) id p v = record {
  named = v.named;
  few_notices = v.few_notices;
  few_denials = v.few_denials;
}

retitle-IsWellformed : (listed : List ConversationSummary) → HistoryAllows IsWellformed listed
retitle-IsWellformed listed id p v = retitled-IsWellformed (summary_of id listed) id p v

snapshot-IsWellformed :
    (conversation : ConversationState) → SnapshotAllows IsWellformed conversation
snapshot-IsWellformed conversation = (
  record { named = refl; few_notices = omega arith; few_denials = omega arith },
  λ current v. record { named = refl; few_notices = v.few_notices; few_denials = v.few_denials },
)

dismiss-IsWellformed : (id : Text) → DismissAllows IsWellformed id
dismiss-IsWellformed id current v = record {
  named = refl;
  few_notices = v.few_notices;
  few_denials = omega arith;
}

every_action : (action : ChatClientAction) → Allows IsWellformed action
every_action (snapshot_received conversation) = snapshot-IsWellformed conversation
every_action (event_received received) = event-IsWellformed received
every_action (network_blocked_dismissed id) = dismiss-IsWellformed id
every_action (history_listed workspace listed) = retitle-IsWellformed listed
every_action _ = tt

every_sequence : (actions : List ChatClientAction) → AllAllow IsWellformed actions
every_sequence [] = tt
every_sequence (action ∷ actions) = (every_action action, every_sequence actions)

-- After any sequence of actions from the initial state, each projection stands under its
-- conversation's identifier, with at most 100 notices and at most 50 denials.
pub reduce_all-IsWellformed :
    (actions : List ChatClientAction)
    → Every IsWellformed (reduce_all create_initial_chat_client_state actions).conversations
unfolding create_initial_chat_client_state
reduce_all-IsWellformed actions =
    reduce_all-Every IsWellformed actions create_initial_chat_client_state (every_sequence actions)
      tt
