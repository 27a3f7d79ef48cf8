-- ===== src/Client/Replays.antt =====
-- How a conversation of src/web/src/api/state.ts is made of the actions that were received: of a
-- snapshot with the events that follow it, one by one.
use chatwca.Prelude.{
  Bool, List, Option, [], ap, arith, false, inl, inr, none, refl, some, subst, sym, true, ◌+◌, ◌∙◌,
  ◌∷◌, ◌≡◌, ◌⊎◌,
}
use chatwca.Prelude.Text.{Text, text_eq}
use chatwca.Prelude.Text.Equality.{text_eq_sound}
use chatwca.Revisions.{apply}
use chatwca.Revisions.Laws.{apply-next}
use chatwca.Protocol.Conversations.{ConversationState, ConversationSummary}
use chatwca.Protocol.Events.{ConversationEvent}
use chatwca.Client.Projection.{
  ConversationProjection, apply_to_projection, apply_conversation_event,
}
use chatwca.Client.State.{
  ChatClientAction, event_received, history_listed, snapshot_received, conversation_closed,
  conversation_deleted,
}
use chatwca.Client.Workspaces.{retitle, summary_of}
use chatwca.Client.Identity.{apply_to_projection-identity}
use chatwca.Client.Cases.{decision_of}
use chatwca.Client.Every.{EventAllows, HistoryAllows}

-- The actions that take a conversation from the projections by its identifier.
abbrev pub removes : ChatClientAction → Text → Bool
removes (conversation_closed id) key = text_eq key id
removes (conversation_deleted id) key = text_eq key id
removes _ key = false

-- The conversations that are made of some of the actions, the latest first: a snapshot, and since
-- then, without a removal of the conversation, its events with no revision left out and the titles of
-- listed histories.
pub data Replays : List ChatClientAction → ConversationState → Type 0 where
  from_snapshot :
      {past : List ChatClientAction} (c : ConversationState)
      → Replays (snapshot_received c ∷ past) c
  then_event :
      {past : List ChatClientAction} {c : ConversationState} (received : ConversationEvent)
      → received.conversation_id ≡ c.id
      → received.workspace_id ≡ c.workspace_id
      → received.revision ≡ c.revision + 1
      → Replays past c
      → Replays (event_received received ∷ past) (apply_conversation_event c received)
  then_titled :
      {past : List ChatClientAction} {c : ConversationState} (workspace : Text)
      (listed : List ConversationSummary) (summary : ConversationSummary)
      → summary_of c.id listed ≡ some summary
      → Replays past c
      → Replays (history_listed workspace listed ∷ past) (record c { title = summary.title })
  passed :
      {past : List ChatClientAction} {c : ConversationState} (action : ChatClientAction)
      → removes action c.id ≡ false
      → Replays past c
      → Replays (action ∷ past) c

pub record IsReplay (past : List ChatClientAction) (key : Text) (p : ConversationProjection)
    : Type 0 where
  pub named : p.conversation.id ≡ key
  pub replays : Replays past p.conversation

pub passed-IsReplay :
    (action : ChatClientAction) (past : List ChatClientAction) (key : Text)
    (p : ConversationProjection)
    → removes action key ≡ false
    → IsReplay past key p
    → IsReplay (action ∷ past) key p
passed-IsReplay action past key p stays v = record {
  named = v.named;
  replays = passed action (ap (removes action) v.named ∙ stays) v.replays;
}

retitle-twice :
    (summary : Option ConversationSummary) (q : ConversationProjection)
    → retitle summary (retitle summary q) ≡ retitle summary q
retitle-twice none q = refl
retitle-twice (some summary) q = refl

-- The actions with the latest first, before those of the past.
abbrev pub reverse_onto : List ChatClientAction → List ChatClientAction → List ChatClientAction
reverse_onto [] past = past
reverse_onto (action ∷ actions) past = reverse_onto actions (action ∷ past)

module _ (past : List ChatClientAction) where
  -- Before an event it passes, or after it, with its revision then.
  abbrev pub IsAround : ConversationEvent → Text → ConversationProjection → Type 0
  IsAround received key p =
      IsReplay past key p
      ⊎ (IsReplay (event_received received ∷ past) key p
          × (p.conversation.revision ≡ received.revision))

  applied-IsReplay :
      (received : ConversationEvent) (current : ConversationProjection)
      → text_eq current.conversation.workspace_id received.workspace_id ≡ true
      → decision_of current received ≡ apply
      → IsReplay past received.conversation_id current
      → IsReplay
          (event_received received ∷ past)
          current.conversation.id
          (apply_to_projection current received)
  unfolding apply_to_projection
  applied-IsReplay received current here next v = record {
    named = (apply_to_projection-identity current received).0;
    replays =
        then_event received (sym v.named)
          (sym (text_eq_sound current.conversation.workspace_id received.workspace_id here))
          (apply-next current.conversation.revision received.revision next) v.replays;
  }

  pub event-IsAround : (received : ConversationEvent) → EventAllows (IsAround received) received
  event-IsAround received current (inl before) here next = inr (
    applied-IsReplay received current here next before,
    (apply_to_projection-identity current received).2,
  )
  event-IsAround received current (inr (_, same)) here next =
      absurd (omega (arith, same, apply-next current.conversation.revision received.revision next))

  pub around-IsReplay :
      (received : ConversationEvent) (key : Text) (p : ConversationProjection)
      → IsAround received key p
      → IsReplay (event_received received ∷ past) key p
  around-IsReplay received key p (inl before) =
      passed-IsReplay (event_received received) past key p refl before
  around-IsReplay received key p (inr (after, _)) = after

  -- As a listed history finds a projection, or with the title that it gives.
  abbrev pub IsTitled : List ConversationSummary → Text → ConversationProjection → Type 0
  IsTitled listed key p =
      IsReplay past key p
      ⊎ ((q : ConversationProjection) × IsReplay past key q
          × (p ≡ retitle (summary_of key listed) q))

  pub history-IsTitled :
      (listed : List ConversationSummary) → HistoryAllows (IsTitled listed) listed
  history-IsTitled listed key p (inl before) = inr (p, before, refl)
  history-IsTitled listed key p (inr (q, before, e)) =
      inr (
        q,
        before,
        ap (retitle (summary_of key listed)) e ∙ retitle-twice (summary_of key listed) q,
      )

  retitled-IsReplay :
      (workspace : Text) (listed : List ConversationSummary) (key : Text)
      (summary : Option ConversationSummary) (q : ConversationProjection)
      → summary_of key listed ≡ summary
      → IsReplay past key q
      → IsReplay (history_listed workspace listed ∷ past) key (retitle summary q)
  retitled-IsReplay workspace listed key none q found v =
      passed-IsReplay (history_listed workspace listed) past key q refl v
  retitled-IsReplay workspace listed key (some summary) q found v = record {
    named = v.named;
    replays =
        then_titled workspace listed summary (ap (λ k. summary_of k listed) v.named ∙ found)
          v.replays;
  }

  pub titled-IsReplay :
      (workspace : Text) (listed : List ConversationSummary) (key : Text)
      (p : ConversationProjection)
      → IsTitled listed key p
      → IsReplay (history_listed workspace listed ∷ past) key p
  titled-IsReplay workspace listed key p (inl before) =
      passed-IsReplay (history_listed workspace listed) past key p refl before
  titled-IsReplay workspace listed key p (inr (q, before, e)) =
      subst (IsReplay (history_listed workspace listed ∷ past) key) (sym e)
        (retitled-IsReplay workspace listed key (summary_of key listed) q refl before)
