-- ===== src/Client/Snapshots.antt =====
-- How a snapshot moves a projection of src/web/src/api/state.ts.
use mathlib.Core.Option.{some-injective, none-ne-some}
use mathlib.Core.Bool.{true≢false}
use chatwca.Prelude.{
  ap, arith, false, if◌then◌else◌, inl, inr, nat, none, refl, some, sym, true, ℕ, ◌<◌, ◌∙◌, ◌≡◌,
  ◌≢◌, ◌≤◌, ◌⊎◌,
}
use chatwca.Prelude.Text.{Text}
use chatwca.Prelude.Text.Equality.{text_eq_iff}
use chatwca.Prelude.ObjectMap.{lookup}
use chatwca.Prelude.ObjectMap.Laws.{lookup-without}
use chatwca.Revisions.{is_revision, decide_snapshot_revision}
use chatwca.Protocol.Conversations.{ConversationState}
use chatwca.Client.Projection.{ConversationProjection}
use chatwca.Client.State.{ChatClientState}
use chatwca.Client.Progress.{replace_conversation-lem}
use chatwca.Client.Conversations.{
  is_kept, is_same_workspace, fresh_projection, close_conversation, replace_conversation,
  reduce_snapshot,
}
use chatwca.Client.Cases.{reduce_snapshot-cases, Replaces, Shows}

held_again :
    (state next : ChatClientState) (id : Text) (current p : ConversationProjection)
    → lookup id state.conversations ≡ some current
    → next ≡ state
    → lookup id next.conversations ≡ some p
    → current ≡ p
held_again state next id current p held same after =
    some-injective current p
      (sym held ∙ (ap (λ (s : ChatClientState). lookup id s.conversations) (sym same) ∙ after))

Shows-conversation :
    (state : ChatClientState) (conversation : ConversationState) (q : ConversationProjection)
    → Shows state conversation q
    → q.conversation ≡ conversation
Shows-conversation state conversation q (inl e) =
    ap (λ (p : ConversationProjection). p.conversation) e
Shows-conversation state conversation q (inr (current, held, e)) =
    ap (λ (p : ConversationProjection). p.conversation) e

shown_after :
    (state : ChatClientState) (conversation : ConversationState) (q p : ConversationProjection)
    → Shows state conversation q
    → lookup conversation.id (replace_conversation state q).conversations ≡ some p
    → p.conversation ≡ conversation
shown_after state conversation q p shows after =
    let same = Shows-conversation state conversation q shows in
    let (found, _) = replace_conversation-lem state q conversation.id in
    let at =
      (text_eq_iff q.conversation.id conversation.id).1
        (ap (λ (c : ConversationState). c.id) same) in
    let here = some-injective q p (
      ap (λ b. if b then some q else lookup conversation.id state.conversations) (sym at)
      ∙ (sym found ∙ after)) in
    ap (λ (r : ConversationProjection). r.conversation) (sym here) ∙ same

replaced-forward :
    (state : ChatClientState) (conversation : ConversationState)
    (current p : ConversationProjection)
    → lookup conversation.id state.conversations ≡ some current
    → p.conversation ≡ conversation
    → Replaces state conversation
    → (p.conversation.workspace_id ≢ current.conversation.workspace_id)
      ⊎ (current.conversation.revision ≤ p.conversation.revision)
replaced-forward state conversation current p held new (inl absent) =
    absurd (none-ne-some current (sym absent ∙ held))
replaced-forward state conversation current p held new (inr (other_one, held', outcome)) =
    let same = some-injective current other_one (sym held ∙ held') in
    let revision = ap (λ (c : ConversationState). c.revision) new in
    let workspace = ap (λ (c : ConversationState). c.workspace_id) new in
    let before = ap (λ (q : ConversationProjection). q.conversation.revision) same in
    let place = ap (λ (q : ConversationProjection). q.conversation.workspace_id) same in
    elim outcome [
      | inl elsewhere ↦ inl (λ e. true≢false (
          sym (
            (text_eq_iff other_one.conversation.workspace_id conversation.workspace_id).1
              (sym place ∙ (sym e ∙ workspace)))
          ∙ elsewhere))
      | inr older ↦ inr (omega (arith, older, revision, before))
    ]

snapshot-forward :
    (state : ChatClientState) (conversation : ConversationState)
    (current p : ConversationProjection)
    → lookup conversation.id state.conversations ≡ some current
    → lookup conversation.id (reduce_snapshot state conversation).conversations ≡ some p
    → (p.conversation.workspace_id ≢ current.conversation.workspace_id)
      ⊎ (current.conversation.revision ≤ p.conversation.revision)
snapshot-forward state conversation current p held after =
    elim (reduce_snapshot-cases state conversation) [
      | inl same ↦
          let again =
            held_again state (reduce_snapshot state conversation) conversation.id current p held
              same after in
          inr (omega (arith, ap (λ (q : ConversationProjection). q.conversation.revision) again))
      | inr (replaces, (q, shows, taken)) ↦
          let new = shown_after state conversation q p shows (
            ap (λ (s : ChatClientState). lookup conversation.id s.conversations) (sym taken)
            ∙ after) in
          replaced-forward state conversation current p held new replaces
    ]

-- What a snapshot puts under its identifier.
snapshot_shown :
    (state : ChatClientState) (conversation : ConversationState) (p : ConversationProjection)
    → p.conversation ≡ conversation
    → reduce_snapshot state conversation ≡ replace_conversation state p
    → lookup conversation.id (reduce_snapshot state conversation).conversations ≡ some p
snapshot_shown state conversation p shows taken =
    let (found, _) = replace_conversation-lem state p conversation.id in
    let here =
      (text_eq_iff p.conversation.id conversation.id).1
        (ap (λ (c : ConversationState). c.id) shows) in
    ground (
      arith,
      found,
      here,
      ap (λ (s : ChatClientState). lookup conversation.id s.conversations) taken,
    )

module _ (state : ChatClientState) (conversation : ConversationState) where
  snapshot_absent :
      lookup conversation.id state.conversations ≡ none
      → reduce_snapshot state conversation
        ≡ replace_conversation state (fresh_projection conversation)
  unfolding reduce_snapshot
  snapshot_absent absent = ground (arith, absent)

  module _ (current : ConversationProjection)
      (held : lookup conversation.id state.conversations ≡ some current)
      (here : is_same_workspace current conversation ≡ true) where
    snapshot_older :
        is_kept (
            decide_snapshot_revision
              (some (nat current.conversation.revision))
              (nat conversation.revision))
          ≡ true
        → reduce_snapshot state conversation ≡ state
    unfolding reduce_snapshot
    snapshot_older older = ground (arith, held, here, older)

    snapshot_newer :
        is_kept (
            decide_snapshot_revision
              (some (nat current.conversation.revision))
              (nat conversation.revision))
          ≡ false
        → reduce_snapshot state conversation
          ≡ replace_conversation state (record current { conversation = conversation })
    unfolding reduce_snapshot
    snapshot_newer newer = ground (arith, held, here, newer)

closed-absent :
    (state : ChatClientState) (id : Text)
    → lookup id (close_conversation state id).conversations ≡ none
unfolding close_conversation
closed-absent state id = ground (arith, lookup-without id id state.conversations, text_eq_iff id id)

older-kept :
    (current incoming : ℕ)
    → incoming < current
    → is_kept (decide_snapshot_revision (some (nat current)) (nat incoming)) ≡ true
unfolding decide_snapshot_revision
older-kept current incoming h = ground (arith, h)

newer-replaces :
    (current incoming : ℕ)
    → is_revision (nat incoming) ≡ true
    → current ≤ incoming
    → is_kept (decide_snapshot_revision (some (nat current)) (nat incoming)) ≡ false
unfolding decide_snapshot_revision is_revision
newer-replaces current incoming good h = ground (arith, good, h)

-- For a conversation that the client holds: the projection after a snapshot of it is in another
-- workspace than before or has at least the revision it had; an older snapshot of its workspace
-- changes nothing, also that of a session which was closed and opened again and counts from 0; one
-- with a valid revision that is not older becomes the conversation of the projection; and once the
-- client has closed the conversation, a snapshot at any revision is taken, with no notices.
pub reduce_snapshot-forward :
    (state : ChatClientState) (conversation : ConversationState) (current : ConversationProjection)
    → lookup conversation.id state.conversations ≡ some current
    → let next = reduce_snapshot state conversation in
      let closed = close_conversation state conversation.id in
      ((p : ConversationProjection)
        → lookup conversation.id next.conversations ≡ some p
        → (p.conversation.workspace_id ≢ current.conversation.workspace_id)
          ⊎ (current.conversation.revision ≤ p.conversation.revision))
      × (current.conversation.workspace_id ≡ conversation.workspace_id
          → conversation.revision < current.conversation.revision
          → next ≡ state)
      × (current.conversation.workspace_id ≡ conversation.workspace_id
          → is_revision (nat conversation.revision) ≡ true
          → current.conversation.revision ≤ conversation.revision
          → lookup conversation.id next.conversations
            ≡ some (record current { conversation = conversation }))
      × (lookup conversation.id (reduce_snapshot closed conversation).conversations
          ≡ some (fresh_projection conversation))
reduce_snapshot-forward state conversation current held =
    let place = text_eq_iff current.conversation.workspace_id conversation.workspace_id in
    let closed = close_conversation state conversation.id in
    let before = current.conversation.revision in
    (
      λ p. snapshot-forward state conversation current p held,
      λ same older.
          snapshot_older state conversation current held (place.1 same)
            (older-kept before conversation.revision older),
      λ same good newer.
          snapshot_shown state conversation (record current { conversation = conversation }) refl
            (snapshot_newer state conversation current held (place.1 same)
              (newer-replaces before conversation.revision good newer)),
      snapshot_shown closed conversation (fresh_projection conversation) refl
          (snapshot_absent closed conversation (closed-absent state conversation.id)),
    )
