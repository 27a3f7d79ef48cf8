-- ===== src/Client/Scope.antt =====
-- The history that the client shows belongs to the workspace that is selected.
use mathlib.Core.Option.{some-injective, none-ne-some}
use chatwca.Prelude.{
  Bool, List, Option, [], all, ap, arith, if_holds, keep, none, not, refl, some, subst, sym, true,
  ◌||◌, ◌∙◌, ◌∷◌, ◌≡◌,
}
use chatwca.Prelude.Text.{Text, text_eq}
use chatwca.Prelude.Text.Equality.{text_eq_iff}
use chatwca.Protocol.Conversations.{ConversationSummary, WorkspaceSummary}
use chatwca.Client.State.{ChatClientState, WorkspaceClientErrorState, is_id, same_id}
use chatwca.Client.Workspaces.{
  reduce_workspaces, select_workspace, reduce_history_pending, reduce_history_failed,
  reduce_history, all_in, is_listed,
}
use chatwca.Client.Conversations.{delete_conversation}

-- The part of the state that is about the selected workspace.
pub record Scope : Type 0 where
  pub selected : Option Text
  pub shown : Option Text
  pub items : List ConversationSummary
  pub pending : Option Text
  pub failure : Option WorkspaceClientErrorState

abbrev pub scope : ChatClientState → Scope
scope s = record {
  selected = s.selected_workspace_id;
  shown = s.history_workspace_id;
  items = s.history;
  pending = s.pending_history_workspace_id;
  failure = s.history_error;
}

abbrev pub all_of : Option Text → List ConversationSummary → Bool
all_of selected = all (λ (item : ConversationSummary). is_id item.workspace_id selected)

-- What is shown, what is awaited and what has failed is about the selected workspace.
pub record IsScoped (s : Scope) : Type 0 where
  pub shown_here : (w : Text) → s.shown ≡ some w → s.selected ≡ some w
  pub items_here : all_of s.selected s.items ≡ true
  pub pending_here : (w : Text) → s.pending ≡ some w → s.selected ≡ some w
  pub failure_here :
      (e : WorkspaceClientErrorState) → s.failure ≡ some e → s.selected ≡ some e.workspace_id

pub cleared :
    (selected : Option Text)
    → IsScoped
        (record { selected = selected; shown = none; items = []; pending = none; failure = none })
cleared selected = record {
  shown_here = λ w e. absurd (none-ne-some w e);
  items_here = refl;
  pending_here = λ w e. absurd (none-ne-some w e);
  failure_here = λ e h. absurd (none-ne-some e h);
}

is_id-some : (w : Text) (selected : Option Text) → is_id w selected ≡ true → selected ≡ some w
is_id-some w none h = ground arith
is_id-some w (some v) h = ap some (sym ((text_eq_iff w v).0 h))

all_of-all_in :
    (w : Text) (listed : List ConversationSummary)
    → all_in w listed ≡ true
    → all_of (some w) listed ≡ true
all_of-all_in w [] h = refl
all_of-all_in w (item ∷ rest) h = ground (arith, h, all_of-all_in w rest)

all_of-keep :
    (selected : Option Text) (test : ConversationSummary → Bool) (listed : List ConversationSummary)
    → all_of selected listed ≡ true
    → all_of selected (keep test listed) ≡ true
all_of-keep selected test [] h = refl
all_of-keep selected test (item ∷ rest) h = ground (arith, h, all_of-keep selected test rest)

pub reduce_workspaces-IsScoped :
    (state : ChatClientState) (workspaces : List WorkspaceSummary)
    → IsScoped (scope state)
    → IsScoped (scope (reduce_workspaces state workspaces))
unfolding reduce_workspaces
reduce_workspaces-IsScoped state workspaces v =
    if_holds (λ s. IsScoped (scope s)) (is_listed state.selected_workspace_id workspaces)
      (λ listed. v) (λ gone. cleared none)

pub select_workspace-IsScoped :
    (state : ChatClientState) (id : Option Text)
    → IsScoped (scope state)
    → IsScoped (scope (select_workspace state id))
unfolding select_workspace
select_workspace-IsScoped state id v =
    if_holds (λ s. IsScoped (scope s)) (same_id id state.selected_workspace_id) (λ same. v)
      (λ differs. cleared id)

pub reduce_history_pending-IsScoped :
    (state : ChatClientState) (id : Text)
    → IsScoped (scope state)
    → IsScoped (scope (reduce_history_pending state id))
unfolding reduce_history_pending
reduce_history_pending-IsScoped state id v =
    if_holds (λ s. IsScoped (scope s)) (is_id id state.selected_workspace_id)
      (λ here. record {
        shown_here = v.shown_here;
        items_here = v.items_here;
        pending_here = λ w e. is_id-some id state.selected_workspace_id here ∙ e;
        failure_here = λ e h. absurd (none-ne-some e h);
      })
      (λ elsewhere. v)

pub reduce_history_failed-IsScoped :
    (state : ChatClientState) (failure : WorkspaceClientErrorState)
    → IsScoped (scope state)
    → IsScoped (scope (reduce_history_failed state failure))
unfolding reduce_history_failed
reduce_history_failed-IsScoped state failure v =
    if_holds (λ s. IsScoped (scope s)) (is_id failure.workspace_id state.selected_workspace_id)
      (λ here. record {
        shown_here = v.shown_here;
        items_here = v.items_here;
        pending_here = λ w e. absurd (none-ne-some w e);
        failure_here = λ e h.
            is_id-some failure.workspace_id state.selected_workspace_id here
            ∙ ap (λ (x : WorkspaceClientErrorState). some x.workspace_id)
                (some-injective failure e h);
      })
      (λ elsewhere. v)

pub reduce_history-IsScoped :
    (state : ChatClientState) (workspace : Text) (listed : List ConversationSummary)
    → IsScoped (scope state)
    → IsScoped (scope (reduce_history state workspace listed))
unfolding reduce_history
reduce_history-IsScoped state workspace listed v =
    if_holds (λ s. IsScoped (scope s))
      (not (is_id workspace state.selected_workspace_id) || not (all_in workspace listed))
      (λ refused. v)
      (λ accepted.
        let here = is_id-some workspace state.selected_workspace_id (ground (arith, accepted)) in
        record {
          shown_here = λ w e. here ∙ e;
          items_here =
              subst (λ selected. all_of selected listed ≡ true) (sym here)
                (all_of-all_in workspace listed (ground (arith, accepted)));
          pending_here = λ w e. absurd (none-ne-some w e);
          failure_here = λ e h. absurd (none-ne-some e h);
        })

pub delete_conversation-IsScoped :
    (state : ChatClientState) (id : Text)
    → IsScoped (scope state)
    → IsScoped (scope (delete_conversation state id))
unfolding delete_conversation
delete_conversation-IsScoped state id v = record {
  shown_here = v.shown_here;
  items_here =
      all_of-keep state.selected_workspace_id (λ item. not (text_eq item.id id)) state.history
        v.items_here;
  pending_here = v.pending_here;
  failure_here = v.failure_here;
}
