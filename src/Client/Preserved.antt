-- ===== src/Client/Preserved.antt =====
-- A property of every projection through any sequence of actions.
use chatwca.Prelude.{List, [], arith, subst, sym, ◌∷◌}
use chatwca.Client.State.{
  ChatClientState, ChatClientAction, connection_changed, conversation_closed, conversation_deleted,
  conversation_selected, draft_changed, draft_deleted, error_shown, event_received, history_failed,
  history_listed, history_pending, job_run_selected, job_run_state, job_run_updated,
  job_runs_failed, job_runs_listed, job_runs_pending, job_selected, jobs_listed,
  network_blocked_dismissed, ready, snapshot_received, workspace_selected, workspaces_listed,
}
use chatwca.Prelude.Text.{Text}
use chatwca.Client.Reducer.{reduce_all, reduce_chat_client_state}
use chatwca.Prelude.ObjectMap.Laws.{Every}
use chatwca.Client.Projection.{ConversationProjection}
use chatwca.Client.Every.{
  SnapshotAllows, EventAllows, DismissAllows, HistoryAllows, reduce_event-Every,
  reduce_snapshot-Every, dismiss_blocked-Every, reduce_history-Every, close_conversation-Every,
  delete_conversation-Every,
}
use chatwca.Client.Untouched.{
  SameConversations, reduce_history_failed-SameConversations,
  reduce_history_pending-SameConversations, reduce_job_run_state-SameConversations,
  reduce_job_run_updated-SameConversations, reduce_job_runs-SameConversations,
  reduce_job_runs_failed-SameConversations, reduce_workspaces-SameConversations,
  select_workspace-SameConversations,
}

draft_deleted-SameConversations :
    (state : ChatClientState) (id : Text)
    → SameConversations (reduce_chat_client_state state (draft_deleted id)) state
unfolding reduce_chat_client_state
draft_deleted-SameConversations state id = ground arith

module _ (P : Text → ConversationProjection → Type 0) where
  abbrev pub Allows : ChatClientAction → Type 0
  Allows (snapshot_received conversation) = SnapshotAllows P conversation
  Allows (event_received received) = EventAllows P received
  Allows (network_blocked_dismissed id) = DismissAllows P id
  Allows (history_listed workspace listed) = HistoryAllows P listed
  Allows _ = Unit {0}

  pub reduce-Every :
      (state : ChatClientState) (action : ChatClientAction)
      → Allows action
      → Every P state.conversations
      → Every P (reduce_chat_client_state state action).conversations
  unfolding reduce_chat_client_state
  reduce-Every state (connection_changed status) h v = v
  reduce-Every state (ready version) h v = v
  reduce-Every state (workspaces_listed workspaces) h v =
      subst (Every P) (sym (reduce_workspaces-SameConversations state workspaces)) v
  reduce-Every state (jobs_listed jobs) h v = v
  reduce-Every state (job_runs_listed job runs cursor append) h v =
      subst (Every P) (sym (reduce_job_runs-SameConversations state job runs cursor append)) v
  reduce-Every state (job_runs_pending id) h v = v
  reduce-Every state (job_runs_failed id) h v =
      subst (Every P) (sym (reduce_job_runs_failed-SameConversations state id)) v
  reduce-Every state (job_selected id) h v = v
  reduce-Every state (job_run_selected id) h v = v
  reduce-Every state (job_run_state run) h v =
      subst (Every P) (sym (reduce_job_run_state-SameConversations state run)) v
  reduce-Every state (job_run_updated run) h v =
      subst (Every P) (sym (reduce_job_run_updated-SameConversations state run)) v
  reduce-Every state (workspace_selected id) h v =
      subst (Every P) (sym (select_workspace-SameConversations state id)) v
  reduce-Every state (history_pending id) h v =
      subst (Every P) (sym (reduce_history_pending-SameConversations state id)) v
  reduce-Every state (history_failed failure) h v =
      subst (Every P) (sym (reduce_history_failed-SameConversations state failure)) v
  reduce-Every state (history_listed workspace listed) h v =
      reduce_history-Every P state workspace listed h v
  reduce-Every state (snapshot_received conversation) h v =
      reduce_snapshot-Every P state conversation h v
  reduce-Every state (event_received received) h v = reduce_event-Every P state received h v
  reduce-Every state (conversation_selected id) h v = v
  reduce-Every state (network_blocked_dismissed id) h v = dismiss_blocked-Every P state id h v
  reduce-Every state (conversation_closed id) h v = close_conversation-Every P state id v
  reduce-Every state (conversation_deleted id) h v = delete_conversation-Every P state id v
  reduce-Every state (draft_changed id draft) h v = v
  reduce-Every state (draft_deleted id) h v =
      subst (Every P) (sym (draft_deleted-SameConversations state id)) v
  reduce-Every state (error_shown shown) h v = v

  abbrev pub AllAllow : List ChatClientAction → Type 0
  AllAllow [] = Unit {0}
  AllAllow (action ∷ actions) = Allows action × AllAllow actions

  pub reduce_all-Every :
      (actions : List ChatClientAction) (state : ChatClientState)
      → AllAllow actions
      → Every P state.conversations
      → Every P (reduce_all state actions).conversations
  reduce_all-Every [] state h v = v
  reduce_all-Every (action ∷ actions) state (h, hs) v =
      reduce_all-Every actions (reduce_chat_client_state state action) hs
        (reduce-Every state action h v)
