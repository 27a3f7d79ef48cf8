-- ===== src/Client/Reducer.antt =====
-- src/web/src/api/state.ts, `reduceChatClientState`.
use chatwca.Prelude.{List, [], none, some, ◌∷◌}
use chatwca.Prelude.Text.{text_eq}
use chatwca.Prelude.ObjectMap.{lookup, put, without, keep_entries}
use chatwca.Client.State.{
  ChatClientState, ChatClientAction, connected, connection_changed, conversation_closed,
  conversation_deleted, conversation_selected, draft_changed, draft_deleted, error_shown,
  event_received, history_failed, history_listed, history_pending, job_run_selected, job_run_state,
  job_run_updated, job_runs_failed, job_runs_listed, job_runs_pending, job_selected, jobs_listed,
  network_blocked_dismissed, ready, snapshot_received, workspace_selected, workspaces_listed,
}
use chatwca.Client.Conversations.{
  reduce_snapshot, close_conversation, delete_conversation, dismiss_blocked, reduce_event,
}
use chatwca.Client.JobRuns.{
  reduce_jobs, reduce_job_run_state, reduce_job_run_updated, reduce_job_runs,
  reduce_job_runs_failed, reduce_job_runs_pending, select_job,
}
use chatwca.Client.Workspaces.{
  reduce_history, reduce_history_failed, reduce_history_pending, reduce_workspaces,
  select_workspace,
}

unfoldable pub reduce_chat_client_state : ChatClientState → ChatClientAction → ChatClientState
unfolding put lookup keep_entries text_eq reduce_snapshot reduce_event dismiss_blocked
    close_conversation delete_conversation reduce_jobs reduce_job_runs reduce_job_runs_pending
    reduce_job_runs_failed select_job reduce_job_run_state reduce_job_run_updated reduce_workspaces
    select_workspace reduce_history_pending reduce_history_failed reduce_history
reduce_chat_client_state state (connection_changed status) = record state { connection = status }
reduce_chat_client_state state (ready version) = record state {
  connection = connected;
  server_version = some version;
  last_error = none;
}
reduce_chat_client_state state (workspaces_listed workspaces) = reduce_workspaces state workspaces
reduce_chat_client_state state (jobs_listed jobs) = reduce_jobs state jobs
reduce_chat_client_state state (job_runs_listed job runs cursor append) =
    reduce_job_runs state job runs cursor append
reduce_chat_client_state state (job_runs_pending id) = reduce_job_runs_pending state id
reduce_chat_client_state state (job_runs_failed id) = reduce_job_runs_failed state id
reduce_chat_client_state state (job_selected id) = select_job state id
reduce_chat_client_state state (job_run_selected id) = record state { selected_job_run_id = id }
reduce_chat_client_state state (job_run_state run) = reduce_job_run_state state run
reduce_chat_client_state state (job_run_updated run) = reduce_job_run_updated state run
reduce_chat_client_state state (workspace_selected id) = select_workspace state id
reduce_chat_client_state state (history_pending id) = reduce_history_pending state id
reduce_chat_client_state state (history_failed failure) = reduce_history_failed state failure
reduce_chat_client_state state (history_listed workspace listed) =
    reduce_history state workspace listed
reduce_chat_client_state state (snapshot_received conversation) = reduce_snapshot state conversation
reduce_chat_client_state state (event_received received) = reduce_event state received
reduce_chat_client_state state (conversation_selected id) = record state {
  selected_conversation_id = id;
}
reduce_chat_client_state state (network_blocked_dismissed id) = dismiss_blocked state id
reduce_chat_client_state state (conversation_closed id) = close_conversation state id
reduce_chat_client_state state (conversation_deleted id) = delete_conversation state id
reduce_chat_client_state state (draft_changed id draft) = record state {
  drafts = put id draft state.drafts;
}
reduce_chat_client_state state (draft_deleted id) = elim (lookup id state.drafts) [
  | none ↦ state
  | some draft ↦ record state { drafts = without id state.drafts }
]
reduce_chat_client_state state (error_shown shown) = record state { last_error = shown }

-- The state after a sequence of actions.
abbrev pub reduce_all : ChatClientState → List ChatClientAction → ChatClientState
reduce_all state [] = state
reduce_all state (action ∷ actions) = reduce_all (reduce_chat_client_state state action) actions
