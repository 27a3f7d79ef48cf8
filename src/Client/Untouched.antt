-- ===== src/Client/Untouched.antt =====
-- The actions on jobs and on workspaces leave the conversations.
use chatwca.Prelude.{Bool, List, Option, arith, ◌≡◌}
use chatwca.Prelude.Text.{Text}
use chatwca.Protocol.JobRuns.{JobRunSummary, JobRunState}
use chatwca.Protocol.Conversations.{WorkspaceSummary}
use chatwca.Client.State.{ChatClientState, WorkspaceClientErrorState}
use chatwca.Client.JobRuns.{
  reduce_job_runs, reduce_job_runs_failed, reduce_job_run_state, reduce_job_run_updated,
}
use chatwca.Client.Workspaces.{
  reduce_workspaces, select_workspace, reduce_history_pending, reduce_history_failed,
}

abbrev pub SameConversations : ChatClientState → ChatClientState → Type 0
SameConversations next state = next.conversations ≡ state.conversations

pub reduce_job_runs-SameConversations :
    (state : ChatClientState) (job : Option Text) (runs : List JobRunSummary) (cursor : Option Text)
    (append : Bool)
    → SameConversations (reduce_job_runs state job runs cursor append) state
unfolding reduce_job_runs
reduce_job_runs-SameConversations state job runs cursor append = ground arith

pub reduce_job_runs_failed-SameConversations :
    (state : ChatClientState) (id : Text)
    → SameConversations (reduce_job_runs_failed state id) state
unfolding reduce_job_runs_failed
reduce_job_runs_failed-SameConversations state id = ground arith

pub reduce_job_run_state-SameConversations :
    (state : ChatClientState) (run : JobRunState)
    → SameConversations (reduce_job_run_state state run) state
unfolding reduce_job_run_state
reduce_job_run_state-SameConversations state run = ground arith

pub reduce_job_run_updated-SameConversations :
    (state : ChatClientState) (run : JobRunSummary)
    → SameConversations (reduce_job_run_updated state run) state
unfolding reduce_job_run_updated
reduce_job_run_updated-SameConversations state run = ground arith

pub reduce_workspaces-SameConversations :
    (state : ChatClientState) (workspaces : List WorkspaceSummary)
    → SameConversations (reduce_workspaces state workspaces) state
unfolding reduce_workspaces
reduce_workspaces-SameConversations state workspaces = ground arith

pub select_workspace-SameConversations :
    (state : ChatClientState) (id : Option Text)
    → SameConversations (select_workspace state id) state
unfolding select_workspace
select_workspace-SameConversations state id = ground arith

pub reduce_history_pending-SameConversations :
    (state : ChatClientState) (id : Text)
    → SameConversations (reduce_history_pending state id) state
unfolding reduce_history_pending
reduce_history_pending-SameConversations state id = ground arith

pub reduce_history_failed-SameConversations :
    (state : ChatClientState) (failure : WorkspaceClientErrorState)
    → SameConversations (reduce_history_failed state failure) state
unfolding reduce_history_failed
reduce_history_failed-SameConversations state failure = ground arith
