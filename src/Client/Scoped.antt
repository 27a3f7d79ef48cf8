-- ===== src/Client/Scoped.antt =====
-- Whatever the actions: the history, what is awaited and what has failed belong to the workspace that
-- is selected.
use chatwca.Prelude.{
  Bool, List, Option, [], ap, arith, inl, inr, none, refl, subst, sym, ◌∙◌, ◌∷◌, ◌≡◌,
}
use chatwca.Prelude.Text.{Text}
use chatwca.Protocol.Conversations.{ConversationState}
use chatwca.Protocol.Events.{ConversationEvent}
use chatwca.Protocol.JobRuns.{JobRunSummary, JobRunState}
use chatwca.Client.Projection.{ConversationProjection, apply_to_projection}
use chatwca.Client.State.{
  ChatClientState, ChatClientAction, create_initial_chat_client_state, connection_changed,
  conversation_closed, conversation_deleted, conversation_selected, draft_changed, draft_deleted,
  error_shown, event_received, history_failed, history_listed, history_pending, job_run_selected,
  job_run_state, job_run_updated, job_runs_failed, job_runs_listed, job_runs_pending, job_selected,
  jobs_listed, network_blocked_dismissed, ready, snapshot_received, workspace_selected,
  workspaces_listed,
}
use chatwca.Client.Conversations.{
  replace_conversation, request_resync, reduce_event, reduce_snapshot, dismiss_blocked,
  close_conversation,
}
use chatwca.Client.JobRuns.{
  reduce_job_runs, reduce_job_runs_failed, reduce_job_run_state, reduce_job_run_updated,
}
use chatwca.Client.Cases.{reduce_event-cases, reduce_snapshot-cases, dismiss_blocked-cases}
use chatwca.Client.Reducer.{reduce_chat_client_state, reduce_all}
use chatwca.Client.Scope.{
  scope, IsScoped, cleared, delete_conversation-IsScoped, reduce_history-IsScoped,
  reduce_history_failed-IsScoped, reduce_history_pending-IsScoped, reduce_workspaces-IsScoped,
  select_workspace-IsScoped,
}

reduce_job_runs-scope :
    (state : ChatClientState) (job : Option Text) (runs : List JobRunSummary) (cursor : Option Text)
    (append : Bool)
    → scope (reduce_job_runs state job runs cursor append) ≡ scope state
unfolding reduce_job_runs
reduce_job_runs-scope state job runs cursor append = ground arith

reduce_job_runs_failed-scope :
    (state : ChatClientState) (id : Text) → scope (reduce_job_runs_failed state id) ≡ scope state
unfolding reduce_job_runs_failed
reduce_job_runs_failed-scope state id = ground arith

reduce_job_run_state-scope :
    (state : ChatClientState) (run : JobRunState)
    → scope (reduce_job_run_state state run) ≡ scope state
unfolding reduce_job_run_state
reduce_job_run_state-scope state run = ground arith

reduce_job_run_updated-scope :
    (state : ChatClientState) (run : JobRunSummary)
    → scope (reduce_job_run_updated state run) ≡ scope state
unfolding reduce_job_run_updated
reduce_job_run_updated-scope state run = ground arith

request_resync-scope :
    (state : ChatClientState) (id : Text) → scope (request_resync state id) ≡ scope state
unfolding request_resync
request_resync-scope state id = ground arith

close_conversation-scope :
    (state : ChatClientState) (id : Text) → scope (close_conversation state id) ≡ scope state
unfolding close_conversation
close_conversation-scope state id = ground arith

replace_conversation-scope :
    (state : ChatClientState) (p : ConversationProjection)
    → scope (replace_conversation state p) ≡ scope state
unfolding replace_conversation
replace_conversation-scope state p = refl

reduce_event-scope :
    (state : ChatClientState) (received : ConversationEvent)
    → scope (reduce_event state received) ≡ scope state
reduce_event-scope state received = elim (reduce_event-cases state received) [
  | inl same ↦ ap scope same
  | inr (inl gap) ↦ ap scope gap ∙ request_resync-scope state received.conversation_id
  | inr (inr (current, _, _, _, applied)) ↦
      ap scope applied ∙ replace_conversation-scope state (apply_to_projection current received)
]

reduce_snapshot-scope :
    (state : ChatClientState) (conversation : ConversationState)
    → scope (reduce_snapshot state conversation) ≡ scope state
reduce_snapshot-scope state conversation = elim (reduce_snapshot-cases state conversation) [
  | inl same ↦ ap scope same
  | inr (_, (p, _, taken)) ↦ ap scope taken ∙ replace_conversation-scope state p
]

dismiss_blocked-scope :
    (state : ChatClientState) (id : Text) → scope (dismiss_blocked state id) ≡ scope state
dismiss_blocked-scope state id = elim (dismiss_blocked-cases state id) [
  | inl same ↦ ap scope same
  | inr (current, _, dismissed) ↦
      ap scope dismissed
      ∙ replace_conversation-scope state (record current { network_blocked = [] })
]

draft_deleted-scope :
    (state : ChatClientState) (id : Text)
    → scope (reduce_chat_client_state state (draft_deleted id)) ≡ scope state
unfolding reduce_chat_client_state
draft_deleted-scope state id = ground arith

reduce-IsScoped :
    (state : ChatClientState) (action : ChatClientAction)
    → IsScoped (scope state)
    → IsScoped (scope (reduce_chat_client_state state action))
unfolding reduce_chat_client_state
reduce-IsScoped state (connection_changed status) v = v
reduce-IsScoped state (ready version) v = v
reduce-IsScoped state (workspaces_listed workspaces) v =
    reduce_workspaces-IsScoped state workspaces v
reduce-IsScoped state (jobs_listed jobs) v = v
reduce-IsScoped state (job_runs_listed job runs cursor append) v =
    subst IsScoped (sym (reduce_job_runs-scope state job runs cursor append)) v
reduce-IsScoped state (job_runs_pending id) v = v
reduce-IsScoped state (job_runs_failed id) v =
    subst IsScoped (sym (reduce_job_runs_failed-scope state id)) v
reduce-IsScoped state (job_selected id) v = v
reduce-IsScoped state (job_run_selected id) v = v
reduce-IsScoped state (job_run_state run) v =
    subst IsScoped (sym (reduce_job_run_state-scope state run)) v
reduce-IsScoped state (job_run_updated run) v =
    subst IsScoped (sym (reduce_job_run_updated-scope state run)) v
reduce-IsScoped state (workspace_selected id) v = select_workspace-IsScoped state id v
reduce-IsScoped state (history_pending id) v = reduce_history_pending-IsScoped state id v
reduce-IsScoped state (history_failed failure) v = reduce_history_failed-IsScoped state failure v
reduce-IsScoped state (history_listed workspace listed) v =
    reduce_history-IsScoped state workspace listed v
reduce-IsScoped state (snapshot_received conversation) v =
    subst IsScoped (sym (reduce_snapshot-scope state conversation)) v
reduce-IsScoped state (event_received received) v =
    subst IsScoped (sym (reduce_event-scope state received)) v
reduce-IsScoped state (conversation_selected id) v = v
reduce-IsScoped state (network_blocked_dismissed id) v =
    subst IsScoped (sym (dismiss_blocked-scope state id)) v
reduce-IsScoped state (conversation_closed id) v =
    subst IsScoped (sym (close_conversation-scope state id)) v
reduce-IsScoped state (conversation_deleted id) v = delete_conversation-IsScoped state id v
reduce-IsScoped state (draft_changed id draft) v = v
reduce-IsScoped state (draft_deleted id) v = subst IsScoped (sym (draft_deleted-scope state id)) v
reduce-IsScoped state (error_shown shown) v = v

kept :
    (actions : List ChatClientAction) (state : ChatClientState)
    → IsScoped (scope state)
    → IsScoped (scope (reduce_all state actions))
kept [] state v = v
kept (action ∷ actions) state v =
    kept actions (reduce_chat_client_state state action) (reduce-IsScoped state action v)

-- After any sequence of actions from the initial state, the workspace whose history is shown, the one
-- whose history is awaited and the one whose history has failed are the selected one, and every
-- conversation listed in the history is of it.
pub reduce_all-IsScoped :
    (actions : List ChatClientAction)
    → IsScoped (scope (reduce_all create_initial_chat_client_state actions))
unfolding create_initial_chat_client_state
reduce_all-IsScoped actions = kept actions create_initial_chat_client_state (cleared none)
