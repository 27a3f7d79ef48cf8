-- ===== src/Client/State.antt =====
-- src/web/src/api/state.ts, `ChatClientState` and its parts.
use chatwca.Prelude.{Bool, List, Option, [], any, false, keep, none, not, some, true, ℕ, ◌==◌}
use chatwca.Prelude.Text.{Text, text_eq}
use chatwca.Prelude.ObjectMap.{ObjectMap}
use chatwca.Protocol.Conversations.{ConversationSummary, WorkspaceSummary, ConversationState}
use chatwca.Protocol.Events.{ConversationEvent}
use chatwca.Protocol.JobRuns.{JobSummary, JobRunSummary, JobRunState}
use chatwca.Client.Projection.{ConversationProjection}

pub data ConnectionStatus : Type 0 where
  connecting connected reconnecting disconnected : ConnectionStatus

-- An error object. `===` compares the identities of objects.
pub record ClientErrorState : Type 0 where
  pub identity : ℕ
  pub code : Text
  pub message : Text

pub record WorkspaceClientErrorState : Type 0 where
  pub workspace_id : Text
  pub error : ClientErrorState

pub record JobRunPageState : Type 0 where
  pub run_ids : List Text
  pub next_cursor : Option Text
  pub loading : Bool

pub record ChatClientState : Type 0 where
  pub connection : ConnectionStatus
  pub server_version : Option Text
  pub workspaces : List WorkspaceSummary
  pub jobs : List JobSummary
  pub job_runs : ObjectMap JobRunSummary
  pub job_run_details : ObjectMap JobRunState
  pub job_run_pages : ObjectMap JobRunPageState
  pub resync_job_run_ids : List Text
  pub selected_job_id : Option Text
  pub selected_job_run_id : Option Text
  pub selected_workspace_id : Option Text
  pub history_workspace_id : Option Text
  pub history : List ConversationSummary
  pub pending_history_workspace_id : Option Text
  pub history_error : Option WorkspaceClientErrorState
  pub conversations : ObjectMap ConversationProjection
  pub selected_conversation_id : Option Text
  pub drafts : ObjectMap Text
  pub resync_conversation_ids : List Text
  pub last_error : Option ClientErrorState

unfoldable pub create_initial_chat_client_state : ChatClientState
create_initial_chat_client_state = record {
  connection = disconnected;
  server_version = none;
  workspaces = [];
  jobs = [];
  job_runs = [];
  job_run_details = [];
  job_run_pages = [];
  resync_job_run_ids = [];
  selected_job_id = none;
  selected_job_run_id = none;
  selected_workspace_id = none;
  history_workspace_id = none;
  history = [];
  pending_history_workspace_id = none;
  history_error = none;
  conversations = [];
  selected_conversation_id = none;
  drafts = [];
  resync_conversation_ids = [];
  last_error = none;
}

pub data ChatClientAction : Type 0 where
  connection_changed : ConnectionStatus → ChatClientAction
  ready : Text → ChatClientAction
  workspaces_listed : List WorkspaceSummary → ChatClientAction
  jobs_listed : List JobSummary → ChatClientAction
  job_runs_listed : Option Text → List JobRunSummary → Option Text → Bool → ChatClientAction
  job_runs_pending job_runs_failed : Text → ChatClientAction
  job_selected job_run_selected : Option Text → ChatClientAction
  job_run_state : JobRunState → ChatClientAction
  job_run_updated : JobRunSummary → ChatClientAction
  workspace_selected : Option Text → ChatClientAction
  history_pending : Text → ChatClientAction
  history_failed : WorkspaceClientErrorState → ChatClientAction
  history_listed : Text → List ConversationSummary → ChatClientAction
  snapshot_received : ConversationState → ChatClientAction
  event_received : ConversationEvent → ChatClientAction
  conversation_selected : Option Text → ChatClientAction
  network_blocked_dismissed conversation_closed conversation_deleted : Text → ChatClientAction
  draft_changed : Text → Text → ChatClientAction
  draft_deleted : Text → ChatClientAction
  error_shown : Option ClientErrorState → ChatClientAction

-- `===` of two identifiers that may be null, and of two errors that may be null.
abbrev pub same_id : Option Text → Option Text → Bool
same_id none none = true
same_id (some a) (some b) = text_eq a b
same_id _ _ = false

abbrev pub is_id : Text → Option Text → Bool
is_id id none = false
is_id id (some other_id) = text_eq id other_id

abbrev pub same_error : Option ClientErrorState → Option WorkspaceClientErrorState → Bool
same_error none none = true
same_error (some a) (some b) = a.identity == b.error.identity
same_error _ _ = false

abbrev pub has_id : Text → List Text → Bool
has_id id ids = any (λ x. text_eq x id) ids

abbrev pub drop_id : Text → List Text → List Text
drop_id id ids = keep (λ x. not (text_eq x id)) ids
