-- ===== src/Protocol/JobRuns.antt =====
-- src/shared/jobs.ts, the runs of a job as the server reports them.
use chatwca.Prelude.{Bool, Option, ℕ}
use chatwca.Prelude.Text.{Text}

pub data JobRunTrigger : Type 0 where
  scheduled manual catch_up : JobRunTrigger

pub data JobRunStatus : Type 0 where
  queued running succeeded failed blocked skipped aborted interrupted : JobRunStatus

pub data JobRunPhase : Type 0 where
  pre_hook prompt post_hook : JobRunPhase

pub record JobRunSummary : Type 0 where
  pub id : Text
  pub job_id : Text
  pub trigger : JobRunTrigger
  pub scheduled_for : ℕ
  pub started_at : Option ℕ
  pub finished_at : Option ℕ
  pub status : JobRunStatus
  pub phase : Option JobRunPhase
  pub error_code : Option Text
  pub error_message : Option Text
  pub conversation_id : Option Text
  pub revision : ℕ
  pub created_at : ℕ
  pub updated_at : ℕ

-- What the full state of a run has beside the summary's fields.
pub record Diagnostics : Type 0 where
  pub pre_exit_code : Option Text
  pub pre_stdout : Option Text
  pub pre_stderr : Option Text
  pub post_exit_code : Option Text
  pub post_stdout : Option Text
  pub post_stderr : Option Text
  pub conversation_available : Bool

pub record JobRunState : Type 0 where
  pub summary : JobRunSummary
  pub diagnostics : Diagnostics

-- Of a job's definition the client's state reads the identity.
pub record JobSummary : Type 0 where
  pub id : Text
  pub definition : Text
