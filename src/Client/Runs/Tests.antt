-- ===== src/Client/Runs/Tests.antt =====
-- A run of a job in src/web/src/api/state.ts at three revisions.
use chatwca.Prelude.{[], false, none, ℕ, ◌∷◌}
use chatwca.Prelude.Text.{codes}
use chatwca.Protocol.JobRuns.{JobRunSummary, JobRunState, manual, queued}
use chatwca.Client.State.{
  ChatClientState, create_initial_chat_client_state, job_runs_listed, job_run_state,
  job_run_updated,
}
use chatwca.Client.Reducer.{reduce_chat_client_state}
use chatwca.Client.Runs.{Advances, reduce-Advances}

abbrev run_at : ℕ → JobRunSummary
run_at n = record {
  id = codes "r";
  job_id = codes "j";
  trigger = manual;
  scheduled_for = 0;
  started_at = none;
  finished_at = none;
  status = queued;
  phase = none;
  error_code = none;
  error_message = none;
  conversation_id = none;
  revision = n;
  created_at = 0;
  updated_at = 0;
}

abbrev full_at : ℕ → JobRunState
full_at n = record {
  summary = run_at n;
  diagnostics = record {
    pre_exit_code = none;
    pre_stdout = none;
    pre_stderr = none;
    post_exit_code = none;
    post_stdout = none;
    post_stderr = none;
    conversation_available = false;
  };
}

abbrev with_run : ChatClientState
with_run = reduce_chat_client_state create_initial_chat_client_state (job_run_updated (run_at 3))

reduce-Advances_example :
    Advances with_run.job_runs
      (reduce_chat_client_state with_run (job_runs_listed none (run_at 2 ∷ []) none false)).job_runs
    × Advances with_run.job_runs
        (reduce_chat_client_state with_run (job_run_state (full_at 4))).job_runs
    × Advances with_run.job_runs
        (reduce_chat_client_state with_run (job_run_updated (run_at 5))).job_runs
reduce-Advances_example =
    reduce-Advances with_run none (run_at 2 ∷ []) none false (full_at 4) (run_at 5)
