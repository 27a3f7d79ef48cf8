-- ===== src/Client/JobRuns.antt =====
-- src/web/src/api/state.ts, the actions on jobs and their runs.
use chatwca.Prelude.{
  Bool, List, Option, [], false, if◌then◌else◌, is_some, keep, leb, ltb, map, none, not, some, true,
  ◌++◌, ◌+◌, ◌==◌, ◌∷◌,
}
use chatwca.Prelude.Text.{Text, text_eq}
use chatwca.Prelude.ObjectMap.{ObjectMap, lookup, put, keep_entries}
use chatwca.Protocol.JobRuns.{JobSummary, JobRunSummary, JobRunState}
use chatwca.Client.State.{ChatClientState, JobRunPageState, has_id, drop_id, same_id}

-- The key of a run to resynchronise: its job's identifier, a NUL and its own.
abbrev pub run_key : JobRunSummary → Text
run_key run = run.job_id ++ (0 ∷ run.id)

-- `key.slice(0, key.indexOf("\0"))`, where there is a NUL.
abbrev pub before_nul : Text → Option Text
before_nul [] = none
before_nul (c ∷ cs) = elim (c == 0) [
  | true ↦ some []
  | false ↦ elim (before_nul cs) [ none ↦ none | some before ↦ some (c ∷ before) ]
]

abbrev pub job_ids : List JobSummary → List Text
job_ids = map (λ job. job.id)

abbrev pub is_retained : List Text → Option Text → Bool
is_retained ids none = false
is_retained ids (some id) = has_id id ids

unfoldable pub reduce_jobs : ChatClientState → List JobSummary → ChatClientState
unfolding keep_entries text_eq
reduce_jobs state jobs =
    let ids = job_ids jobs in
    let selected = if is_retained ids state.selected_job_id then state.selected_job_id else none in
    record state {
      jobs = jobs;
      job_runs = keep_entries (λ id (run : JobRunSummary). has_id run.job_id ids) state.job_runs;
      job_run_details =
          keep_entries (λ id (run : JobRunState). has_id run.summary.job_id ids)
            state.job_run_details;
      job_run_pages =
          keep_entries (λ id (page : JobRunPageState). has_id id ids) state.job_run_pages;
      selected_job_id = selected;
      selected_job_run_id = if is_some selected then state.selected_job_run_id else none;
      resync_job_run_ids = keep (λ key. is_retained ids (before_nul key)) state.resync_job_run_ids;
    }

-- A run is taken over unless a later revision of it is held.
abbrev pub is_older : JobRunSummary → Option JobRunSummary → Bool
is_older run none = false
is_older run (some current) = ltb run.revision current.revision

unfoldable pub observe_runs : ObjectMap JobRunSummary → List JobRunSummary → ObjectMap JobRunSummary
unfolding lookup put
observe_runs runs [] = runs
observe_runs runs (run ∷ rest) =
    observe_runs (if is_older run (lookup run.id runs) then runs else put run.id run runs) rest

abbrev pub run_ids_of : List JobRunSummary → List Text
run_ids_of = map (λ run. run.id)

-- `[...new Set(ids)]`.
unfoldable pub unique : List Text → List Text
unfolding text_eq
unique [] = []
unique (id ∷ ids) = id ∷ drop_id id (unique ids)

abbrev pub page_ids : Option JobRunPageState → List Text
page_ids none = []
page_ids (some page) = page.run_ids

abbrev pub first_job_id : Option Text → List JobRunSummary → Option Text
first_job_id (some id) runs = some id
first_job_id none [] = none
first_job_id none (run ∷ runs) = some run.job_id

abbrev pub with_page : ChatClientState → Text → JobRunPageState → ChatClientState
unfolding put
with_page state id page = record state { job_run_pages = put id page state.job_run_pages }

unfoldable pub reduce_job_runs :
    ChatClientState → Option Text → List JobRunSummary → Option Text → Bool → ChatClientState
unfolding observe_runs unique with_page lookup put
reduce_job_runs state job runs cursor append =
    let observed = record state { job_runs = observe_runs state.job_runs runs } in
    elim (first_job_id job runs) [
      | none ↦ observed
      | some id ↦
          let ids =
            if append
            then unique (page_ids (lookup id state.job_run_pages) ++ run_ids_of runs)
            else run_ids_of runs in
          with_page observed id (record { run_ids = ids; next_cursor = cursor; loading = false })
    ]

abbrev pub pending_page : Option JobRunPageState → JobRunPageState
pending_page none = record { run_ids = []; next_cursor = none; loading = true }
pending_page (some page) = record page { loading = true }

unfoldable pub reduce_job_runs_pending : ChatClientState → Text → ChatClientState
unfolding with_page lookup put
reduce_job_runs_pending state id = with_page state id (pending_page (lookup id state.job_run_pages))

unfoldable pub reduce_job_runs_failed : ChatClientState → Text → ChatClientState
unfolding with_page lookup put
reduce_job_runs_failed state id = elim (lookup id state.job_run_pages) [
  | none ↦ state
  | some page ↦ if page.loading then with_page state id (record page { loading = false }) else state
]

unfoldable pub select_job : ChatClientState → Option Text → ChatClientState
unfolding text_eq
select_job state id = record state {
  selected_job_id = id;
  selected_job_run_id =
      if same_id id state.selected_job_id then state.selected_job_run_id else none;
}

-- The map of runs holds the full state of the run as its summary.
unfoldable pub reduce_job_run_state : ChatClientState → JobRunState → ChatClientState
unfolding lookup put text_eq
reduce_job_run_state state run =
    let summary = run.summary in
    if is_older summary (lookup summary.id state.job_runs) then state else record state {
      job_runs = put summary.id summary state.job_runs;
      job_run_details = put summary.id run state.job_run_details;
      resync_job_run_ids = drop_id (run_key summary) state.resync_job_run_ids;
    }

abbrev pub with_detail :
    JobRunSummary → Option JobRunState → ObjectMap JobRunState → ObjectMap JobRunState
unfolding put
with_detail run none details = details
with_detail run (some detail) details = put run.id (record detail { summary = run }) details

abbrev pub request_run_resync : ChatClientState → Text → ChatClientState
request_run_resync state key =
    if has_id key state.resync_job_run_ids
    then state
    else record state { resync_job_run_ids = state.resync_job_run_ids ++ (key ∷ []) }

abbrev pub take_update : ChatClientState → JobRunSummary → ChatClientState
unfolding put lookup with_detail
take_update state run = record state {
  job_runs = put run.id run state.job_runs;
  job_run_details = with_detail run (lookup run.id state.job_run_details) state.job_run_details;
}

unfoldable pub reduce_job_run_updated : ChatClientState → JobRunSummary → ChatClientState
unfolding lookup take_update text_eq
reduce_job_run_updated state run = elim (lookup run.id state.job_runs) [
  | none ↦ take_update state run
  | some current ↦
      if leb run.revision current.revision
      then state
      else if not (run.revision == current.revision + 1)
      then request_run_resync state (run_key run)
      else take_update state run
]
