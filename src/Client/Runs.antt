-- ===== src/Client/Runs.antt =====
-- The runs of jobs that the client holds: their revisions do not go back.
mod Tests
use chatwca.Prelude.{
  Bool, Bool-cases, List, Option, Option-cases, [], ap, arith, false, if_holds, if◌then◌else◌, inl,
  inr, some, subst, sym, ◌∙◌, ◌∷◌, ◌≡◌, ◌≤◌, ◌⊎◌,
}
use chatwca.Prelude.Text.{Text, text_eq}
use chatwca.Prelude.Text.Equality.{text_eq_iff}
use chatwca.Prelude.ObjectMap.{ObjectMap, lookup, put}
use chatwca.Prelude.ObjectMap.Laws.{lookup-put}
use chatwca.Protocol.JobRuns.{JobRunSummary, JobRunState}
use chatwca.Client.State.{ChatClientState, job_run_state, job_run_updated, job_runs_listed}
use chatwca.Client.JobRuns.{
  is_older, observe_runs, reduce_job_runs, reduce_job_run_state, reduce_job_run_updated,
}
use chatwca.Client.Reducer.{reduce_chat_client_state}

-- Every run that was held is held with a revision that is not lower.
abbrev pub Advances : ObjectMap JobRunSummary → ObjectMap JobRunSummary → Type 0
Advances runs next =
    (id : Text) (before : JobRunSummary)
    → lookup id runs ≡ some before
    → (after : JobRunSummary) × (lookup id next ≡ some after) × (before.revision ≤ after.revision)

Advances-refl : (runs : ObjectMap JobRunSummary) → Advances runs runs
Advances-refl runs id before h = (before, h, omega arith)

Advances-trans : (a b c : ObjectMap JobRunSummary) → Advances a b → Advances b c → Advances a c
Advances-trans a b c h k id before found =
    let (middle, found', le) = h id before found in
    let (after, found'', le') = k id middle found' in (after, found'', omega (arith, le, le'))

put-Advances :
    (runs : ObjectMap JobRunSummary) (run : JobRunSummary)
    → ((current : JobRunSummary)
        → lookup run.id runs ≡ some current
        → current.revision ≤ run.revision)
    → Advances runs (put run.id run runs)
put-Advances runs run newer id before found = elim (Bool-cases (text_eq run.id id)) [
  | inl same ↦ (
    run,
    ground (arith, lookup-put id run.id run runs, same),
    newer before (ap (λ k. lookup k runs) ((text_eq_iff run.id id).0 same) ∙ found),
  )
  | inr differs ↦
      (before, ground (arith, lookup-put id run.id run runs, differs, found), omega arith)
]

not_older :
    (run current : JobRunSummary) (held : Option JobRunSummary)
    → is_older run held ≡ false
    → held ≡ some current
    → current.revision ≤ run.revision
not_older run current held h e = ground (arith, h, e)

observe_runs-Advances :
    (runs : ObjectMap JobRunSummary) (listed : List JobRunSummary)
    → Advances runs (observe_runs runs listed)
unfolding observe_runs
observe_runs-Advances runs [] = Advances-refl runs
observe_runs-Advances runs (run ∷ rest) =
    let next = if is_older run (lookup run.id runs) then runs else put run.id run runs in
    Advances-trans runs next (observe_runs next rest)
      (if_holds (Advances runs) (is_older run (lookup run.id runs)) (λ older. Advances-refl runs)
        (λ newer. put-Advances runs run (λ current. not_older run current _ newer)))
      (observe_runs-Advances next rest)

reduce_job_runs-Advances :
    (state : ChatClientState) (job : Option Text) (runs : List JobRunSummary) (cursor : Option Text)
    (append : Bool)
    → Advances state.job_runs (reduce_job_runs state job runs cursor append).job_runs
unfolding reduce_job_runs
reduce_job_runs-Advances state job runs cursor append =
    subst (Advances state.job_runs) {x = observe_runs state.job_runs runs} (ground arith)
      (observe_runs-Advances state.job_runs runs)

reduce_job_run_state-Advances :
    (state : ChatClientState) (run : JobRunState)
    → Advances state.job_runs (reduce_job_run_state state run).job_runs
unfolding reduce_job_run_state
reduce_job_run_state-Advances state run =
    let summary = run.summary in
    if_holds (λ (s : ChatClientState). Advances state.job_runs s.job_runs)
      (is_older summary (lookup summary.id state.job_runs)) (λ older. Advances-refl state.job_runs)
      (λ newer. put-Advances state.job_runs summary (λ current. not_older summary current _ newer))

updated-cases :
    (state : ChatClientState) (run : JobRunSummary)
    → ((reduce_job_run_updated state run).job_runs ≡ state.job_runs)
      ⊎ (((reduce_job_run_updated state run).job_runs ≡ put run.id run state.job_runs)
          × (is_older run (lookup run.id state.job_runs) ≡ false))
unfolding reduce_job_run_updated
updated-cases state run = elim (Option-cases (lookup run.id state.job_runs)) [
  | inl absent ↦ inr (ground (arith, absent), ground (arith, absent))
  | inr (current, held) ↦ ground (arith, held)
]

reduce_job_run_updated-Advances :
    (state : ChatClientState) (run : JobRunSummary)
    → Advances state.job_runs (reduce_job_run_updated state run).job_runs
reduce_job_run_updated-Advances state run = elim (updated-cases state run) [
  | inl same ↦ subst (Advances state.job_runs) (sym same) (Advances-refl state.job_runs)
  | inr (taken, newer) ↦
      subst (Advances state.job_runs) (sym taken)
        (put-Advances state.job_runs run (λ current. not_older run current _ newer))
]

-- A list of runs, the state of a run and an update of a run keep every run that the client holds,
-- each at a revision that is not lower than before.
pub reduce-Advances :
    (state : ChatClientState) (job : Option Text) (runs : List JobRunSummary) (cursor : Option Text)
    (append : Bool) (full : JobRunState) (run : JobRunSummary)
    → Advances state.job_runs
        (reduce_chat_client_state state (job_runs_listed job runs cursor append)).job_runs
      × Advances state.job_runs (reduce_chat_client_state state (job_run_state full)).job_runs
      × Advances state.job_runs (reduce_chat_client_state state (job_run_updated run)).job_runs
unfolding reduce_chat_client_state
reduce-Advances state job runs cursor append full run = (
  reduce_job_runs-Advances state job runs cursor append,
  reduce_job_run_state-Advances state full,
  reduce_job_run_updated-Advances state run,
)
