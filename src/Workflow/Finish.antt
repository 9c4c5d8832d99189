-- ===== src/Workflow/Finish.antt =====
-- `_check_workflow_complete`: the only place where a run becomes COMPLETED, FAILED or CANCELLED.
use multi_agent_ai_platform.Base.{
  ℕ, Bool, not, ◌&&◌, ◌||◌, Option, none, some, List, if◌then◌else◌, exists_where,
}
use multi_agent_ai_platform.Schema.{
  RunStatus, NodeStatus, WorkflowRun, NodeRun, EventType, workflow_completed, workflow_failed,
  workflow_cancelled, Db, is_run, is_node,
}
use multi_agent_ai_platform.Workflow.Store.{
  is_dispatchable, is_active_node, is_terminal_node, fresh_run, fresh_node_runs, latest_by_node,
  cas_run, event, emit_event,
}

abbrev pub is_finalizable : RunStatus → Bool
is_finalizable status = is_dispatchable status || is_run status RunStatus.cancelling

abbrev pub any_active : List NodeRun → Bool
any_active latest = exists_where (λ nr. is_active_node nr.status) latest

abbrev pub any_failed : List NodeRun → Bool
any_failed latest = exists_where (λ nr. is_node nr.status NodeStatus.failed) latest

abbrev pub any_unfinished : List NodeRun → Bool
any_unfinished latest = exists_where (λ nr. not (is_terminal_node nr.status)) latest

-- The status to finalize with, and the event to record; `none` is a return with nothing done.
unfoldable pub final_status : RunStatus → List NodeRun → Option (RunStatus × EventType)
final_status observed latest =
    if any_active latest
    then none
    else if not (any_failed latest) && any_unfinished latest
    then none
    else if any_failed latest
    then some (RunStatus.failed, workflow_failed)
    else if is_run observed RunStatus.cancelling
    then some (RunStatus.cancelled, workflow_cancelled)
    else some (RunStatus.completed, workflow_completed)

abbrev pub end_run : ℕ → RunStatus → WorkflowRun → WorkflowRun
end_run now target run = record run { status = target; ended_at = some now }

-- The write and its evidence.
unfoldable pub finalize : ℕ → WorkflowRun → Option (RunStatus × EventType) → Db → Db
finalize now run none db = db
finalize now run (some (target, event_type)) db =
    let (after, won) = cas_run run.id run.status (end_run now target) db in
    if won then emit_event (event event_type run none) after else after

unfoldable pub check_workflow_complete : ℕ → ℕ → Db → Db
check_workflow_complete now run_id db = elim (fresh_run run_id db) [
  | none ↦ db
  | some run ↦
      if is_finalizable run.status
      then finalize now run (final_status run.status (latest_by_node (fresh_node_runs run_id db)))
          db
      else db
]
