-- ===== src/Workflow/Cancel.antt =====
-- Cancellation and fail-fast: `_cancel_pending_nodes`, `_close_waiting_approval_nodes`,
-- `_signal_active_agents`, `_propagate_failure`, `_fail_node_at_dispatch`, `cancel_workflow_run`.
use multi_agent_ai_platform.Base.{
  ℕ, Bool, true, false, ◌&&◌, Option, none, some, List, [], ◌∷◌, map, ◌==◌, if◌then◌else◌, is_none,
  select_where, update_where, count_where,
}
use multi_agent_ai_platform.Schema.{
  RunStatus, NodeStatus, WorkflowRun, NodeRun, AgentRun, Approval, workflow_node_run,
  workflow_cancelled, workflow_error, node_failed, node_cancelled, approval_cancelled, Db, is_run,
  is_node,
}
use multi_agent_ai_platform.Effects.{Result, ok, raised, Act, return, write, ◌>>◌}
use multi_agent_ai_platform.Workflow.Store.{
  is_dispatchable, fresh_run, waiting_node_runs, cas_node_run, claim_pending_node, event,
  emit_event,
}
use multi_agent_ai_platform.Workflow.Finish.{check_workflow_complete}
use multi_agent_ai_platform.Approval.Expire.{expire_pending_for_cancellation}

-- WORKFLOW_HUMAN_APPROVAL_OPERATION and the two closing reasons.
abbrev pub human_approval_operation : ℕ
human_approval_operation = 1

abbrev pub workflow_cancelled_reason : ℕ
workflow_cancelled_reason = 1

abbrev pub workflow_failed_reason : ℕ
workflow_failed_reason = 2

abbrev pub cancel_node : ℕ → NodeRun → NodeRun
cancel_node now nr = record nr { status = NodeStatus.cancelled; ended_at = some now }

abbrev pub pending_of : ℕ → NodeRun → Bool
pending_of run_id nr = nr.workflow_run_id == run_id && is_node nr.status NodeStatus.pending

-- The loop over the ids that were read before.
unfoldable pub cancel_each : ℕ → List ℕ → Db → Db
cancel_each now [] db = db
cancel_each now (id ∷ ids) db =
    cancel_each now ids (cas_node_run id NodeStatus.pending (cancel_node now) db).0

unfoldable pub cancel_pending_nodes : ℕ → ℕ → Db → Db
cancel_pending_nodes now run_id db =
    cancel_each now (map (λ nr. nr.id) (select_where (pending_of run_id) db.node_runs)) db

-- The evidence of a closed gate.
abbrev pub closing_events : WorkflowRun → ℕ → Option Approval → Db → Db
closing_events run id none db = emit_event (event node_cancelled run (some id)) db
closing_events run id (some approval) db =
    emit_event (event node_cancelled run (some id))
      (emit_event (event approval_cancelled run (some id)) db)

-- The rest of the gate's transaction, after the Approval in `expired_db`; `db` is what a rollback
-- restores.
abbrev pub close_expired :
    ℕ → WorkflowRun → ℕ → Db → Db → Result (Option Approval) → Db × Result (Unit {0})
close_expired now run id db expired_db (raised e) = (db, raised e)
close_expired now run id db expired_db (ok approval) =
    let (closed_db, closed) =
      cas_node_run id NodeStatus.waiting_for_approval (cancel_node now) expired_db in
    if closed then (closing_events run id approval closed_db, ok tt) else (db, ok tt)

-- One gate: its Approval and its node in one transaction, or nothing.
unfoldable pub close_gate : ℕ → WorkflowRun → Option ℕ → ℕ → ℕ → Act Unit
close_gate now run cancelled_by reason id db =
    let (expired_db, expired) =
      expire_pending_for_cancellation now workflow_node_run id human_approval_operation cancelled_by
        reason db in
    close_expired now run id db expired_db expired

unfoldable pub close_each : ℕ → WorkflowRun → Option ℕ → ℕ → List ℕ → Act Unit
close_each now run cancelled_by reason [] = return tt
close_each now run cancelled_by reason (id ∷ ids) =
    close_gate now run cancelled_by reason id >> close_each now run cancelled_by reason ids

unfoldable pub close_waiting_approval_nodes : ℕ → WorkflowRun → Option ℕ → ℕ → Act Unit
close_waiting_approval_nodes now run cancelled_by reason db =
    close_each now run cancelled_by reason (map (λ nr. nr.id) (waiting_node_runs run.id db)) db

-- `WHERE id = .. AND cancellation_requested_at IS NULL`
abbrev pub unsignalled : ℕ → AgentRun → Bool
unsignalled id agent_run = agent_run.id == id && is_none agent_run.cancellation_requested_at

abbrev pub signal : ℕ → Option ℕ → AgentRun → AgentRun
signal now requested_by agent_run = record agent_run {
  cancellation_requested_at = some now;
  cancellation_requested_by = requested_by;
}

abbrev pub signal_one : ℕ → Option ℕ → Option ℕ → List AgentRun → List AgentRun
signal_one now requested_by none agent_runs = agent_runs
signal_one now requested_by (some id) agent_runs =
    update_where (unsignalled id) (signal now requested_by) agent_runs

abbrev pub running_of : ℕ → NodeRun → Bool
running_of run_id nr = nr.workflow_run_id == run_id && is_node nr.status NodeStatus.running

unfoldable pub signal_each : ℕ → Option ℕ → List NodeRun → List AgentRun → List AgentRun
signal_each now requested_by [] agent_runs = agent_runs
signal_each now requested_by (nr ∷ rest) agent_runs =
    signal_each now requested_by rest (signal_one now requested_by nr.agent_run_id agent_runs)

unfoldable pub signal_active_agents : ℕ → ℕ → Option ℕ → Db → Db
signal_active_agents now run_id requested_by db = record db {
  agent_runs =
      signal_each now requested_by (select_where (running_of run_id) db.node_runs) db.agent_runs;
}

unfoldable pub propagate_failure : ℕ → ℕ → Act Unit
propagate_failure now run_id db = elim (fresh_run run_id db) [
  | none ↦ (db, ok tt)
  | some run ↦
      if is_dispatchable run.status
      then (write (signal_active_agents now run_id none)
            >> close_waiting_approval_nodes now run none workflow_failed_reason
            >> write (check_workflow_complete now run_id))
          db
      else (db, ok tt)
]

abbrev pub error_if_failed : Option WorkflowRun → ℕ → Db → Db
error_if_failed none id db = db
error_if_failed (some run) id db =
    if is_run run.status RunStatus.failed
    then emit_event (event workflow_error run (some id)) db
    else db

unfoldable pub fail_node_at_dispatch : ℕ → NodeRun → WorkflowRun → Act Unit
fail_node_at_dispatch now nr run db =
    let (claimed_db, claimed) =
      claim_pending_node nr.id false
        (λ r. record r { status = NodeStatus.failed; ended_at = some now }) db in
    if claimed
    then (write (emit_event (event node_failed run (some nr.id)))
          >> propagate_failure now run.id
          >> write (λ d. error_if_failed (fresh_run run.id d) nr.id d))
        claimed_db
    else (db, ok tt)

-- The statuses that a cancellation may mark.
abbrev pub is_cancellable : RunStatus → Bool
is_cancellable RunStatus.created = true
is_cancellable RunStatus.running = true
is_cancellable RunStatus.node_waiting_for_approval = true
is_cancellable RunStatus.cancelling = true
is_cancellable _ = false

abbrev pub is_finished : RunStatus → Bool
is_finished RunStatus.completed = true
is_finished RunStatus.failed = true
is_finished RunStatus.cancelled = true
is_finished _ = false

abbrev pub marks : ℕ → WorkflowRun → Bool
marks run_id run = run.id == run_id && is_cancellable run.status

abbrev pub unrequested : ℕ → WorkflowRun → Bool
unrequested run_id run = run.id == run_id && is_none run.cancellation_requested_at

abbrev pub request_cancel : ℕ → Option ℕ → WorkflowRun → WorkflowRun
request_cancel now user run = record run {
  cancellation_requested_at = some now;
  cancellation_requested_by = user;
}

-- The two UPDATEs of the first transaction.
unfoldable pub mark_cancelling : ℕ → ℕ → Option ℕ → Db → Db × Bool
mark_cancelling now run_id user db = (
  record db {
    runs =
        update_where (unrequested run_id) (request_cancel now user) (
          update_where (marks run_id) (λ run. record run { status = RunStatus.cancelling })
            db.runs);
  },
  count_where (marks run_id) db.runs == 1,
)

-- What follows the mark.
unfoldable pub cancel_marked : ℕ → WorkflowRun → Option ℕ → Act Unit
cancel_marked now run user =
    write (cancel_pending_nodes now run.id)
    >> close_waiting_approval_nodes now run user workflow_cancelled_reason
    >> write (signal_active_agents now run.id user)
    >> write (emit_event (event workflow_cancelled run none))
    >> write (check_workflow_complete now run.id)

abbrev pub run_or : WorkflowRun → Option WorkflowRun → WorkflowRun
run_or run none = run
run_or run (some fresh) = fresh

unfoldable pub cancel_workflow_run : ℕ → ℕ → Option ℕ → Act Unit
cancel_workflow_run now run_id user db = elim (fresh_run run_id db) [
  | none ↦ (db, ok tt)
  | some run ↦
      if is_finished run.status
      then (db, ok tt)
      else let (marked_db, marked) = mark_cancelling now run_id user db in
        if marked
        then cancel_marked now (run_or run (fresh_run run_id marked_db)) user marked_db
        else (marked_db, ok tt)
]
