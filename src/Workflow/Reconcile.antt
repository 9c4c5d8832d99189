-- ===== src/Workflow/Reconcile.antt =====
-- Recovery from durable state: `reconcile_workflow_run`, `reconcile_active_runs` and their parts, and
-- `after_approval_resolved`.
use multi_agent_ai_platform.Base.{
  ℕ, suc, Bool, true, false, not, ◌&&◌, Option, none, some, List, [], ◌∷◌, ◌++◌, ◌==◌,
  if◌then◌else◌, map, find_where, select_where, exists_where,
}
use multi_agent_ai_platform.JobQueue.{Job, JobStatus, JobType, same_type}
use multi_agent_ai_platform.Schema.{
  RunStatus, NodeStatus, AgentStatus, ApprovalStatus, workflow_node_run, node_completed,
  node_failed, approval_approved, approval_rejected, WorkflowRun, NodeRun, Node, AgentRun, Approval,
  Db,
}
use multi_agent_ai_platform.Effects.{
  Result, ok, raised, invalid_state_transition, fingerprint_mismatch, Act, write, ◌>>◌,
}
use multi_agent_ai_platform.Workflow.Store.{
  fresh_run, fresh_node_run, fresh_node_runs, waiting_node_runs, emit_event, event,
}
use multi_agent_ai_platform.Workflow.Finish.{check_workflow_complete}
use multi_agent_ai_platform.Workflow.Ready.{is_empty}
use multi_agent_ai_platform.Workflow.Cancel.{
  human_approval_operation, workflow_cancelled_reason, cancel_pending_nodes,
  close_waiting_approval_nodes, signal_active_agents,
}
use multi_agent_ai_platform.Workflow.Upstream.{Outside, approval_action_payload}
use multi_agent_ai_platform.Workflow.Gate.{apply_approval_decision}
use multi_agent_ai_platform.Workflow.Evaluation.{ExecutionServices, node_of, enqueue_agent_run}
use multi_agent_ai_platform.Workflow.Dispatch.{request_gate_approval}
use multi_agent_ai_platform.Workflow.Advance.{agent_of, advance_run, on_agent_run_complete}
use multi_agent_ai_platform.Approval.Expire.{find_approval, get_approval}

-- The evidence of a decision.
unfoldable pub emit_decision_events : ApprovalStatus → NodeRun → WorkflowRun → Db → Db
emit_decision_events ApprovalStatus.approved nr run db =
    emit_event (event node_completed run (some nr.id))
      (emit_event (event approval_approved run (some nr.id)) db)
emit_decision_events ApprovalStatus.rejected nr run db =
    emit_event (event node_failed run (some nr.id))
      (emit_event (event approval_rejected run (some nr.id)) db)
emit_decision_events _ nr run db = db

abbrev pub recovered_events : Approval → Option NodeRun → Option WorkflowRun → Db → Db
recovered_events approval (some nr) (some run) db = emit_decision_events approval.status nr run db
recovered_events approval _ _ db = db

-- CREATED or dispatchable
abbrev pub is_healable : RunStatus → Bool
is_healable RunStatus.created = true
is_healable RunStatus.running = true
is_healable RunStatus.node_waiting_for_approval = true
is_healable _ = false

-- _ACTIVE_RUN_STATUSES
abbrev pub is_active_run : RunStatus → Bool
is_active_run RunStatus.created = true
is_active_run RunStatus.running = true
is_active_run RunStatus.node_waiting_for_approval = true
is_active_run RunStatus.cancelling = true
is_active_run _ = false

-- A PENDING row for every node that has none.
abbrev pub lacks_run : List NodeRun → Node → Bool
lacks_run existing node = not (exists_where (λ nr. nr.workflow_node_id == node.id) existing)

abbrev pub pending_rows : ℕ → ℕ → List Node → List NodeRun
pending_rows id run_id [] = []
pending_rows id run_id (node ∷ rest) =
    record {
      id = id;
      workflow_run_id = run_id;
      workflow_node_id = node.id;
      iteration = 0;
      status = NodeStatus.pending;
      agent_run_id = none;
      started_at = none;
      ended_at = none;
      output_snapshot_ref = none;
    }
    ∷ pending_rows (suc id) run_id rest

abbrev pub after_ids : ℕ → List Node → ℕ
after_ids id [] = id
after_ids id (_ ∷ rest) = suc (after_ids id rest)

unfoldable pub create_missing_node_runs : WorkflowRun → Db → Db
create_missing_node_runs run db =
    let missing = select_where (lacks_run (fresh_node_runs run.id db)) (
      select_where (λ (node : Node). node.workflow_version_id == run.workflow_version_id)
        db.nodes) in
    record db {
      node_runs = db.node_runs ++ pending_rows db.next_id run.id missing;
      next_id = after_ids db.next_id missing;
    }

abbrev pub is_agent_job : ℕ → Job → Bool
is_agent_job agent_run_id job =
    same_type job.job_type JobType.agent_run && job.payload_ref == agent_run_id

abbrev pub status_in : Option Job → Option JobStatus
status_in none = none
status_in (some job) = some job.status

abbrev pub agent_job_status : ℕ → Db → Option JobStatus
agent_job_status agent_run_id db = status_in (find_where (is_agent_job agent_run_id) db.jobs)

unfoldable pub ensure_agent_job_enqueued : ℕ → ℕ → Db → Db
ensure_agent_job_enqueued now agent_run_id db =
    if exists_where (is_agent_job agent_run_id) db.jobs
    then db
    else enqueue_agent_run now agent_run_id db

-- What a RUNNING node's agent run and its job call for.
pub data Repair : Type 0 where
  replay enqueue_job finalize_orphan leave : Repair

unfoldable pub repair_for : AgentStatus → Option JobStatus → Repair
repair_for AgentStatus.completed job = replay
repair_for AgentStatus.failed job = replay
repair_for AgentStatus.stopped job = replay
repair_for AgentStatus.created none = enqueue_job
repair_for _ none = finalize_orphan
repair_for _ (some JobStatus.done) = finalize_orphan
repair_for _ (some JobStatus.failed) = finalize_orphan
repair_for _ (some _) = leave

module _ (outside : Outside) (services : ExecutionServices) (now : ℕ) where
  unfoldable pub repair : Repair → ℕ → Act Unit
  repair replay agent_run_id db = on_agent_run_complete outside services now agent_run_id db
  repair enqueue_job agent_run_id db = (ensure_agent_job_enqueued now agent_run_id db, ok tt)
  repair finalize_orphan agent_run_id db =
      on_agent_run_complete outside services now agent_run_id
        (services.finalize_interrupted agent_run_id db)
  repair leave agent_run_id db = (db, ok tt)

  abbrev pub heal_agent : Option AgentRun → Act Unit
  heal_agent none db = (db, ok tt)
  heal_agent (some agent) db =
      repair (repair_for agent.status (agent_job_status agent.id db)) agent.id db

  abbrev pub heal_linked : NodeStatus → Option ℕ → Act Unit
  heal_linked NodeStatus.running (some agent_run_id) db = heal_agent (agent_of agent_run_id db) db
  heal_linked _ _ db = (db, ok tt)

  unfoldable pub heal_agent_nodes : List NodeRun → Act Unit
  heal_agent_nodes [] db = (db, ok tt)
  heal_agent_nodes (nr ∷ rest) db =
      (heal_linked nr.status nr.agent_run_id >> heal_agent_nodes rest) db

  -- A decision that was recorded but never applied. The two errors of a decision that no longer fits
  -- are logged; others go up.
  abbrev pub recovered : Approval → ℕ → ℕ → Db → Db × Result (Unit {0}) → Db × Result (Unit {0})
  recovered approval node_run_id run_id before (db, ok _) =
      (recovered_events approval (fresh_node_run node_run_id db) (fresh_run run_id db) db, ok tt)
  recovered approval node_run_id run_id before (db, raised invalid_state_transition) =
      (before, ok tt)
  recovered approval node_run_id run_id before (db, raised fingerprint_mismatch) = (before, ok tt)
  recovered approval node_run_id run_id before (db, raised e) = (before, raised e)

  abbrev pub recover : Approval → ApprovalStatus → ℕ → ℕ → Act Unit
  recover approval ApprovalStatus.approved node_run_id run_id db =
      recovered approval node_run_id run_id db
        (apply_approval_decision outside now approval ApprovalStatus.approved db)
  recover approval ApprovalStatus.rejected node_run_id run_id db =
      recovered approval node_run_id run_id db
        (apply_approval_decision outside now approval ApprovalStatus.rejected db)
  recover approval _ node_run_id run_id db = (db, ok tt)

  -- The request commits by itself.
  abbrev pub converge_gate : NodeRun → ℕ → Node → Option Approval → Act Unit
  converge_gate nr run_id node none db =
      request_gate_approval outside now nr (approval_action_payload outside nr node false db) db
  converge_gate nr run_id node (some approval) db = recover approval approval.status nr.id run_id db

  abbrev pub converge_waiting : NodeRun → ℕ → Option Node → Act Unit
  converge_waiting nr run_id none db = (db, ok tt)
  converge_waiting nr run_id (some node) db =
      converge_gate nr run_id node
        (find_approval workflow_node_run nr.id human_approval_operation db) db

  unfoldable pub reconcile_waiting : ℕ → List NodeRun → Act Unit
  reconcile_waiting run_id [] db = (db, ok tt)
  reconcile_waiting run_id (nr ∷ rest) db =
      ((λ d. converge_waiting nr run_id (node_of nr.workflow_node_id d) d)
          >> reconcile_waiting run_id rest)
        db

  unfoldable pub reconcile_cancelling : WorkflowRun → Act Unit
  reconcile_cancelling run =
      write (cancel_pending_nodes now run.id)
      >> close_waiting_approval_nodes now run run.cancellation_requested_by
          workflow_cancelled_reason
      >> write (signal_active_agents now run.id run.cancellation_requested_by)
      >> (λ d. heal_agent_nodes (fresh_node_runs run.id d) d)
      >> write (check_workflow_complete now run.id)

  unfoldable pub reconcile_nodes : WorkflowRun → Act Unit
  reconcile_nodes run =
      write (create_missing_node_runs run)
      >> (λ d. heal_agent_nodes (fresh_node_runs run.id d) d)
      >> advance_run outside services now run.id

  -- After the gates the run is read again.
  abbrev pub reconcile_again : Option WorkflowRun → Act Unit
  reconcile_again none db = (db, ok tt)
  reconcile_again (some run) db =
      if is_healable run.status then reconcile_nodes run db else (db, ok tt)

  unfoldable pub reconcile_open : WorkflowRun → Act Unit
  reconcile_open run db =
      if is_empty (waiting_node_runs run.id db)
      then reconcile_nodes run db
      else (reconcile_waiting run.id (waiting_node_runs run.id db)
            >> (λ d. reconcile_again (fresh_run run.id d) d))
          db

  abbrev pub reconcile_status : RunStatus → WorkflowRun → Act Unit
  reconcile_status RunStatus.cancelling run db = reconcile_cancelling run db
  reconcile_status status run db = if is_healable status then reconcile_open run db else (db, ok tt)

  abbrev pub reconcile_found : Option WorkflowRun → Act Unit
  reconcile_found none db = (db, ok tt)
  reconcile_found (some run) db = reconcile_status run.status run db

  unfoldable pub reconcile_workflow_run : ℕ → Act Unit
  reconcile_workflow_run run_id db = reconcile_found (fresh_run run_id db) db

  -- The sweep: an error of one run is logged, and counts as not reconciled.
  abbrev pub one_more : Result (Unit {0}) → ℕ → ℕ
  one_more (ok _) reconciled = suc reconciled
  one_more (raised e) reconciled = reconciled

  unfoldable pub reconcile_each : List ℕ → ℕ → Db → Db × ℕ
  reconcile_each [] reconciled db = (db, reconciled)
  reconcile_each (run_id ∷ rest) reconciled db =
      let (after, r) = reconcile_workflow_run run_id db in
      reconcile_each rest (one_more r reconciled) after

  unfoldable pub reconcile_active_runs : Db → Db × ℕ
  reconcile_active_runs db =
      reconcile_each (map (λ run. run.id) (select_where (λ run. is_active_run run.status) db.runs))
        0 db

  abbrev pub resolved_rows : Bool → Approval → Option NodeRun → Option WorkflowRun → Act Unit
  resolved_rows decided_now approval (some nr) (some run) db =
      reconcile_workflow_run run.id
        (if decided_now then emit_decision_events approval.status nr run db else db)
  resolved_rows decided_now approval _ _ db = (db, ok tt)

  abbrev pub run_of : Option NodeRun → Db → Option WorkflowRun
  run_of none db = none
  run_of (some nr) db = fresh_run nr.workflow_run_id db

  abbrev pub resolved_approval : Bool → Result Approval → Act Unit
  resolved_approval decided_now (raised e) db = (db, raised e)
  resolved_approval decided_now (ok approval) db =
      resolved_rows decided_now approval (fresh_node_run approval.scope_ref_id db)
        (run_of (fresh_node_run approval.scope_ref_id db) db) db

  unfoldable pub after_approval_resolved : ℕ → Bool → Act Unit
  after_approval_resolved approval_id decided_now db =
      resolved_approval decided_now (get_approval approval_id db) db
