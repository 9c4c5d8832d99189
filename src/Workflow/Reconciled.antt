-- ===== src/Workflow/Reconciled.antt =====
-- Decisions on gates and the recovery of runs follow the abstract machine.
use multi_agent_ai_platform.Base.{
  ℕ, ◌≡◌, refl, ◌∙◌, ap, Bool, true, false, not, ◌&&◌, Option, none, some, List, [], ◌∷◌, ◌==◌,
  select_where, exists_where, arith, Bool-cases, inl, inr,
}
use multi_agent_ai_platform.Schema.{
  RunStatus, NodeStatus, ApprovalStatus, workflow_node_run, node_completed, node_failed,
  approval_approved, approval_rejected, WorkflowRun, NodeRun, Node, AgentRun, Approval, Db,
}
use multi_agent_ai_platform.Effects.{
  Result, ok, raised, invalid_state_transition, fingerprint_mismatch,
}
use multi_agent_ai_platform.Workflow.Store.{
  is_dispatchable, is_terminal_node, fresh_run, fresh_node_run, fresh_node_runs, cas_node_run,
  has_failed_node, emit_event, event,
}
use multi_agent_ai_platform.Workflow.Cancel.{human_approval_operation}
use multi_agent_ai_platform.Workflow.Upstream.{Outside, approval_action_payload}
use multi_agent_ai_platform.Workflow.Gate.{
  output_of, approve_node, reject_node, move_gate, decide_gate, with_rows, on_gate,
  apply_approval_decision,
}
use multi_agent_ai_platform.Workflow.Evaluation.{ExecutionServices, enqueue_agent_run}
use multi_agent_ai_platform.Workflow.Advance.{agent_of}
use multi_agent_ai_platform.Workflow.Reconcile.{
  emit_decision_events, recovered_events, pending_rows, lacks_run, create_missing_node_runs,
  is_agent_job, agent_job_status, ensure_agent_job_enqueued, Repair, replay, enqueue_job,
  finalize_orphan, leave, repair_for, repair, heal_agent, heal_linked, heal_agent_nodes, recovered,
  recover, converge_gate, converge_waiting,
}
use multi_agent_ai_platform.Workflow.Moves.{
  may_move, NodeMove, RunMove, Evolves, Evolves-trans, Evolves-same, Evolves-refl,
  Evolves-new_node_runs,
}
use multi_agent_ai_platform.Workflow.Keeps.{
  Keeps, Keeps-seq, Keeps-if, step_move, Evolves-if, emit_event-Evolves, cas_node_run-Evolves,
  cas_run-Evolves,
}
use multi_agent_ai_platform.Workflow.Dispatched.{
  leaves-Evolves, enqueue-Evolves, request_gate-Evolves,
}
use multi_agent_ai_platform.Workflow.Advanced.{on_agent_run_complete-Keeps}
use multi_agent_ai_platform.Approval.Expire.{find_approval}

run_on :
    (x : WorkflowRun)
    → x.status ≡ RunStatus.node_waiting_for_approval
    → RunMove x (record x { status = RunStatus.running })
run_on x e = record {
  same_id = refl;
  same_version = refl;
  final = λ h. absurd (ground arith);
  cancelling = λ k. absurd (ground arith);
}

move_gate-Evolves :
    (accepts : Bool) (run : WorkflowRun) (id : ℕ) (values : NodeRun → NodeRun)
    → ((x : NodeRun) → x.status ≡ NodeStatus.waiting_for_approval → NodeMove x (values x))
    → Keeps (move_gate accepts run id values)
unfolding move_gate
move_gate-Evolves accepts run id values h db =
    let moved = cas_node_run id NodeStatus.waiting_for_approval values db in
    let resume : WorkflowRun → WorkflowRun = λ r. record r { status = RunStatus.running } in
    elim (Bool-cases (accepts && moved.1)) [
      | inr refused ↦ rw refused (Evolves-refl db)
      | inl applied ↦ rw applied (
          Evolves-trans (cas_node_run-Evolves id NodeStatus.waiting_for_approval values db h) (
            cas_run-Evolves run.id RunStatus.node_waiting_for_approval resume moved.0
              (λ x e. run_on x e)))
    ]

gate_move :
    (x y : NodeRun)
    → y.id ≡ x.id
    → y.workflow_run_id ≡ x.workflow_run_id
    → y.workflow_node_id ≡ x.workflow_node_id
    → y.iteration ≡ x.iteration
    → y.agent_run_id ≡ x.agent_run_id
    → may_move NodeStatus.waiting_for_approval y.status ≡ true
    → x.status ≡ NodeStatus.waiting_for_approval
    → NodeMove x y
gate_move x y i r n t l m e =
    step_move x y i r n t (inl l) (ap (λ status. may_move status y.status) e ∙ m)
      (ap is_terminal_node e)

module _ (outside : Outside) (now : ℕ) (approval : Approval) where
  decide_gate-Keeps :
      (decision : ApprovalStatus) (nr : NodeRun) (node : Node) (run : WorkflowRun)
      → Keeps (decide_gate outside now approval decision nr node run)
  unfolding decide_gate
  decide_gate-Keeps ApprovalStatus.approved nr node run db =
      let payload = approval_action_payload outside nr node true db in
      let output = output_of payload.upstream in
      Keeps-if (outside.digest payload == approval.action_fingerprint)
        (move_gate (is_dispatchable run.status && not (has_failed_node run.id db)) run nr.id
          (approve_node now output))
        (λ d. (d, raised fingerprint_mismatch))
        (λ d.
          move_gate-Evolves (is_dispatchable run.status && not (has_failed_node run.id db)) run
            nr.id (approve_node now output)
            (λ x e. gate_move x (approve_node now output x) refl refl refl refl refl refl e) d)
        (λ d. Evolves-refl d) db
  decide_gate-Keeps ApprovalStatus.rejected nr node run db =
      move_gate-Evolves (is_dispatchable run.status && not (has_failed_node run.id db)) run nr.id
        (reject_node now) (λ x e. gate_move x (reject_node now x) refl refl refl refl refl refl e)
        db
  decide_gate-Keeps _ nr node run db = Evolves-refl db

  with_rows-Keeps :
      (decision : ApprovalStatus) (nr : NodeRun) (node : Option Node) (run : Option WorkflowRun)
      → Keeps (with_rows outside now approval decision nr node run)
  with_rows-Keeps decision nr none run db = Evolves-refl db
  with_rows-Keeps decision nr (some node) none db = Evolves-refl db
  with_rows-Keeps decision nr (some node) (some run) db = decide_gate-Keeps decision nr node run db

  on_gate-Keeps :
      (decision : ApprovalStatus) (nr : Option NodeRun)
      → Keeps (on_gate outside now approval decision nr)
  on_gate-Keeps decision none db = Evolves-refl db
  on_gate-Keeps decision (some nr) db = with_rows-Keeps decision nr _ _ db

  pub apply_approval_decision-Keeps :
      (decision : ApprovalStatus) → Keeps (apply_approval_decision outside now approval decision)
  unfolding apply_approval_decision
  apply_approval_decision-Keeps decision db =
      on_gate-Keeps decision (fresh_node_run approval.scope_ref_id db) db

pub decision_events-Evolves :
    (status : ApprovalStatus) (nr : NodeRun) (run : WorkflowRun) (db : Db)
    → Evolves db (emit_decision_events status nr run db)
unfolding emit_decision_events
decision_events-Evolves ApprovalStatus.approved nr run db =
    Evolves-trans (emit_event-Evolves (event approval_approved run (some nr.id)) db) (
      emit_event-Evolves (event node_completed run (some nr.id))
        (emit_event (event approval_approved run (some nr.id)) db))
decision_events-Evolves ApprovalStatus.rejected nr run db =
    Evolves-trans (emit_event-Evolves (event approval_rejected run (some nr.id)) db) (
      emit_event-Evolves (event node_failed run (some nr.id))
        (emit_event (event approval_rejected run (some nr.id)) db))
decision_events-Evolves _ nr run db = Evolves-refl db

recovered_events-Evolves :
    (approval : Approval) (nr : Option NodeRun) (run : Option WorkflowRun) (db : Db)
    → Evolves db (recovered_events approval nr run db)
recovered_events-Evolves approval none run db = Evolves-refl db
recovered_events-Evolves approval (some nr) none db = Evolves-refl db
recovered_events-Evolves approval (some nr) (some run) db =
    decision_events-Evolves approval.status nr run db

pub missing-Evolves : (run : WorkflowRun) (db : Db) → Evolves db (create_missing_node_runs run db)
unfolding create_missing_node_runs
missing-Evolves run db =
    let missing = select_where (lacks_run (fresh_node_runs run.id db)) (
      select_where (λ (node : Node). node.workflow_version_id == run.workflow_version_id)
        db.nodes) in
    let added = Evolves-new_node_runs (pending_rows db.next_id run.id missing) db in
    Evolves-trans added (Evolves-same refl refl refl)

ensure-Evolves :
    (now agent_run_id : ℕ) (db : Db) → Evolves db (ensure_agent_job_enqueued now agent_run_id db)
unfolding ensure_agent_job_enqueued
ensure-Evolves now agent_run_id db =
    Evolves-if (exists_where (is_agent_job agent_run_id) db.jobs) db db
      (enqueue_agent_run now agent_run_id db) (Evolves-refl db)
      (enqueue-Evolves now agent_run_id db)

module _ (outside : Outside) (services : ExecutionServices) (now : ℕ) where
  repair-Keeps :
      (r : Repair) (agent_run_id : ℕ) → Keeps (repair outside services now r agent_run_id)
  unfolding repair
  repair-Keeps replay agent_run_id db =
      on_agent_run_complete-Keeps outside services now agent_run_id db
  repair-Keeps enqueue_job agent_run_id db = ensure-Evolves now agent_run_id db
  repair-Keeps finalize_orphan agent_run_id db =
      Evolves-trans (leaves-Evolves (services.finalize_interrupted_leaves agent_run_id db)) (
        on_agent_run_complete-Keeps outside services now agent_run_id
          (services.finalize_interrupted agent_run_id db))
  repair-Keeps leave agent_run_id db = Evolves-refl db

  heal_agent-Keeps : (o : Option AgentRun) → Keeps (heal_agent outside services now o)
  heal_agent-Keeps none db = Evolves-refl db
  heal_agent-Keeps (some agent) db =
      repair-Keeps (repair_for agent.status (agent_job_status agent.id db)) agent.id db

  heal_linked-Keeps :
      (status : NodeStatus) (link : Option ℕ) → Keeps (heal_linked outside services now status link)
  heal_linked-Keeps NodeStatus.running (some agent_run_id) db =
      heal_agent-Keeps (agent_of agent_run_id db) db
  heal_linked-Keeps NodeStatus.running none db = Evolves-refl db
  heal_linked-Keeps _ link db = Evolves-refl db

  pub heal_agent_nodes-Keeps :
      (rows : List NodeRun) → Keeps (heal_agent_nodes outside services now rows)
  unfolding heal_agent_nodes
  heal_agent_nodes-Keeps [] db = Evolves-refl db
  heal_agent_nodes-Keeps (nr ∷ rest) db =
      Keeps-seq (heal_linked outside services now nr.status nr.agent_run_id)
        (heal_agent_nodes outside services now rest)
        (λ d. heal_linked-Keeps nr.status nr.agent_run_id d) (λ d. heal_agent_nodes-Keeps rest d) db

  recovered-Evolves :
      (approval : Approval) (node_run_id run_id : ℕ) (before : Db) (r : Db × Result (Unit {0}))
      → Evolves before r.0
      → Evolves before (recovered outside services now approval node_run_id run_id before r).0
  recovered-Evolves approval node_run_id run_id before (db, ok u) m =
      Evolves-trans m
        (recovered_events-Evolves approval (fresh_node_run node_run_id db) (fresh_run run_id db) db)
  recovered-Evolves approval node_run_id run_id before (db, raised invalid_state_transition) m =
      Evolves-refl before
  recovered-Evolves approval node_run_id run_id before (db, raised fingerprint_mismatch) m =
      Evolves-refl before
  recovered-Evolves approval node_run_id run_id before (db, raised e) m = Evolves-refl before

  recover-Keeps :
      (approval : Approval) (status : ApprovalStatus) (node_run_id run_id : ℕ)
      → Keeps (recover outside services now approval status node_run_id run_id)
  recover-Keeps approval ApprovalStatus.approved node_run_id run_id db =
      recovered-Evolves approval node_run_id run_id db
        (apply_approval_decision outside now approval ApprovalStatus.approved db)
        (apply_approval_decision-Keeps outside now approval ApprovalStatus.approved db)
  recover-Keeps approval ApprovalStatus.rejected node_run_id run_id db =
      recovered-Evolves approval node_run_id run_id db
        (apply_approval_decision outside now approval ApprovalStatus.rejected db)
        (apply_approval_decision-Keeps outside now approval ApprovalStatus.rejected db)
  recover-Keeps approval _ node_run_id run_id db = Evolves-refl db

  converge_gate-Keeps :
      (nr : NodeRun) (run_id : ℕ) (node : Node) (o : Option Approval)
      → Keeps (converge_gate outside services now nr run_id node o)
  converge_gate-Keeps nr run_id node none db =
      request_gate-Evolves outside now nr (approval_action_payload outside nr node false db) db
  converge_gate-Keeps nr run_id node (some approval) db =
      recover-Keeps approval approval.status nr.id run_id db

  pub converge_waiting-Keeps :
      (nr : NodeRun) (run_id : ℕ) (o : Option Node)
      → Keeps (converge_waiting outside services now nr run_id o)
  converge_waiting-Keeps nr run_id none db = Evolves-refl db
  converge_waiting-Keeps nr run_id (some node) db =
      converge_gate-Keeps nr run_id node
        (find_approval workflow_node_run nr.id human_approval_operation db) db
