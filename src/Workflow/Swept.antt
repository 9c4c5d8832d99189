-- ===== src/Workflow/Swept.antt =====
-- The recovery of a run, the sweep over all runs, and what follows a decision follow the abstract machine.
use multi_agent_ai_platform.Base.{
  ℕ, Bool, true, false, Option, none, some, List, [], ◌∷◌, if◌then◌else◌, select_where, map,
}
use multi_agent_ai_platform.Schema.{RunStatus, WorkflowRun, NodeRun, Approval}
use multi_agent_ai_platform.Effects.{Result, ok, raised, Act, write, ◌>>◌}
use multi_agent_ai_platform.Workflow.Store.{
  fresh_run, fresh_node_run, fresh_node_runs, waiting_node_runs,
}
use multi_agent_ai_platform.Workflow.Finish.{check_workflow_complete}
use multi_agent_ai_platform.Workflow.Ready.{is_empty}
use multi_agent_ai_platform.Workflow.Cancel.{
  workflow_cancelled_reason, cancel_pending_nodes, close_waiting_approval_nodes,
  signal_active_agents,
}
use multi_agent_ai_platform.Workflow.Upstream.{Outside}
use multi_agent_ai_platform.Workflow.Evaluation.{ExecutionServices, node_of}
use multi_agent_ai_platform.Workflow.Advance.{advance_run}
use multi_agent_ai_platform.Workflow.Reconcile.{
  emit_decision_events, is_healable, create_missing_node_runs, heal_agent_nodes, converge_waiting,
  reconcile_waiting, reconcile_cancelling, reconcile_nodes, reconcile_again, reconcile_open,
  reconcile_status, reconcile_found, reconcile_workflow_run, one_more, reconcile_each,
  is_active_run, reconcile_active_runs, resolved_rows, run_of, resolved_approval,
  after_approval_resolved,
}
use multi_agent_ai_platform.Workflow.Moves.{Evolves-trans, Evolves-refl}
use multi_agent_ai_platform.Workflow.Keeps.{
  Keeps, Keeps-seq, Keeps-if, check_workflow_complete-Evolves,
}
use multi_agent_ai_platform.Workflow.Stopping.{
  cancel_pending_nodes-Evolves, close_waiting-Keeps, signal_active_agents-Evolves,
}
use multi_agent_ai_platform.Workflow.Advanced.{advance_run-Keeps}
use multi_agent_ai_platform.Workflow.Reconciled.{
  heal_agent_nodes-Keeps, converge_waiting-Keeps, missing-Evolves, decision_events-Evolves,
}
use multi_agent_ai_platform.Approval.Expire.{get_approval}

module _ (outside : Outside) (services : ExecutionServices) (now : ℕ) where
  reconcile_waiting-Keeps :
      (run_id : ℕ) (rows : List NodeRun)
      → Keeps (reconcile_waiting outside services now run_id rows)
  unfolding reconcile_waiting
  reconcile_waiting-Keeps run_id [] db = Evolves-refl db
  reconcile_waiting-Keeps run_id (nr ∷ rest) db =
      Keeps-seq
        (λ d. converge_waiting outside services now nr run_id (node_of nr.workflow_node_id d) d)
        (reconcile_waiting outside services now run_id rest)
        (λ d.
          converge_waiting-Keeps outside services now nr run_id (node_of nr.workflow_node_id d) d)
        (λ d. reconcile_waiting-Keeps run_id rest d) db

  reconcile_cancelling-Keeps :
      (run : WorkflowRun) → Keeps (reconcile_cancelling outside services now run)
  unfolding reconcile_cancelling
  reconcile_cancelling-Keeps run =
      let by = run.cancellation_requested_by in
      let pending = write (cancel_pending_nodes now run.id) in
      let close = close_waiting_approval_nodes now run by workflow_cancelled_reason in
      let signal = write (signal_active_agents now run.id by) in
      let heal : Act Unit =
        λ d. heal_agent_nodes outside services now (fresh_node_runs run.id d) d in
      let check = write (check_workflow_complete now run.id) in
      Keeps-seq (pending >> close >> signal >> heal) check
        (Keeps-seq (pending >> close >> signal) heal
          (Keeps-seq (pending >> close) signal
            (Keeps-seq pending close (λ d. cancel_pending_nodes-Evolves now run.id d)
              (λ d. close_waiting-Keeps now run by workflow_cancelled_reason d))
            (λ d. signal_active_agents-Evolves now run.id by d))
          (λ d. heal_agent_nodes-Keeps outside services now (fresh_node_runs run.id d) d))
        (λ d. check_workflow_complete-Evolves now run.id d)

  reconcile_nodes-Keeps : (run : WorkflowRun) → Keeps (reconcile_nodes outside services now run)
  unfolding reconcile_nodes
  reconcile_nodes-Keeps run =
      let missing = write (create_missing_node_runs run) in
      let heal : Act Unit =
        λ d. heal_agent_nodes outside services now (fresh_node_runs run.id d) d in
      Keeps-seq (missing >> heal) (advance_run outside services now run.id)
        (Keeps-seq missing heal (λ d. missing-Evolves run d)
          (λ d. heal_agent_nodes-Keeps outside services now (fresh_node_runs run.id d) d))
        (λ d. advance_run-Keeps outside services now run.id d)

  reconcile_again-Keeps : (o : Option WorkflowRun) → Keeps (reconcile_again outside services now o)
  reconcile_again-Keeps none db = Evolves-refl db
  reconcile_again-Keeps (some run) db =
      Keeps-if (is_healable run.status) (reconcile_nodes outside services now run) (λ d. (d, ok tt))
        (reconcile_nodes-Keeps run) (λ d. Evolves-refl d) db

  reconcile_open-Keeps : (run : WorkflowRun) → Keeps (reconcile_open outside services now run)
  unfolding reconcile_open
  reconcile_open-Keeps run db =
      let rows = waiting_node_runs run.id db in
      let gates = reconcile_waiting outside services now run.id rows in
      let again : Act Unit = λ d. reconcile_again outside services now (fresh_run run.id d) d in
      Keeps-if (is_empty rows) (reconcile_nodes outside services now run) (gates >> again)
        (reconcile_nodes-Keeps run)
        (Keeps-seq gates again (λ d. reconcile_waiting-Keeps run.id rows d)
          (λ d. reconcile_again-Keeps (fresh_run run.id d) d))
        db

  healable-Keeps :
      (status : RunStatus) (run : WorkflowRun)
      → Keeps (λ db.
        if is_healable status then reconcile_open outside services now run db else (db, ok tt))
  healable-Keeps status run db =
      Keeps-if (is_healable status) (reconcile_open outside services now run) (λ d. (d, ok tt))
        (reconcile_open-Keeps run) (λ d. Evolves-refl d) db

  reconcile_status-Keeps :
      (status : RunStatus) (run : WorkflowRun)
      → Keeps (reconcile_status outside services now status run)
  reconcile_status-Keeps RunStatus.cancelling run db = reconcile_cancelling-Keeps run db
  reconcile_status-Keeps RunStatus.created run db = healable-Keeps RunStatus.created run db
  reconcile_status-Keeps RunStatus.running run db = healable-Keeps RunStatus.running run db
  reconcile_status-Keeps RunStatus.node_waiting_for_approval run db =
      healable-Keeps RunStatus.node_waiting_for_approval run db
  reconcile_status-Keeps _ run db = Evolves-refl db

  reconcile_found-Keeps : (o : Option WorkflowRun) → Keeps (reconcile_found outside services now o)
  reconcile_found-Keeps none db = Evolves-refl db
  reconcile_found-Keeps (some run) db = reconcile_status-Keeps run.status run db

  pub reconcile_workflow_run-Keeps :
      (run_id : ℕ) → Keeps (reconcile_workflow_run outside services now run_id)
  unfolding reconcile_workflow_run
  reconcile_workflow_run-Keeps run_id db = reconcile_found-Keeps (fresh_run run_id db) db

  reconcile_each-Keeps :
      (ids : List ℕ) (count : ℕ) → Keeps (reconcile_each outside services now ids count)
  unfolding reconcile_each
  reconcile_each-Keeps [] count db = Evolves-refl db
  reconcile_each-Keeps (run_id ∷ rest) count db =
      let r = reconcile_workflow_run outside services now run_id db in
      Evolves-trans (reconcile_workflow_run-Keeps run_id db)
        (reconcile_each-Keeps rest (one_more outside services now r.1 count) r.0)

  pub reconcile_active_runs-Keeps : Keeps (reconcile_active_runs outside services now)
  unfolding reconcile_active_runs
  reconcile_active_runs-Keeps db =
      reconcile_each-Keeps
        (map (λ run. run.id) (select_where (λ run. is_active_run run.status) db.runs)) 0 db

  resolved_rows-Keeps :
      (decided_now : Bool) (approval : Approval) (nr : Option NodeRun) (run : Option WorkflowRun)
      → Keeps (resolved_rows outside services now decided_now approval nr run)
  resolved_rows-Keeps decided_now approval none run db = Evolves-refl db
  resolved_rows-Keeps decided_now approval (some nr) none db = Evolves-refl db
  resolved_rows-Keeps true approval (some nr) (some run) db =
      Evolves-trans (decision_events-Evolves approval.status nr run db)
        (reconcile_workflow_run-Keeps run.id (emit_decision_events approval.status nr run db))
  resolved_rows-Keeps false approval (some nr) (some run) db =
      reconcile_workflow_run-Keeps run.id db

  resolved_approval-Keeps :
      (decided_now : Bool) (r : Result Approval)
      → Keeps (resolved_approval outside services now decided_now r)
  resolved_approval-Keeps decided_now (raised e) db = Evolves-refl db
  resolved_approval-Keeps decided_now (ok approval) db =
      resolved_rows-Keeps decided_now approval (fresh_node_run approval.scope_ref_id db)
        (run_of outside services now (fresh_node_run approval.scope_ref_id db) db) db

  pub after_approval_resolved-Keeps :
      (approval_id : ℕ) (decided_now : Bool)
      → Keeps (after_approval_resolved outside services now approval_id decided_now)
  unfolding after_approval_resolved
  after_approval_resolved-Keeps approval_id decided_now db =
      resolved_approval-Keeps decided_now (get_approval approval_id db) db
