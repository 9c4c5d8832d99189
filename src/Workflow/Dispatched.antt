-- ===== src/Workflow/Dispatched.antt =====
-- A dispatch follows the abstract machine.
use multi_agent_ai_platform.Base.{
  ℕ, suc, ◌≡◌, refl, sym, subst, false, Option, none, some, List, ◌==◌, find_where, select_where,
  arith, Bool-cases, inl, inr,
}
use multi_agent_ai_platform.JobQueue.{Job, JobType, enqueue}
use multi_agent_ai_platform.Schema.{
  NodeStatus, NodeType, ApprovalScope, workflow_node_run, node_completed, node_scheduled,
  node_waiting, approval_requested, WorkflowRun, NodeRun, Node, TaskRun, Artifact, Approval, Db,
  is_node,
}
use multi_agent_ai_platform.Effects.{Result, ok, raised, not_found, conflict}
use multi_agent_ai_platform.Workflow.Store.{
  accepts_dispatch, claim_pending_node, atomically_claim_node_for_execution, emit_event, event,
}
use multi_agent_ai_platform.Workflow.Ready.{sync_run_state}
use multi_agent_ai_platform.Workflow.Cancel.{human_approval_operation}
use multi_agent_ai_platform.Workflow.Upstream.{Outside, ActionPayload, approval_action_payload}
use multi_agent_ai_platform.Workflow.Evaluation.{
  LeavesEngine, ExecutionServices, queued, enqueue_agent_run, claim_and_queue, built, build_for,
  evaluate_subject, with_output, with_parent_run, with_parent, configured, dispatch_evaluation,
  current_attempt, single_parent,
}
use multi_agent_ai_platform.Workflow.Dispatch.{
  bound_artifact, human_approval_length, dropped, request_gate_approval, wait_for_human,
  gate_events, gate_requested, add_execution, gate_in, dispatch_human_approval, dispatch_terminal,
  execute_for, execute, dispatch_agent, dispatch_typed, dispatch_rows, unless_linked,
  dispatch_node_for_execution,
}
use multi_agent_ai_platform.Workflow.Moves.{Evolves, Evolves-trans, Evolves-same, Evolves-refl}
use multi_agent_ai_platform.Workflow.Keeps.{
  Keeps, step_move, Evolves-if, emit_event-Evolves, claim_pending_node-Evolves,
  atomically_claim-Evolves, sync_rounds-Evolves,
}
use multi_agent_ai_platform.Workflow.Stopping.{keep_tables}
use multi_agent_ai_platform.Workflow.Stopped.{fail_node_at_dispatch-Keeps}
use multi_agent_ai_platform.Approval.Resolve.{request_approval}
use multi_agent_ai_platform.Approval.Expire.{find_approval}
use multi_agent_ai_platform.Approval.Final.{request_keeps, reuse_keeps}

pub leaves-Evolves : {a b : Db} → LeavesEngine a b → Evolves a b
leaves-Evolves l = Evolves-same l.same_node_runs l.same_runs l.same_approvals

request-rows :
    (outside : Outside) (now id : ℕ) (scope : ApprovalScope) (ref operation operation_length : ℕ)
    (payload : ActionPayload) (by bound : Option ℕ) (db : Db)
    → let after =
        (request_approval outside now id scope ref operation operation_length payload by bound
          db).0 in
      (after.node_runs ≡ db.node_runs) × (after.runs ≡ db.runs)
unfolding request_approval
request-rows outside now id scope ref operation operation_length payload by bound db =
    let same = reuse_keeps (outside.digest payload) (find_approval scope ref operation db) db in
    (ground (arith, same), ground (arith, same))

dropped-same : (r : Db × Result Approval) → (dropped r).0 ≡ r.0
dropped-same (db, ok a) = refl
dropped-same (db, raised e) = refl

pub request_gate-Evolves :
    (outside : Outside) (now : ℕ) (nr : NodeRun) (payload : ActionPayload)
    → Keeps (request_gate_approval outside now nr payload)
unfolding request_gate_approval
request_gate-Evolves outside now nr payload db =
    let start = record db { next_id = suc db.next_id } in
    let asked =
      request_approval outside now db.next_id workflow_node_run nr.id human_approval_operation
        human_approval_length payload none (bound_artifact payload.upstream) start in
    let rows =
      request-rows outside now db.next_id workflow_node_run nr.id human_approval_operation
        human_approval_length payload none (bound_artifact payload.upstream) start in
    subst (Evolves db) (sym (dropped-same asked)) (
      keep_tables rows.0 rows.1 (λ id x h.
        request_keeps outside now db.next_id workflow_node_run nr.id human_approval_operation
          human_approval_length payload none (bound_artifact payload.upstream) start id x h))

queued-Evolves : (o : Option (List Job)) (a db : Db) → Evolves a db → Evolves a (queued o db)
queued-Evolves none a db m = m
queued-Evolves (some jobs) a db m = Evolves-trans m (Evolves-same refl refl refl)

pub enqueue-Evolves :
    (now agent_run_id : ℕ) (db : Db) → Evolves db (enqueue_agent_run now agent_run_id db)
unfolding enqueue_agent_run
enqueue-Evolves now agent_run_id db =
    queued-Evolves (enqueue db.next_id JobType.agent_run agent_run_id now db.jobs) db _
      (Evolves-same refl refl refl)

pub claim_and_queue-Evolves :
    (now : ℕ) (run : WorkflowRun) (nr : NodeRun) (agent_run_id : ℕ) (before db : Db)
    → Evolves before db
    → Evolves before (claim_and_queue now run nr agent_run_id before db)
unfolding claim_and_queue
claim_and_queue-Evolves now run nr agent_run_id before db m =
    let claimed_db = (atomically_claim_node_for_execution nr.id agent_run_id db).0 in
    let queued_db = enqueue_agent_run now agent_run_id claimed_db in
    Evolves-if (atomically_claim_node_for_execution nr.id agent_run_id db).1 before
      (emit_event (event node_scheduled run (some nr.id)) queued_db) before
      (Evolves-trans m (
        Evolves-trans (atomically_claim-Evolves nr.id agent_run_id db) (
          Evolves-trans (enqueue-Evolves now agent_run_id claimed_db)
            (emit_event-Evolves (event node_scheduled run (some nr.id)) queued_db))))
      (Evolves-refl before)

sync-Evolves : (run_id : ℕ) (db : Db) → Evolves db (sync_run_state run_id db)
sync-Evolves run_id db = sync_rounds-Evolves 4 run_id db

gate_events-Evolves :
    (run : WorkflowRun) (nr : NodeRun) (db : Db) → Evolves db (gate_events run nr db)
gate_events-Evolves run nr db =
    let synced = sync_run_state run.id db in
    let waits = emit_event (event node_waiting run (some nr.id)) synced in
    Evolves-trans (sync-Evolves run.id db) (
      Evolves-trans (emit_event-Evolves (event node_waiting run (some nr.id)) synced)
        (emit_event-Evolves (event approval_requested run (some nr.id)) waits))

gate_requested-Evolves :
    (run : WorkflowRun) (nr : NodeRun) (before : Db) (r : Db × Result (Unit {0}))
    → Evolves before r.0
    → Evolves before (gate_requested run nr before r).0
gate_requested-Evolves run nr before (db, ok u) m = Evolves-trans m (gate_events-Evolves run nr db)
gate_requested-Evolves run nr before (db, raised e) m = Evolves-refl before

module _ (outside : Outside) (services : ExecutionServices) (now : ℕ) where
  gate_in-Keeps :
      (nr : NodeRun) (node : Node) (run : WorkflowRun) (group : Option ℕ)
      → Keeps (gate_in outside services now nr node run group)
  gate_in-Keeps nr node run none db = fail_node_at_dispatch-Keeps now nr run db
  gate_in-Keeps nr node run (some group) db =
      let claim = claim_pending_node nr.id false (wait_for_human now) db in
      let payload = approval_action_payload outside nr node false db in
      let m : Evolves db claim.0 =
        claim_pending_node-Evolves nr.id false (wait_for_human now) db (λ x e u.
          step_move x (wait_for_human now x) refl refl refl refl (inl refl) (rw e refl)
            (rw e refl)) in
      elim (Bool-cases claim.1) [
        | inr lost ↦ rw lost (Evolves-refl db)
        | inl won ↦ rw won (
            gate_requested-Evolves run nr db (request_gate_approval outside now nr payload claim.0)
              (Evolves-trans m (request_gate-Evolves outside now nr payload claim.0)))
      ]

  dispatch_terminal-Keeps :
      (nr : NodeRun) (run : WorkflowRun) → Keeps (dispatch_terminal outside services now nr run)
  unfolding dispatch_terminal
  dispatch_terminal-Keeps nr run db =
      let values : NodeRun → NodeRun =
        λ r. record r { status = NodeStatus.completed; ended_at = some now } in
      let claim = claim_pending_node nr.id false values db in
      let m : Evolves db claim.0 =
        claim_pending_node-Evolves nr.id false values db (λ x e u.
          step_move x (values x) refl refl refl refl (inl refl) (rw e refl) (rw e refl)) in
      elim (Bool-cases claim.1) [
        | inr lost ↦ rw lost m
        | inl won ↦
            rw won
              (Evolves-trans m (emit_event-Evolves (event node_completed run (some nr.id)) claim.0))
      ]

  execute_for-Evolves :
      (nr : NodeRun) (node : Node) (run : WorkflowRun) (agent_version_id : ℕ)
      (parent : Option TaskRun) (db : Db)
      → Evolves db (execute_for outside services now nr node run agent_version_id parent db)
  unfolding add_execution
  execute_for-Evolves nr node run agent_version_id none db = Evolves-refl db
  execute_for-Evolves nr node run agent_version_id (some parent) db =
      claim_and_queue-Evolves now run nr (suc db.next_id) db
        (add_execution run nr node agent_version_id parent db) (Evolves-same refl refl refl)

  execute-Keeps :
      (nr : NodeRun) (node : Node) (run : WorkflowRun) (version : Option ℕ)
      → Keeps (execute outside services now nr node run version)
  execute-Keeps nr node run none db = fail_node_at_dispatch-Keeps now nr run db
  execute-Keeps nr node run (some version) db = elim (Bool-cases (accepts_dispatch run.id db)) [
    | inr closed ↦ rw closed (Evolves-refl db)
    | inl accepts ↦ rw accepts (
        execute_for-Evolves nr node run version
          (find_where (λ task_run. task_run.id == run.task_run_id) db.task_runs) db)
  ]

  built-Evolves :
      (run : WorkflowRun) (nr : NodeRun) (before : Db) (r : Db × Result ℕ)
      → Evolves before r.0
      → Evolves before (built outside services now run nr before r).0
  built-Evolves run nr before (db, ok agent_run_id) m =
      claim_and_queue-Evolves now run nr agent_run_id before db m
  built-Evolves run nr before (db, raised not_found) m =
      fail_node_at_dispatch-Keeps now nr run before
  built-Evolves run nr before (db, raised conflict) m =
      fail_node_at_dispatch-Keeps now nr run before
  built-Evolves run nr before (db, raised e) m = Evolves-refl before

  build_for-Keeps :
      (run : WorkflowRun) (nr : NodeRun) (node : Node) (parent : NodeRun) (definition evaluator : ℕ)
      (subject : Artifact) (task_run : Option TaskRun)
      → Keeps
          (build_for outside services now run nr node parent definition evaluator subject task_run)
  build_for-Keeps run nr node parent definition evaluator subject none db = Evolves-refl db
  build_for-Keeps run nr node parent definition evaluator subject (some task_run) db =
      built-Evolves run nr db
        (services.build_agent_evaluator_run run nr node parent subject definition evaluator
          task_run.budget_id db)
        (leaves-Evolves (
          services.build_leaves run nr node parent subject definition evaluator task_run.budget_id
            db))

  evaluate_subject-Keeps :
      (run : WorkflowRun) (nr : NodeRun) (node : Node) (parent : NodeRun) (definition evaluator : ℕ)
      (subject : Option Artifact)
      → Keeps
          (evaluate_subject outside services now run nr node parent definition evaluator subject)
  evaluate_subject-Keeps run nr node parent definition evaluator none db =
      fail_node_at_dispatch-Keeps now nr run db
  evaluate_subject-Keeps run nr node parent definition evaluator (some subject) db =
      build_for-Keeps run nr node parent definition evaluator subject _ db

  with_output-Keeps :
      (run : WorkflowRun) (nr : NodeRun) (node : Node) (parent : NodeRun) (definition evaluator : ℕ)
      (agent artifact : Option ℕ)
      → Keeps
          (with_output outside services now run nr node parent definition evaluator agent artifact)
  with_output-Keeps run nr node parent definition evaluator none artifact db =
      fail_node_at_dispatch-Keeps now nr run db
  with_output-Keeps run nr node parent definition evaluator (some agent) none db =
      fail_node_at_dispatch-Keeps now nr run db
  with_output-Keeps run nr node parent definition evaluator (some agent) (some artifact) db =
      evaluate_subject-Keeps run nr node parent definition evaluator _ db

  with_parent_run-Keeps :
      (run : WorkflowRun) (nr : NodeRun) (node : Node) (definition evaluator : ℕ)
      (parent : Option NodeRun)
      → Keeps (with_parent_run outside services now run nr node definition evaluator parent)
  with_parent_run-Keeps run nr node definition evaluator none db = Evolves-refl db
  with_parent_run-Keeps run nr node definition evaluator (some parent) db =
      elim (Bool-cases (is_node parent.status NodeStatus.completed)) [
        | inr waits ↦ rw waits (Evolves-refl db)
        | inl done ↦ rw done (
            with_output-Keeps run nr node parent definition evaluator parent.agent_run_id
              parent.output_snapshot_ref db)
      ]

  configured-Keeps :
      (run : WorkflowRun) (nr : NodeRun) (node : Node) (definition evaluator : Option ℕ)
      → Keeps (configured outside services now run nr node definition evaluator)
  configured-Keeps run nr node none evaluator db = fail_node_at_dispatch-Keeps now nr run db
  configured-Keeps run nr node (some definition) none db = fail_node_at_dispatch-Keeps now nr run db
  configured-Keeps run nr node (some definition) (some evaluator) db =
      on_parent (single_parent db (select_where (λ edge. edge.to_node_id == node.id) db.edges))
    where
      on_parent :
          (o : Option Node)
          → Evolves db (with_parent outside services now run nr node definition evaluator o db).0
      on_parent none = fail_node_at_dispatch-Keeps now nr run db
      on_parent (some parent) =
          with_parent_run-Keeps run nr node definition evaluator
            (current_attempt nr.workflow_run_id parent.id db) db

  dispatch_evaluation-Keeps :
      (nr : NodeRun) (node : Node) (run : WorkflowRun)
      → Keeps (dispatch_evaluation outside services now nr node run)
  unfolding dispatch_evaluation
  dispatch_evaluation-Keeps nr node run db = elim (Bool-cases (accepts_dispatch run.id db)) [
    | inr closed ↦ rw closed (Evolves-refl db)
    | inl accepts ↦ rw accepts (
        configured-Keeps run nr node node.evaluation_definition_version_id
          node.evaluator_agent_version_id db)
  ]

  dispatch_typed-Keeps :
      (node_type : NodeType) (nr : NodeRun) (node : Node) (run : WorkflowRun)
      → Keeps (dispatch_typed outside services now node_type nr node run)
  unfolding dispatch_typed dispatch_human_approval dispatch_agent
  dispatch_typed-Keeps NodeType.terminal nr node run db = dispatch_terminal-Keeps nr run db
  dispatch_typed-Keeps NodeType.human_approval nr node run db =
      gate_in-Keeps nr node run node.approval_group db
  dispatch_typed-Keeps NodeType.evaluation nr node run db = dispatch_evaluation-Keeps nr node run db
  dispatch_typed-Keeps NodeType.agent nr node run db =
      execute-Keeps nr node run node.agent_version_id db
  dispatch_typed-Keeps _ nr node run db = fail_node_at_dispatch-Keeps now nr run db

  dispatch_rows-Keeps :
      (nr : NodeRun) (run : Option WorkflowRun) (node : Option Node)
      → Keeps (dispatch_rows outside services now nr run node)
  dispatch_rows-Keeps nr none o db = Evolves-refl db
  dispatch_rows-Keeps nr (some run) none db = Evolves-refl db
  dispatch_rows-Keeps nr (some run) (some node) db =
      dispatch_typed-Keeps node.node_type nr node run db

  unless_linked-Keeps :
      (link : Option ℕ) (nr : NodeRun) → Keeps (unless_linked outside services now link nr)
  unless_linked-Keeps (some agent_run_id) nr db = Evolves-refl db
  unless_linked-Keeps none nr db = dispatch_rows-Keeps nr _ _ db

  pub dispatch_node-Keeps :
      (nr : NodeRun) → Keeps (dispatch_node_for_execution outside services now nr)
  unfolding dispatch_node_for_execution
  dispatch_node-Keeps nr db = unless_linked-Keeps nr.agent_run_id nr db
