-- ===== src/Samples/Engines.antt =====
-- Sequences of the engine's operations on small databases.
use multi_agent_ai_platform.Base.{
  ℕ, ◌+◌, ◌≡◌, refl, map, Keyed, All, Among, true, false, none, some, List, [], ◌∷◌, length,
  sort_by, insert_by,
}
use multi_agent_ai_platform.JobQueue.{enqueue}
use multi_agent_ai_platform.Schema.{
  AgentStatus, Node, RunStatus, NodeStatus, ApprovalStatus, WorkflowRun, NodeRun, Evidence, Db,
  is_node,
}
use multi_agent_ai_platform.Effects.{ok, raised, conflict}
use multi_agent_ai_platform.Workflow.Store.{
  fresh_run, fresh_node_run, latest_from, latest_by_node, barrier, may_claim, claim_pending_node,
  cas_node_run, cas_run, atomically_claim_node_for_execution, has_failed_node, accepts_dispatch,
  emit_event,
}
use multi_agent_ai_platform.Workflow.Finish.{final_status, finalize, check_workflow_complete}
use multi_agent_ai_platform.Workflow.Ready.{
  find_ready_nodes, only_humans_left_to_act, wanted_status, sync_rounds,
}
use multi_agent_ai_platform.Workflow.Lineage.{evidence_from, upstream_evidence}
use multi_agent_ai_platform.Workflow.Provenance.{names, Covers, upstream_evidence_exact}
use multi_agent_ai_platform.Approval.Resolve.{request_approval}
use multi_agent_ai_platform.Workflow.Cancel.{
  cancel_workflow_run, propagate_failure, fail_node_at_dispatch,
}
use multi_agent_ai_platform.Workflow.Upstream.{
  Outside, Source, upstream_sources, artifact_content_hash, approval_action_payload,
}
use multi_agent_ai_platform.Workflow.Evaluation.{
  node_of, LeavesEngine, ExecutionServices, enqueue_agent_run, claim_and_queue, evaluation_outcome,
  dispatch_evaluation,
}
use multi_agent_ai_platform.Workflow.Dispatch.{
  request_gate_approval, add_execution, dispatch_human_approval, dispatch_terminal, dispatch_agent,
  dispatch_typed, dispatch_node_for_execution,
}
use multi_agent_ai_platform.Workflow.Advance.{
  record_outcome, dispatch_each, schedule_passes, schedule_ready_nodes, advance_run, finish_node,
  on_agent_run_complete,
}
use multi_agent_ai_platform.Workflow.Reconcile.{
  create_missing_node_runs, repair_for, repair, heal_agent_nodes, reconcile_nodes, reconcile_open,
  reconcile_workflow_run, reconcile_active_runs,
}
use multi_agent_ai_platform.Workflow.Moves.{may_leave_cancelling, Evolves}
use multi_agent_ai_platform.Workflow.Engine.{
  agent_ended, cancellation, reconciliation, sweep, EngineRun, begin, then_step,
  engine_refines_machine, finished_run_is_final, cancelling_run_never_completes,
}
use multi_agent_ai_platform.Workflow.Retry.{
  RetryReads, emit_revived, retry_mode, classify, plan_for, fail_fast_cancellation_plan,
  resume_failed_run,
}
use multi_agent_ai_platform.Workflow.RetryNode.{
  add_retry_execution, retry_as_configured, claim_retry, insert_retry, resume_and_retry,
  retry_checked, retry_failed_agent_node,
}
use multi_agent_ai_platform.Workflow.Store.{claim_pending_node}
use multi_agent_ai_platform.Workflow.Cancel.{
  mark_cancelling, cancel_pending_nodes, cancel_each, close_waiting_approval_nodes, close_each,
  signal_active_agents,
}
use multi_agent_ai_platform.Base.{Keyed, arith}
use multi_agent_ai_platform.Workflow.Barred.{cancellation_bars_dispatch}
use multi_agent_ai_platform.Workflow.RetryRules.{Retryable, accepted_retry-Retryable}
use multi_agent_ai_platform.Workflow.Attempts.{
  engine_step, retry, Operations, idle, then_operation, terminal_node_run_is_final,
  execution_is_linked_once,
}
use multi_agent_ai_platform.Samples.Rows.{a_run, a_node_run, db_of, waiting_db, ready_db}

abbrev pub an_outside : Outside
an_outside = record {
  digest = λ payload. payload.workflow_node_run_id + 64 + length payload.upstream;
  file_hash = λ storage_ref. some storage_ref;
  cleaned_note = λ comment. comment;
}

pub untouched : (db : Db) → LeavesEngine db db
untouched db = record { same_node_runs = refl; same_runs = refl; same_approvals = refl }

-- No evaluation can be built, and nothing is left to finalize.
abbrev pub services : ExecutionServices
services = record {
  build_agent_evaluator_run =
      λ run nr node parent subject definition evaluator budget db. (db, raised conflict);
  evaluation_status = λ id db. none;
  finalize_agent_evaluator_run = λ id status db. db;
  finalize_interrupted = λ id db. db;
  has_dependency_problem = λ node project_id db. false;
  build_leaves = λ run nr node parent subject definition evaluator budget db. untouched db;
  finalize_evaluation_leaves = λ id status db. untouched db;
  finalize_interrupted_leaves = λ id db. untouched db;
}

engine : Unit {0}
unfolding sort_by insert_by enqueue latest_from latest_by_node barrier may_claim claim_pending_node
    cas_node_run cas_run atomically_claim_node_for_execution has_failed_node accepts_dispatch
    emit_event final_status finalize check_workflow_complete find_ready_nodes
    only_humans_left_to_act wanted_status sync_rounds upstream_sources artifact_content_hash
    approval_action_payload fail_node_at_dispatch propagate_failure evidence_from upstream_evidence
    enqueue_agent_run claim_and_queue add_execution dispatch_human_approval dispatch_terminal
    dispatch_agent dispatch_typed dispatch_node_for_execution dispatch_each schedule_passes
    schedule_ready_nodes advance_run record_outcome finish_node on_agent_run_complete repair_for
    repair heal_agent_nodes create_missing_node_runs reconcile_nodes reconcile_open
    reconcile_workflow_run request_approval request_gate_approval evaluation_outcome
    dispatch_evaluation emit_revived retry_mode classify plan_for fail_fast_cancellation_plan
    resume_failed_run add_retry_execution retry_as_configured claim_retry insert_retry
    resume_and_retry retry_checked retry_failed_agent_node
engine = tt

abbrev reconciled_ready : Db
reconciled_ready = (reconcile_workflow_run an_outside services 200 5 ready_db).0

-- Reconciliation of a run whose gate is passed dispatches the node behind it.
dispatched :
    fresh_node_run 13 reconciled_ready
    ≡ some (record (a_node_run 13 3 NodeStatus.running (some 1001)) { started_at = none })
unfolding engine
dispatched = refl

one_job : length reconciled_ready.jobs ≡ 1
unfolding engine
one_job = refl

-- A user cancels the run at 100; a sweep follows at 200.
abbrev cancelled : Db → Db
cancelled db = (cancel_workflow_run 100 5 (some 7) db).0

abbrev swept : Db → Db
swept db = (reconcile_active_runs an_outside services 200 (cancelled db)).0

abbrev cancel_and_sweep : (db : Db) → EngineRun an_outside services db (swept db)
cancel_and_sweep db = then_step (then_step begin (cancellation 100 5 (some 7))) (sweep 200)

-- The agent of node run 11 has ended, and its run is reconciled twice.
abbrev advanced : Db → Db
advanced db = (on_agent_run_complete an_outside services 100 91 db).0

abbrev reconciled : Db → Db
reconciled db = (reconcile_workflow_run an_outside services 200 5 (advanced db)).0

abbrev end_and_reconcile : (db : Db) → EngineRun an_outside services db (reconciled db)
end_and_reconcile db = then_step (then_step begin (agent_ended 100 91)) (reconciliation 200 5)

engine_refines_machine_example : Evolves waiting_db (swept waiting_db)
engine_refines_machine_example = engine_refines_machine (cancel_and_sweep waiting_db)

abbrev reads : RetryReads
reads = record {
  recovery_eligible = λ id db. false;
  was_interrupted = λ id db. true;
  has_unresolved_model_call = λ id db. false;
  model_is_available = λ model db. true;
}

-- The FAILED agent node of a FAILED run is retried, and its run reconciled.
abbrev broken_db : Db
broken_db =
    record (db_of RunStatus.failed NodeStatus.failed NodeStatus.pending NodeStatus.pending
      ApprovalStatus.pending) {
        agent_runs =
            record {
              id = 91;
              task_run_id = 60;
              agent_version_id = 40;
              input_context = none;
              model_policy_override = none;
              status = AgentStatus.failed;
              cancellation_requested_at = none;
              cancellation_requested_by = none;
            }
            ∷ [];
      }

abbrev retried : Db
retried = (retry_failed_agent_node an_outside services reads 100 11 none broken_db).0

abbrev retried_and_reconciled : Db
retried_and_reconciled = (reconcile_workflow_run an_outside services 200 5 retried).0

abbrev retry_and_reconcile : Operations an_outside services reads broken_db retried_and_reconciled
retry_and_reconcile =
    then_operation (then_operation idle (retry 100 11 none)) (engine_step (reconciliation 200 5))

accepted : (retry_failed_agent_node an_outside services reads 100 11 none broken_db).1 ≡ ok 1000
unfolding engine
accepted = refl

accepted_retry-Retryable_example :
    (nr : NodeRun) × (run : WorkflowRun) × (node : Node) × (fresh_node_run 11 broken_db ≡ some nr)
    × (fresh_run nr.workflow_run_id broken_db ≡ some run)
    × (node_of nr.workflow_node_id broken_db ≡ some node)
    × Retryable reads none nr run node broken_db
accepted_retry-Retryable_example =
    accepted_retry-Retryable an_outside services reads 100 none broken_db 1000 11 accepted

terminal_node_run_is_final_example :
    fresh_node_run 11 retried_and_reconciled ≡ some (a_node_run 11 1 NodeStatus.failed (some 91))
terminal_node_run_is_final_example =
    terminal_node_run_is_final retry_and_reconcile (a_node_run 11 1 NodeStatus.failed (some 91))
      refl refl

execution_is_linked_once_example :
    (y : NodeRun) × (fresh_node_run 11 retried_and_reconciled ≡ some y)
    × (y.agent_run_id ≡ some 91)
    × (y.workflow_run_id ≡ 5)
    × (y.workflow_node_id ≡ 1)
    × (y.iteration ≡ 1)
    × (is_node y.status NodeStatus.pending ≡ false)
execution_is_linked_once_example =
    execution_is_linked_once retry_and_reconcile (a_node_run 11 1 NodeStatus.failed (some 91)) 91
      refl refl refl

abbrev over_db : Db
over_db =
    db_of RunStatus.completed NodeStatus.completed NodeStatus.completed NodeStatus.completed
      ApprovalStatus.approved

finished_run_is_final_example :
    (y : WorkflowRun) × (fresh_run 5 (swept over_db) ≡ some y) × (y.status ≡ RunStatus.completed)
finished_run_is_final_example =
    finished_run_is_final (cancel_and_sweep over_db) (a_run RunStatus.completed) refl refl

abbrev cancelling_db : Db
cancelling_db =
    db_of RunStatus.cancelling NodeStatus.running NodeStatus.pending NodeStatus.pending
      ApprovalStatus.pending

cancelling_run_never_completes_example :
    (y : WorkflowRun) × (fresh_run 5 (reconciled cancelling_db) ≡ some y)
    × (may_leave_cancelling y.status ≡ true)
cancelling_run_never_completes_example =
    cancelling_run_never_completes (end_and_reconcile cancelling_db) (a_run RunStatus.cancelling)
      refl refl

-- Two sources with the same artifact, and one without.
abbrev sources : List Source
sources =
    (10, record (a_node_run 11 1 NodeStatus.completed none) { output_snapshot_ref = some 61 })
    ∷ (20, record (a_node_run 12 2 NodeStatus.completed none) { output_snapshot_ref = some 61 })
    ∷ (30, a_node_run 13 3 NodeStatus.completed none)
    ∷ []

one_entry : map (λ e. e.source_node_keys) (upstream_evidence sources) ≡ (10 ∷ 20 ∷ []) ∷ []
unfolding engine
one_entry = refl

upstream_evidence_exact_example :
    Keyed (λ (e : Evidence). e.artifact_id) (upstream_evidence sources)
    × ((source : Source) (a : ℕ)
        → Among source sources
        → source.1.output_snapshot_ref ≡ some a
        → Covers a source.0 (upstream_evidence sources))
    × All
        (λ (e : Evidence).
          (k : ℕ)
          → names k e ≡ true
          → (source : Source) × Among source sources
            × (source.0 ≡ k)
            × (source.1.output_snapshot_ref ≡ some e.artifact_id))
        (upstream_evidence sources)
upstream_evidence_exact_example = upstream_evidence_exact sources

-- The run is marked at 100, before anything else of the cancellation, and an agent's end is
-- handled at 200, while node run 13 is still PENDING.
abbrev marked : Db
marked = (mark_cancelling 100 5 (some 7) ready_db).0

abbrev later : Db
later = (on_agent_run_complete an_outside services 200 91 marked).0

abbrev end_later : EngineRun an_outside services marked later
end_later = then_step begin (agent_ended 200 91)

ending : Unit {0}
unfolding engine mark_cancelling cancel_pending_nodes cancel_each close_waiting_approval_nodes
    close_each signal_active_agents
ending = tt

abbrev claimed : NodeRun → NodeRun
claimed nr = record nr { status = NodeStatus.running }

later_runs-Keyed : Keyed (λ (r : WorkflowRun). r.id) later.runs
unfolding ending
later_runs-Keyed = ground arith

later_node_runs-Keyed : Keyed (λ (nr : NodeRun). nr.id) later.node_runs
unfolding ending
later_node_runs-Keyed = ground arith

cancellation_bars_dispatch_example : claim_pending_node 13 true claimed later ≡ (later, false)
unfolding ending
cancellation_bars_dispatch_example =
    cancellation_bars_dispatch 100 5 (some 7) ready_db later (a_run RunStatus.running) 13 true
      claimed (a_node_run 13 3 NodeStatus.pending none) refl refl end_later later_runs-Keyed
      later_node_runs-Keyed refl refl
