-- ===== src/Workflow/RetryNode.antt =====
-- `retry_failed_agent_node` itself, with and without a replacement model.
use multi_agent_ai_platform.Base.{
  ℕ, suc, ◌+◌, Bool, true, false, not, ◌&&◌, ◌||◌, Option, none, some, List, [], ◌∷◌, ◌++◌, ◌==◌,
  if◌then◌else◌, is_none, find_where, exists_where,
}
use multi_agent_ai_platform.Schema.{
  RunStatus, NodeStatus, AgentStatus, node_retried, node_retry_queued, WorkflowRun, NodeRun, Node,
  AgentRun, TaskRun, Db, is_node, is_run,
}
use multi_agent_ai_platform.Effects.{
  Result, ok, raised, not_found, conflict, retry_not_allowed, Act, return, ◌>>◌,
}
use multi_agent_ai_platform.Workflow.Store.{
  fresh_run, fresh_node_run, fresh_node_runs, latest_by_node, cas_run,
  atomically_claim_node_for_execution, emit_event, event,
}
use multi_agent_ai_platform.Workflow.Upstream.{Outside, gate_fuel, upstream_sources}
use multi_agent_ai_platform.Workflow.Lineage.{context_of}
use multi_agent_ai_platform.Workflow.Evaluation.{ExecutionServices, enqueue_agent_run, node_of}
use multi_agent_ai_platform.Workflow.Advance.{is_evaluation_type, agent_of, advance_run}
use multi_agent_ai_platform.Workflow.Retry.{
  RetryReads, RetryMode, as_configured, replacement, ResumePlan, is_retryable_type, next_attempt,
  next_attempts, collides_with, insertable, insert_rows, resume_run, emit_revived, retry_mode,
  fail_fast_cancellation_plan, resume_failed_run,
}

-- The new attempt's TaskRun and AgentRun. The override to the replacement model is named by the model.
unfoldable pub add_retry_execution : WorkflowRun → NodeRun → AgentRun → TaskRun → ℕ → Db → Db
add_retry_execution run nr failed_agent parent model db = record db {
  task_runs =
      db.task_runs
      ++ record {
        id = db.next_id;
        task_id = parent.task_id;
        workflow_version_id = some run.workflow_version_id;
        budget_id = parent.budget_id;
        cancellation_requested_at = none;
      }
        ∷ [];
  agent_runs =
      db.agent_runs
      ++ record {
        id = suc db.next_id;
        task_run_id = db.next_id;
        agent_version_id = failed_agent.agent_version_id;
        input_context = context_of (upstream_sources (gate_fuel db) db nr);
        model_policy_override = some model;
        status = AgentStatus.created;
        cancellation_requested_at = none;
        cancellation_requested_by = none;
      }
        ∷ [];
  next_id = db.next_id + 2;
}

abbrev pub is_as_configured : RetryMode → Bool
is_as_configured as_configured = true
is_as_configured replacement = false

abbrev pub id_or : ℕ → Option NodeRun → ℕ
id_or id none = id
id_or id (some nr) = nr.id

-- `latest.get(node.id, node_run).id == node_run.id`
abbrev pub is_latest : NodeRun → ℕ → Db → Bool
is_latest nr run_id db =
    id_or nr.id (
      find_where (λ r. r.workflow_node_id == nr.workflow_node_id)
        (latest_by_node (fresh_node_runs run_id db)))
    == nr.id

module _ (outside : Outside) (services : ExecutionServices) (reads : RetryReads) (now : ℕ) where
  abbrev pub retry_events : WorkflowRun → NodeRun → Bool → List NodeRun → Db → Db
  retry_events run row resumed revived db = emit_revived run revived (
      emit_event (event (if resumed then node_retried else node_retry_queued) run (some row.id)) db)

  abbrev pub after_resume : WorkflowRun → NodeRun → Db × (Bool × List NodeRun) → Db × Result ℕ
  after_resume run row (db, (resumed, revived)) =
      if resumed
      then (advance_run outside services now run.id >> return row.id)
          (retry_events run row resumed revived db)
      else (retry_events run row resumed revived db, ok row.id)

  -- The new attempt is committed; then the run is resumed, if nothing else of it is FAILED.
  unfoldable pub retry_as_configured : NodeRun → WorkflowRun → Act ℕ
  retry_as_configured nr run db =
      let row = next_attempt db.next_id nr in
      if exists_where (collides_with row) db.node_runs
      then (db, raised conflict)
      else after_resume run row (resume_failed_run reads run.id (insert_rows (row ∷ []) db))

  abbrev pub after_retry_claim : WorkflowRun → NodeRun → ℕ → List NodeRun → Act ℕ
  after_retry_claim run row agent_run_id revived db =
      (advance_run outside services now run.id >> return row.id)
        (retry_events run row true revived (enqueue_agent_run now agent_run_id db))

  -- The claim; a loser's whole transaction is rolled back to `before`.
  unfoldable pub claim_retry :
      WorkflowRun → NodeRun → AgentRun → TaskRun → ℕ → List NodeRun → Db → Act ℕ
  claim_retry run row failed_agent parent model revived before db =
      let agent_run_id = suc db.next_id in
      let (claimed_db, claimed) =
        atomically_claim_node_for_execution row.id agent_run_id
          (add_retry_execution run row failed_agent parent model db) in
      if claimed
      then after_retry_claim run row agent_run_id revived claimed_db
      else (before, raised conflict)

  unfoldable pub insert_retry :
      WorkflowRun → NodeRun → AgentRun → TaskRun → ℕ → List NodeRun → Db → Act ℕ
  insert_retry run nr failed_agent parent model revived before db =
      let row = next_attempt db.next_id nr in
      if exists_where (collides_with row) db.node_runs
      then (before, raised conflict)
      else claim_retry run row failed_agent parent model revived before (insert_rows (row ∷ []) db)

  unfoldable pub resume_and_retry :
      WorkflowRun → NodeRun → AgentRun → TaskRun → ℕ → ResumePlan → Act ℕ
  resume_and_retry run nr failed_agent parent model plan db =
      let (resumed_db, won) = cas_run run.id RunStatus.failed resume_run db in
      let rows = next_attempts db.next_id plan.revived in
      if won && insertable rows resumed_db.node_runs
      then insert_retry run nr failed_agent parent model rows db (insert_rows rows resumed_db)
      else (db, raised conflict)

  abbrev pub with_parent_task_run :
      WorkflowRun → NodeRun → AgentRun → Option TaskRun → ℕ → ResumePlan → Act ℕ
  with_parent_task_run run nr failed_agent none model plan db = (db, raised not_found)
  with_parent_task_run run nr failed_agent (some parent) model plan db =
      resume_and_retry run nr failed_agent parent model plan db

  abbrev pub replace_for : WorkflowRun → NodeRun → Option AgentRun → ℕ → ResumePlan → Act ℕ
  replace_for run nr none model plan db = (db, raised not_found)
  replace_for run nr (some failed_agent) model plan db =
      if reads.model_is_available model db
      then with_parent_task_run run nr failed_agent
          (find_where (λ (t : TaskRun). t.id == run.task_run_id) db.task_runs) model plan db
      else (db, raised retry_not_allowed)

  abbrev pub linked_agent : Option ℕ → Db → Option AgentRun
  linked_agent none db = none
  linked_agent (some agent_run_id) db = agent_of agent_run_id db

  abbrev pub retry_with : Option ℕ → NodeRun → WorkflowRun → ResumePlan → Act ℕ
  retry_with none nr run plan db = retry_as_configured nr run db
  retry_with (some model) nr run plan db =
      replace_for run nr (linked_agent nr.agent_run_id db) model plan db

  -- The mode allows the request, and the run could complete afterwards.
  abbrev pub with_mode : Option RetryMode → Option ℕ → NodeRun → WorkflowRun → Node → Act ℕ
  with_mode none model nr run node db = (db, raised retry_not_allowed)
  with_mode (some mode) model nr run node db =
      if is_evaluation_type node.node_type && not (is_none model)
        || is_none model && not (is_as_configured mode)
        || (fail_fast_cancellation_plan reads run db).blocked
      then (db, raised retry_not_allowed)
      else retry_with model nr run (fail_fast_cancellation_plan reads run db) db

  unfoldable pub retry_checked : Option ℕ → NodeRun → WorkflowRun → Node → Act ℕ
  retry_checked model nr run node db =
      if is_retryable_type node.node_type
        && (is_latest nr run.id db
            && (is_node nr.status NodeStatus.failed && is_run run.status RunStatus.failed))
      then with_mode (retry_mode reads nr node db) model nr run node db
      else (db, raised retry_not_allowed)

  abbrev pub with_rows_of : Option ℕ → NodeRun → Option WorkflowRun → Option Node → Act ℕ
  with_rows_of model nr (some run) (some node) db = retry_checked model nr run node db
  with_rows_of model nr _ _ db = (db, raised not_found)

  abbrev pub retry_node_run : Option ℕ → Option NodeRun → Act ℕ
  retry_node_run model none db = (db, raised not_found)
  retry_node_run model (some nr) db =
      with_rows_of model nr (fresh_run nr.workflow_run_id db) (node_of nr.workflow_node_id db) db

  unfoldable pub retry_failed_agent_node : ℕ → Option ℕ → Act ℕ
  retry_failed_agent_node node_run_id model db =
      retry_node_run model (fresh_node_run node_run_id db) db
