-- ===== src/Workflow/Dispatch.antt =====
-- `_dispatch_node_for_execution` and `_dispatch_human_approval`: what a ready node becomes.
use multi_agent_ai_platform.Base.{
  ℕ, suc, ◌+◌, false, Option, none, some, List, [], ◌∷◌, ◌++◌, ◌==◌, if◌then◌else◌, find_where,
}
use multi_agent_ai_platform.Schema.{
  NodeStatus, NodeType, AgentStatus, workflow_node_run, node_completed, node_waiting,
  approval_requested, WorkflowRun, NodeRun, Node, InputContext, TaskRun, AgentRun, Approval, Db,
}
use multi_agent_ai_platform.Effects.{Result, ok, raised, Act}
use multi_agent_ai_platform.Workflow.Store.{
  fresh_run, accepts_dispatch, claim_pending_node, emit_event, event,
}
use multi_agent_ai_platform.Workflow.Ready.{sync_run_state}
use multi_agent_ai_platform.Workflow.Cancel.{human_approval_operation, fail_node_at_dispatch}
use multi_agent_ai_platform.Workflow.Upstream.{
  Outside, Entry, ActionPayload, approval_action_payload, gate_fuel, upstream_sources,
}
use multi_agent_ai_platform.Workflow.Lineage.{context_of}
use multi_agent_ai_platform.Workflow.Evaluation.{
  ExecutionServices, claim_and_queue, node_of, dispatch_evaluation,
}
use multi_agent_ai_platform.Approval.Resolve.{request_approval}

-- `payload["upstream"][0]["artifact_id"] if payload["upstream"] else None`
abbrev pub bound_artifact : List Entry → Option ℕ
bound_artifact [] = none
bound_artifact (entry ∷ _) = entry.artifact_id

-- The length of "workflow.human_approval".
abbrev pub human_approval_length : ℕ
human_approval_length = 23

abbrev pub dropped : Db × Result Approval → Db × Result (Unit {0})
dropped (db, ok a) = (db, ok tt)
dropped (db, raised e) = (db, raised e)

-- A new approval row takes the next id.
unfoldable pub request_gate_approval : Outside → ℕ → NodeRun → ActionPayload → Act Unit
request_gate_approval outside now nr payload db = dropped (
    request_approval outside now db.next_id workflow_node_run nr.id human_approval_operation
      human_approval_length payload none (bound_artifact payload.upstream)
      (record db { next_id = suc db.next_id }))

abbrev pub wait_for_human : ℕ → NodeRun → NodeRun
wait_for_human now nr = record nr {
  status = NodeStatus.waiting_for_approval;
  started_at = some now;
}

-- The claim and the approval are one transaction, whose error goes up.
abbrev pub gate_events : WorkflowRun → NodeRun → Db → Db
gate_events run nr db =
    emit_event (event approval_requested run (some nr.id))
      (emit_event (event node_waiting run (some nr.id)) (sync_run_state run.id db))

abbrev pub gate_requested :
    WorkflowRun → NodeRun → Db → Db × Result (Unit {0}) → Db × Result (Unit {0})
gate_requested run nr before (db, ok _) = (gate_events run nr db, ok tt)
gate_requested run nr before (db, raised e) = (before, raised e)

abbrev pub make_agent : ℕ → ℕ → Node → Option InputContext → AgentRun
make_agent now_id agent_version_id node context = record {
  id = suc now_id;
  task_run_id = now_id;
  agent_version_id = agent_version_id;
  input_context = context;
  model_policy_override = node.model_policy_override;
  status = AgentStatus.created;
  cancellation_requested_at = none;
  cancellation_requested_by = none;
}

-- The TaskRun and the AgentRun of an attempt, flushed before the claim.
unfoldable pub add_execution : WorkflowRun → NodeRun → Node → ℕ → TaskRun → Db → Db
add_execution run nr node agent_version_id parent db = record db {
  task_runs =
      db.task_runs
      ++ record {
        id = db.next_id;
        task_id = parent.task_id;
        workflow_version_id = some run.workflow_version_id;
        budget_id = parent.budget_id;
        cancellation_requested_at = none;
      }
        ∷ [];
  agent_runs =
      db.agent_runs
      ++ make_agent db.next_id agent_version_id node
          (context_of (upstream_sources (gate_fuel db) db nr))
        ∷ [];
  next_id = db.next_id + 2;
}

module _ (outside : Outside) (services : ExecutionServices) (now : ℕ) where
  abbrev pub gate_in : NodeRun → Node → WorkflowRun → Option ℕ → Act Unit
  gate_in nr node run none db = fail_node_at_dispatch now nr run db
  gate_in nr node run (some approval_group) db =
      let (claimed_db, claimed) = claim_pending_node nr.id false (wait_for_human now) db in
      if claimed
      then gate_requested run nr db (
          request_gate_approval outside now nr (approval_action_payload outside nr node false db)
            claimed_db)
      else (db, ok tt)

  unfoldable pub dispatch_human_approval : NodeRun → Node → WorkflowRun → Act Unit
  dispatch_human_approval nr node run db = gate_in nr node run node.approval_group db

  unfoldable pub dispatch_terminal : NodeRun → WorkflowRun → Act Unit
  dispatch_terminal nr run db =
      let (after, completed) =
        claim_pending_node nr.id false
          (λ r. record r { status = NodeStatus.completed; ended_at = some now }) db in
      if completed
      then (emit_event (event node_completed run (some nr.id)) after, ok tt)
      else (after, ok tt)

  abbrev pub execute_for : NodeRun → Node → WorkflowRun → ℕ → Option TaskRun → Db → Db
  execute_for nr node run agent_version_id none db = db
  execute_for nr node run agent_version_id (some parent) db =
      claim_and_queue now run nr (suc db.next_id) db
        (add_execution run nr node agent_version_id parent db)

  abbrev pub execute : NodeRun → Node → WorkflowRun → Option ℕ → Act Unit
  execute nr node run none db = fail_node_at_dispatch now nr run db
  execute nr node run (some agent_version_id) db =
      if accepts_dispatch run.id db
      then (
        execute_for nr node run agent_version_id
            (find_where (λ task_run. task_run.id == run.task_run_id) db.task_runs) db,
        ok tt,
      )
      else (db, ok tt)

  unfoldable pub dispatch_agent : NodeRun → Node → WorkflowRun → Act Unit
  dispatch_agent nr node run db = execute nr node run node.agent_version_id db

  unfoldable pub dispatch_typed : NodeType → NodeRun → Node → WorkflowRun → Act Unit
  dispatch_typed NodeType.terminal nr node run db = dispatch_terminal nr run db
  dispatch_typed NodeType.human_approval nr node run db = dispatch_human_approval nr node run db
  dispatch_typed NodeType.evaluation nr node run db =
      dispatch_evaluation outside services now nr node run db
  dispatch_typed NodeType.agent nr node run db = dispatch_agent nr node run db
  dispatch_typed _ nr node run db = fail_node_at_dispatch now nr run db

  abbrev pub dispatch_rows : NodeRun → Option WorkflowRun → Option Node → Act Unit
  dispatch_rows nr (some run) (some node) db = dispatch_typed node.node_type nr node run db
  dispatch_rows nr _ _ db = (db, ok tt)

  abbrev pub unless_linked : Option ℕ → NodeRun → Act Unit
  unless_linked (some agent_run_id) nr db = (db, ok tt)
  unless_linked none nr db =
      dispatch_rows nr (fresh_run nr.workflow_run_id db) (node_of nr.workflow_node_id db) db

  unfoldable pub dispatch_node_for_execution : NodeRun → Act Unit
  dispatch_node_for_execution nr db = unless_linked nr.agent_run_id nr db
