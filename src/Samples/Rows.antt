-- ===== src/Samples/Rows.antt =====
-- A run of three nodes in a row: an agent, a gate, an agent. Node run 11 of the agent is COMPLETED,
-- 12 waits at the gate, 13 is PENDING.
use multi_agent_ai_platform.Base.{ℕ, true, Option, none, some, [], ◌∷◌}
use multi_agent_ai_platform.Schema.{
  VersionStatus, RunStatus, NodeStatus, NodeType, AgentStatus, ApprovalStatus, WorkflowRun, NodeRun,
  Node, Edge, Approval, workflow_node_run, member, Db,
}

abbrev pub a_run : RunStatus → WorkflowRun
a_run status = record {
  id = 5;
  task_run_id = 50;
  workflow_version_id = 1;
  status = status;
  ended_at = none;
  cancellation_requested_at = none;
  cancellation_requested_by = none;
}

abbrev pub a_node_run : ℕ → ℕ → NodeStatus → Option ℕ → NodeRun
a_node_run id node_id status agent_run_id = record {
  id = id;
  workflow_run_id = 5;
  workflow_node_id = node_id;
  iteration = 1;
  status = status;
  agent_run_id = agent_run_id;
  started_at = none;
  ended_at = none;
  output_snapshot_ref = none;
}

abbrev a_node : ℕ → ℕ → NodeType → Node
a_node id node_key node_type = record {
  id = id;
  workflow_version_id = 1;
  node_key = node_key;
  node_type = node_type;
  approval_group = some 6;
  agent_version_id = some 40;
  model_policy_override = none;
  evaluation_definition_version_id = none;
  evaluator_agent_version_id = none;
}

abbrev an_edge : ℕ → ℕ → Edge
an_edge from to = record {
  workflow_version_id = 1;
  from_node_id = from;
  to_node_id = to;
  condition = none;
}

abbrev pub an_approval : ApprovalStatus → Approval
an_approval status = record {
  id = 8;
  scope = workflow_node_run;
  scope_ref_id = 12;
  operation_type = 1;
  action_fingerprint = 77;
  bound_artifact_id = none;
  status = status;
  requested_by = none;
  requested_at = 10;
  resolved_by = none;
  resolved_at = none;
  resolution_note = none;
}

-- The database with these statuses of the run, of the node runs 11, 12, 13 and of the approval.
abbrev pub db_of : RunStatus → NodeStatus → NodeStatus → NodeStatus → ApprovalStatus → Db
db_of run first gate last approval = record {
  runs = a_run run ∷ [];
  node_runs =
      a_node_run 11 1 first (some 91) ∷ a_node_run 12 2 gate none ∷ a_node_run 13 3 last none ∷ [];
  nodes =
      a_node 1 10 NodeType.agent
      ∷ a_node 2 20 NodeType.human_approval
      ∷ a_node 3 30 NodeType.agent
      ∷ [];
  edges = an_edge 1 2 ∷ an_edge 2 3 ∷ [];
  tasks = record { id = 70; project_id = 3 } ∷ [];
  task_runs =
      record {
        id = 50;
        task_id = 70;
        workflow_version_id = some 1;
        budget_id = none;
        cancellation_requested_at = none;
      }
      ∷ [];
  jobs = [];
  agent_runs =
      record {
        id = 91;
        task_run_id = 60;
        agent_version_id = 40;
        input_context = none;
        model_policy_override = none;
        status = AgentStatus.running;
        cancellation_requested_at = none;
        cancellation_requested_by = none;
      }
      ∷ [];
  artifacts = [];
  approvals = an_approval approval ∷ [];
  versions = record { id = 1; project_id = 3; status = VersionStatus.active } ∷ [];
  projects = record { id = 3; org_id = 2 } ∷ [];
  memberships = record { project_id = 3; user_id = 7; role = member } ∷ [];
  audit_events = [];
  events = [];
  recorder_up = true;
  next_id = 1000;
}

abbrev pub waiting_db : Db
waiting_db =
    db_of RunStatus.node_waiting_for_approval NodeStatus.completed NodeStatus.waiting_for_approval
      NodeStatus.pending ApprovalStatus.pending

-- The gate is passed; node run 13 is ready.
abbrev pub ready_db : Db
ready_db =
    db_of RunStatus.running NodeStatus.completed NodeStatus.completed NodeStatus.pending
      ApprovalStatus.approved

abbrev pub failed_db : Db
failed_db =
    db_of RunStatus.running NodeStatus.completed NodeStatus.failed NodeStatus.pending
      ApprovalStatus.rejected

abbrev pub completed_db : Db
completed_db =
    db_of RunStatus.running NodeStatus.completed NodeStatus.completed NodeStatus.completed
      ApprovalStatus.approved

abbrev pub started_db : Db
started_db =
    db_of RunStatus.running NodeStatus.running NodeStatus.pending NodeStatus.pending
      ApprovalStatus.pending
