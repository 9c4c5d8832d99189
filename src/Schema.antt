-- ===== src/Schema.antt =====
-- The database rows of the workflow engine and of approvals: app/models/workflow.py,
-- app/models/governance.py, app/models/tasks.py and the statuses of app/db/enums.py. A number stands
-- for a UUID, a point in time and a text that the code only compares.
use multi_agent_ai_platform.Base.{ℕ, Bool, Option, List, ◌==◌}
use multi_agent_ai_platform.JobQueue.{Job}

pub data RunStatus : Type 0 where
  created running node_waiting_for_agent node_waiting_for_approval repair_loop_active escalated :
      RunStatus
  cancelling cancelled completed failed : RunStatus

pub data NodeStatus : Type 0 where
  pending running waiting_for_approval completed failed cancelled : NodeStatus

pub data NodeType : Type 0 where
  agent parallel_group conditional repair_loop judge consensus human_approval terminal evaluation :
      NodeType

pub data VersionStatus : Type 0 where
  draft active deprecated retired : VersionStatus

pub data AgentStatus : Type 0 where
  created sandbox_provisioning running waiting_for_tool waiting_for_model cancelling stopped :
      AgentStatus
  completed failed : AgentStatus

pub data ApprovalStatus : Type 0 where
  pending approved rejected expired : ApprovalStatus

pub data ApprovalScope : Type 0 where
  task_run agent_run workflow_node_run artifact : ApprovalScope

pub data ProjectRole : Type 0 where
  owner admin member viewer : ProjectRole

pub record WorkflowRun : Type 0 where
  pub id : ℕ
  pub task_run_id : ℕ
  pub workflow_version_id : ℕ
  pub status : RunStatus
  pub ended_at : Option ℕ
  pub cancellation_requested_at : Option ℕ
  pub cancellation_requested_by : Option ℕ

pub record NodeRun : Type 0 where
  pub id : ℕ
  pub workflow_run_id : ℕ
  pub workflow_node_id : ℕ
  pub iteration : ℕ
  pub status : NodeStatus
  pub agent_run_id : Option ℕ
  pub started_at : Option ℕ
  pub ended_at : Option ℕ
  pub output_snapshot_ref : Option ℕ

pub record Node : Type 0 where
  pub id : ℕ
  pub workflow_version_id : ℕ
  pub node_key : ℕ
  pub node_type : NodeType
  pub approval_group : Option ℕ  -- config.approval_group, if it is a text that is not blank
  pub agent_version_id : Option ℕ  -- config.agent_version_id, if it is not empty
  pub model_policy_override : Option ℕ  -- config.model_policy_override
  -- config.evaluation_definition_version_id and config.evaluator_agent_version_id, if they are texts
  pub evaluation_definition_version_id : Option ℕ
  pub evaluator_agent_version_id : Option ℕ

pub record Edge : Type 0 where
  pub workflow_version_id : ℕ
  pub from_node_id : ℕ
  pub to_node_id : ℕ
  pub condition : Option ℕ

-- One artifact of the upstream sources, with the nodes that yield it.
pub record Evidence : Type 0 where
  pub artifact_id : ℕ
  pub node_key : ℕ
  pub node_run_id : ℕ
  pub source_node_keys : List ℕ

-- `agent_runs.input_context_json` of the kind `workflow_upstream`.
pub record InputContext : Type 0 where
  pub upstream_artifact_ids : List ℕ
  pub upstream_node_run_ids : List ℕ
  pub upstream : List Evidence

pub record Task : Type 0 where
  pub id : ℕ
  pub project_id : ℕ

pub record TaskRun : Type 0 where
  pub id : ℕ
  pub task_id : ℕ
  pub workflow_version_id : Option ℕ
  pub budget_id : Option ℕ
  pub cancellation_requested_at : Option ℕ

pub record AgentRun : Type 0 where
  pub id : ℕ
  pub task_run_id : ℕ
  pub agent_version_id : ℕ
  pub input_context : Option InputContext
  pub model_policy_override : Option ℕ
  pub status : AgentStatus
  pub cancellation_requested_at : Option ℕ
  pub cancellation_requested_by : Option ℕ

pub record Artifact : Type 0 where
  pub id : ℕ
  pub agent_run_id : ℕ
  pub content_hash : Option ℕ
  pub storage_ref : ℕ
  pub created_at : ℕ

pub record Approval : Type 0 where
  pub id : ℕ
  pub scope : ApprovalScope
  pub scope_ref_id : ℕ
  pub operation_type : ℕ
  pub action_fingerprint : ℕ
  pub bound_artifact_id : Option ℕ
  pub status : ApprovalStatus
  pub requested_by : Option ℕ
  pub requested_at : ℕ
  pub resolved_by : Option ℕ
  pub resolved_at : Option ℕ
  pub resolution_note : Option ℕ

-- workflow_versions joined with workflows: the project that owns a version.
pub record WorkflowVersion : Type 0 where
  pub id : ℕ
  pub project_id : ℕ
  pub status : VersionStatus

pub record Project : Type 0 where
  pub id : ℕ
  pub org_id : ℕ

pub record Membership : Type 0 where
  pub project_id : ℕ
  pub user_id : ℕ
  pub role : ProjectRole

-- The kinds of Flight Recorder event that the modelled code writes.
pub data EventType : Type 0 where
  workflow_started workflow_completed workflow_failed workflow_cancelled workflow_error : EventType
  node_retried node_retry_queued node_revived : EventType
  node_scheduled node_completed node_failed node_cancelled node_waiting : EventType
  approval_requested approval_approved approval_rejected approval_cancelled : EventType

pub record Event : Type 0 where
  pub event_type : EventType
  pub task_run_id : ℕ
  pub workflow_run_id : ℕ
  pub node_run_id : Option ℕ

pub data AuditType : Type 0 where
  decided : ApprovalStatus → AuditType
  closed : AuditType

pub record AuditEvent : Type 0 where
  pub org_id : ℕ
  pub event_type : AuditType
  pub actor_user_id : Option ℕ
  pub target_ref : ℕ

-- `recorder_up` says whether the best-effort evidence session succeeds; `next_id` stands for the supply
-- of fresh UUIDs.
pub record Db : Type 0 where
  pub runs : List WorkflowRun
  pub node_runs : List NodeRun
  pub nodes : List Node
  pub edges : List Edge
  pub tasks : List Task
  pub task_runs : List TaskRun
  pub agent_runs : List AgentRun
  pub jobs : List Job
  pub artifacts : List Artifact
  pub approvals : List Approval
  pub versions : List WorkflowVersion
  pub projects : List Project
  pub memberships : List Membership
  pub audit_events : List AuditEvent
  pub events : List Event
  pub recorder_up : Bool
  pub next_id : ℕ

-- Equality of statuses, by their place in the enum.
abbrev pub run_code : RunStatus → ℕ
run_code RunStatus.created = 0
run_code RunStatus.running = 1
run_code RunStatus.node_waiting_for_agent = 2
run_code RunStatus.node_waiting_for_approval = 3
run_code RunStatus.repair_loop_active = 4
run_code RunStatus.escalated = 5
run_code RunStatus.cancelling = 6
run_code RunStatus.cancelled = 7
run_code RunStatus.completed = 8
run_code RunStatus.failed = 9

abbrev pub node_code : NodeStatus → ℕ
node_code NodeStatus.pending = 0
node_code NodeStatus.running = 1
node_code NodeStatus.waiting_for_approval = 2
node_code NodeStatus.completed = 3
node_code NodeStatus.failed = 4
node_code NodeStatus.cancelled = 5

abbrev pub approval_code : ApprovalStatus → ℕ
approval_code ApprovalStatus.pending = 0
approval_code ApprovalStatus.approved = 1
approval_code ApprovalStatus.rejected = 2
approval_code ApprovalStatus.expired = 3

abbrev pub is_run : RunStatus → RunStatus → Bool
is_run a b = run_code a == run_code b

abbrev pub is_node : NodeStatus → NodeStatus → Bool
is_node a b = node_code a == node_code b

abbrev pub is_approval : ApprovalStatus → ApprovalStatus → Bool
is_approval a b = approval_code a == approval_code b
