-- ===== src/Approval/Expire.antt =====
-- Lookups of app/services/approval_service.py, and `expire_pending_for_cancellation`.
use multi_agent_ai_platform.Base.{
  ℕ, Bool, ◌&&◌, Option, none, some, [], ◌∷◌, ◌++◌, ◌==◌, if◌then◌else◌, find_where, update_where,
  count_where,
}
use multi_agent_ai_platform.Schema.{
  ApprovalScope, task_run, agent_run, workflow_node_run, artifact, ApprovalStatus, Approval,
  WorkflowVersion, WorkflowRun, NodeRun, Project, AuditType, closed, Db, is_approval,
}
use multi_agent_ai_platform.Effects.{Result, ok, raised, forbidden, not_found, Act}

abbrev pub scope_code : ApprovalScope → ℕ
scope_code task_run = 0
scope_code agent_run = 1
scope_code workflow_node_run = 2
scope_code artifact = 3

-- `WHERE scope = .. AND scope_ref_id = .. AND operation_type = ..`
abbrev pub concerns : ApprovalScope → ℕ → ℕ → Approval → Bool
concerns scope scope_ref_id operation_type a =
    scope_code a.scope == scope_code scope
    && (a.scope_ref_id == scope_ref_id && a.operation_type == operation_type)

abbrev pub find_approval : ApprovalScope → ℕ → ℕ → Db → Option Approval
find_approval scope scope_ref_id operation_type db =
    find_where (concerns scope scope_ref_id operation_type) db.approvals

abbrev pub get_approval : ℕ → Db → Result Approval
get_approval approval_id db = elim (find_where (λ a. a.id == approval_id) db.approvals) [
  | none ↦ raised not_found
  | some a ↦ ok a
]

abbrev pub version_project : Option WorkflowVersion → Result ℕ
version_project none = raised forbidden
version_project (some version) = ok version.project_id

abbrev pub run_project : Db → Option WorkflowRun → Result ℕ
run_project db none = raised forbidden
run_project db (some run) =
    version_project (find_where (λ version. version.id == run.workflow_version_id) db.versions)

abbrev pub node_run_project : Db → Option NodeRun → Result ℕ
node_run_project db none = raised forbidden
node_run_project db (some nr) =
    run_project db (find_where (λ run. run.id == nr.workflow_run_id) db.runs)

-- The joins of `owning_project_id`; it fails closed.
unfoldable pub owning_project_id : Approval → Db → Result ℕ
owning_project_id a db =
    if scope_code a.scope == scope_code workflow_node_run
    then node_run_project db (find_where (λ nr. nr.id == a.scope_ref_id) db.node_runs)
    else raised forbidden

-- AuditService.record with `commit=False`, if the project exists.
abbrev pub audit : AuditType → Option ℕ → ℕ → Option Project → Db → Db
audit event_type actor target none db = db
audit event_type actor target (some project) db = record db {
  audit_events =
      db.audit_events
      ++ record {
        org_id = project.org_id;
        event_type = event_type;
        actor_user_id = actor;
        target_ref = target;
      }
        ∷ [];
}

abbrev pub project_of : ℕ → Db → Option Project
project_of project_id db = find_where (λ project. project.id == project_id) db.projects

abbrev pub pending_for : ApprovalScope → ℕ → ℕ → Approval → Bool
pending_for scope scope_ref_id operation_type a =
    concerns scope scope_ref_id operation_type a && is_approval a.status ApprovalStatus.pending

abbrev pub expire : ℕ → Option ℕ → ℕ → Approval → Approval
expire now cancelled_by reason a = record a {
  status = ApprovalStatus.expired;
  resolved_by = cancelled_by;
  resolved_at = some now;
  resolution_note = some reason;
}

-- After the UPDATE: read the row back, find its project and write the audit event. `scalar_one`
-- finds the row that was just updated.
unfoldable pub record_expiry : Option Approval → Option ℕ → Act (Option Approval)
record_expiry none cancelled_by db = (db, raised not_found)
record_expiry (some a) cancelled_by db = elim (owning_project_id a db) [
  | raised e ↦ (db, raised e)
  | ok project_id ↦ (audit closed cancelled_by a.id (project_of project_id db) db, ok (some a))
]

-- The transaction is left to the caller (`commit=False`).
unfoldable pub expire_pending_for_cancellation :
    ℕ → ApprovalScope → ℕ → ℕ → Option ℕ → ℕ → Act (Option Approval)
expire_pending_for_cancellation now scope scope_ref_id operation_type cancelled_by reason db =
    let p = pending_for scope scope_ref_id operation_type in
    let after = record db {
      approvals = update_where p (expire now cancelled_by reason) db.approvals;
    } in
    if count_where p db.approvals == 1
    then record_expiry (find_approval scope scope_ref_id operation_type after) cancelled_by after
    else (after, ok none)
