-- ===== src/Samples/Decisions.antt =====
-- Decisions on a gate, with the workflow engine behind the approval service.
use multi_agent_ai_platform.Base.{
  ◌≡◌, refl, false, true, none, some, arith, ◌≤◌, find_where, ◌==◌, ◌+◌, length, sort_by, insert_by,
  ◌⊎◌,
}
use multi_agent_ai_platform.Schema.{
  NodeStatus, ApprovalStatus, workflow_node_run, Approval, WorkflowRun, NodeRun, Node, Membership,
  member, Db, RunStatus,
}
use multi_agent_ai_platform.Effects.{ok, fingerprint_mismatch}
use multi_agent_ai_platform.Access.{modify, role_permits, check_project_access}
use multi_agent_ai_platform.Base.{Among, Any}
use multi_agent_ai_platform.Access.Laws.{rank, needed, check_project_access_grants}
use multi_agent_ai_platform.Workflow.Store.{
  fresh_run, fresh_node_run, has_failed_node, cas_run, cas_node_run, latest_by_node, latest_from,
  emit_event,
}
use multi_agent_ai_platform.Workflow.Upstream.{
  Outside, approval_action_payload, upstream_sources, artifact_content_hash, gate_fuel,
}
use multi_agent_ai_platform.Workflow.Gate.{apply_approval_decision, decide_gate, move_gate}
use multi_agent_ai_platform.Workflow.Decision.{
  Applied, decision-keeps_approvals, approval_binds_evidence,
}
use multi_agent_ai_platform.Workflow.Cancel.{cancel_node, close_gate}
use multi_agent_ai_platform.Workflow.Closing.{IsClosed, close_gate_all_or_nothing}
use multi_agent_ai_platform.Workflow.Depth.{IsRanked, gate_fuel_suffices}
use multi_agent_ai_platform.Approval.Expire.{
  expire_pending_for_cancellation, owning_project_id, record_expiry,
}
use multi_agent_ai_platform.Approval.Resolve.{
  Engine, IsDecided, resolve, decide, finish, compare_and_swap_decision, apply_scope_effect,
}
use multi_agent_ai_platform.Approval.Final.{
  ServiceRun, idle, step, stale_resolution, expiry, decision_is_final,
}
use multi_agent_ai_platform.Approval.Authority.{Authorized, resolve-Authorized}
use multi_agent_ai_platform.Approval.Rollback.{resolve_rolls_back}
use multi_agent_ai_platform.Samples.Rows.{an_approval, waiting_db, a_node_run, a_run}

-- A digest that tells payloads apart by their node run and the number of their sources.
abbrev an_outside : Outside
an_outside = record {
  digest = λ payload. payload.workflow_node_run_id + 64 + length payload.upstream;
  file_hash = λ storage_ref. some storage_ref;
  cleaned_note = λ comment. comment;
}

-- The engine's part of a decision, and nothing after it.
abbrev engine : Engine
engine = record {
  apply_decision = λ a decision. apply_approval_decision an_outside 100 a decision;
  after_resolved = λ a user decided_now db. db;
  apply_keeps = λ a decision db. decision-keeps_approvals an_outside 100 a decision db;
  after_keeps = λ a user decided_now db id b h. h;
}

program : Unit {0}
unfolding apply_approval_decision decide_gate move_gate has_failed_node cas_run cas_node_run
    latest_by_node latest_from approval_action_payload upstream_sources artifact_content_hash
    expire_pending_for_cancellation owning_project_id record_expiry resolve decide finish
    compare_and_swap_decision apply_scope_effect check_project_access role_permits sort_by insert_by
program = tt

abbrev pending_approval : Approval
pending_approval = an_approval ApprovalStatus.pending

-- User 7 approves at 100.
abbrev approved_db : Db
approved_db = (resolve an_outside engine 100 false 8 7 true 77 none waiting_db).0

abbrev approved_row : Approval
approved_row = record pending_approval {
  status = ApprovalStatus.approved;
  resolved_by = some 7;
  resolved_at = some 100;
}

approves : (resolve an_outside engine 100 false 8 7 true 77 none waiting_db).1 ≡ ok approved_row
unfolding program
approves = refl

abbrev membership : Membership
membership = record { project_id = 3; user_id = 7; role = member }

check_project_access_grants_example :
    Among membership waiting_db.memberships
    × Any (λ project. project.id ≡ 3) waiting_db.projects
    × (membership.project_id ≡ 3)
    × (membership.user_id ≡ 7)
    × (needed modify ≤ rank member)
unfolding program
check_project_access_grants_example =
    check_project_access_grants 7 3 modify waiting_db membership refl

approval_binds_evidence_example :
    (nr : NodeRun) × (node : Node) × (run : WorkflowRun) × (fresh_node_run 12 waiting_db ≡ some nr)
    × (find_where (λ node. node.id == nr.workflow_node_id) waiting_db.nodes ≡ some node)
    × (fresh_run nr.workflow_run_id waiting_db ≡ some run)
    × Applied an_outside 100 pending_approval nr node run waiting_db
        (apply_approval_decision an_outside 100 pending_approval ApprovalStatus.approved
          waiting_db).0
unfolding program
approval_binds_evidence_example =
    approval_binds_evidence an_outside 100 pending_approval waiting_db (ground arith) refl

resolve-Authorized_example : Authorized 8 7 77 waiting_db
unfolding program
resolve-Authorized_example =
    resolve-Authorized an_outside engine 100 false 8 7 true 77 none waiting_db approved_row refl

resolve_rolls_back_example :
    (resolve an_outside engine 100 false 8 7 true 76 none waiting_db).0 ≡ waiting_db
unfolding program
resolve_rolls_back_example =
    resolve_rolls_back an_outside engine 100 false 8 7 true 76 none waiting_db fingerprint_mismatch
      refl

approved_db-IsDecided : IsDecided 8 approved_row approved_db
unfolding program
approved_db-IsDecided = (refl, refl)

abbrev later_run :
    ServiceRun an_outside engine approved_db
      (expire_pending_for_cancellation 120 workflow_node_run 12 1 none 0
        (decide an_outside engine 110 false pending_approval ApprovalStatus.rejected 9 3 none
          approved_db).0).0
later_run =
    step (stale_resolution 110 false pending_approval ApprovalStatus.rejected 9 3 none)
      (step (expiry 120 workflow_node_run 12 1 none 0) idle)

-- A second user's rejection that read the row before the approval, and then the run's cancellation.
decision_is_final_example :
    IsDecided 8 approved_row
      (expire_pending_for_cancellation 120 workflow_node_run 12 1 none 0
        (decide an_outside engine 110 false pending_approval ApprovalStatus.rejected 9 3 none
          approved_db).0).0
decision_is_final_example = decision_is_final 8 approved_row later_run approved_db-IsDecided

-- The ids of the three nodes are ranks.
waiting_db-IsRanked : IsRanked (λ id. id) waiting_db.edges
waiting_db-IsRanked = ground arith

gate_fuel_suffices_example :
    upstream_sources
      (5 + gate_fuel waiting_db)
      waiting_db
      (a_node_run 12 2 NodeStatus.waiting_for_approval none)
    ≡ upstream_sources
        (gate_fuel waiting_db)
        waiting_db
        (a_node_run 12 2 NodeStatus.waiting_for_approval none)
gate_fuel_suffices_example =
    gate_fuel_suffices (λ id. id) waiting_db (a_node_run 12 2 NodeStatus.waiting_for_approval none)
      5 waiting_db-IsRanked (omega arith)

close_gate_all_or_nothing_example :
    ((close_gate 100 (a_run RunStatus.cancelling) none 1 12 waiting_db).0 ≡ waiting_db)
    ⊎ IsClosed 100 12 waiting_db
        (close_gate 100 (a_run RunStatus.cancelling) none 1 12 waiting_db).0
close_gate_all_or_nothing_example =
    close_gate_all_or_nothing 100 (a_run RunStatus.cancelling) none 1 12 waiting_db

closes :
    fresh_node_run 12 (close_gate 100 (a_run RunStatus.cancelling) none 1 12 waiting_db).0
    ≡ some (cancel_node 100 (a_node_run 12 2 NodeStatus.waiting_for_approval none))
unfolding program close_gate emit_event
closes = refl
