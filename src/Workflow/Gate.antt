-- ===== src/Workflow/Gate.antt =====
-- `apply_approval_decision`: a human decision on a HUMAN_APPROVAL node, inside the decision's own
-- transaction.
use multi_agent_ai_platform.Base.{
  ℕ, Bool, true, not, ◌&&◌, Option, none, some, List, [], ◌∷◌, ◌==◌, if◌then◌else◌, find_where,
}
use multi_agent_ai_platform.Schema.{
  RunStatus, NodeStatus, ApprovalStatus, WorkflowRun, NodeRun, Node, Approval,
}
use multi_agent_ai_platform.Effects.{
  ok, raised, invalid_state_transition, fingerprint_mismatch, value_error, Act,
}
use multi_agent_ai_platform.Workflow.Store.{
  is_dispatchable, fresh_run, fresh_node_run, cas_node_run, cas_run, has_failed_node,
}
use multi_agent_ai_platform.Workflow.Upstream.{Outside, Entry, approval_action_payload}

-- The artifact of a single-input gate passes through it.
abbrev pub output_of : List Entry → Option ℕ
output_of (entry ∷ []) = entry.artifact_id
output_of _ = none

abbrev pub approve_node : ℕ → Option ℕ → NodeRun → NodeRun
approve_node now output nr = record nr {
  status = NodeStatus.completed;
  ended_at = some now;
  output_snapshot_ref = output;
}

abbrev pub reject_node : ℕ → NodeRun → NodeRun
reject_node now nr = record nr { status = NodeStatus.failed; ended_at = some now }

-- `run_accepts and self._cas_node_run(..)`, and the summary status if it was applied.
unfoldable pub move_gate : Bool → WorkflowRun → ℕ → (NodeRun → NodeRun) → Act Unit
move_gate run_accepts run node_run_id values db =
    let (moved_db, moved) = cas_node_run node_run_id NodeStatus.waiting_for_approval values db in
    if run_accepts && moved
    then (
      (cas_run run.id RunStatus.node_waiting_for_approval
          (λ r. record r { status = RunStatus.running }) moved_db).0,
      ok tt,
    )
    else (db, raised invalid_state_transition)

module _ (outside : Outside) (now : ℕ) (approval : Approval) where
  unfoldable pub decide_gate : ApprovalStatus → NodeRun → Node → WorkflowRun → Act Unit
  unfolding move_gate
  decide_gate ApprovalStatus.approved nr node run db =
      let payload = approval_action_payload outside nr node true db in
      if outside.digest payload == approval.action_fingerprint
      then move_gate (is_dispatchable run.status && not (has_failed_node run.id db)) run nr.id
          (approve_node now (output_of payload.upstream)) db
      else (db, raised fingerprint_mismatch)
  decide_gate ApprovalStatus.rejected nr node run db =
      move_gate (is_dispatchable run.status && not (has_failed_node run.id db)) run nr.id
        (reject_node now) db
  decide_gate _ nr node run db = (db, raised value_error)

  abbrev pub with_rows : ApprovalStatus → NodeRun → Option Node → Option WorkflowRun → Act Unit
  with_rows decision nr (some node) (some run) db = decide_gate decision nr node run db
  with_rows decision nr _ _ db = (db, raised invalid_state_transition)

  abbrev pub on_gate : ApprovalStatus → Option NodeRun → Act Unit
  on_gate decision none db = (db, raised invalid_state_transition)
  on_gate decision (some nr) db =
      with_rows decision nr (find_where (λ node. node.id == nr.workflow_node_id) db.nodes)
        (fresh_run nr.workflow_run_id db) db

  unfoldable pub apply_approval_decision : ApprovalStatus → Act Unit
  apply_approval_decision decision db =
      on_gate decision (fresh_node_run approval.scope_ref_id db) db
