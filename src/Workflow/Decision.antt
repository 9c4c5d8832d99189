-- ===== src/Workflow/Decision.antt =====
-- What a human decision on a gate may change, and under which conditions it is applied.
use multi_agent_ai_platform.Base.{
  ℕ, ◌≡◌, refl, sym, ◌∙◌, ap, Bool, true, false, not, ◌&&◌, Option, none, some, ◌==◌, find_where,
  arith, Bool-cases, inl, inr, Keyed, update_hit, update_miss, find-key, subst,
}
use multi_agent_ai_platform.Schema.{
  NodeStatus, ApprovalStatus, WorkflowRun, NodeRun, Node, Approval, Db, is_node,
}
use multi_agent_ai_platform.Effects.{ok, raised, Error}
use multi_agent_ai_platform.Workflow.Store.{
  is_dispatchable, fresh_run, fresh_node_run, cas_node_run, cas_run, has_failed_node,
}
use multi_agent_ai_platform.Workflow.Upstream.{Outside, approval_action_payload}
use multi_agent_ai_platform.Workflow.Gate.{
  output_of, approve_node, reject_node, move_gate, decide_gate, with_rows, on_gate,
  apply_approval_decision,
}

move_keeps :
    (accepts : Bool) (run : WorkflowRun) (id : ℕ) (values : NodeRun → NodeRun) (db : Db)
    → (move_gate accepts run id values db).0.approvals ≡ db.approvals
unfolding move_gate cas_node_run cas_run
move_keeps accepts run id values db = ground arith

move_atomic :
    (accepts : Bool) (run : WorkflowRun) (id : ℕ) (values : NodeRun → NodeRun) (db : Db) (e : Error)
    → (move_gate accepts run id values db).1 ≡ raised e
    → (move_gate accepts run id values db).0 ≡ db
unfolding move_gate cas_node_run cas_run
move_atomic accepts run id values db e h = ground arith

abbrev status_of : Option NodeRun → Bool
status_of none = false
status_of (some nr) = is_node nr.status NodeStatus.waiting_for_approval

-- The compare-and-swap of a gate, over the row that it names.
module _ (id : ℕ) (values : NodeRun → NodeRun) (db : Db) (nr : NodeRun)
    (keyed : Keyed (λ nr. nr.id) db.node_runs) (found : fresh_node_run id db ≡ some nr)
    (kept : (values nr).id ≡ nr.id) where
  move_applied :
      (accepts : Bool) (run : WorkflowRun)
      → (move_gate accepts run id values db).1 ≡ ok tt
      → (accepts ≡ true)
        × (is_node nr.status NodeStatus.waiting_for_approval ≡ true)
        × (fresh_node_run id (move_gate accepts run id values db).0 ≡ some (values nr))
  unfolding move_gate cas_node_run cas_run
  move_applied accepts run h =
      elim (Bool-cases (is_node nr.status NodeStatus.waiting_for_approval)) [
        | inl holds ↦
            let (one, row) =
              update_hit (λ nr. nr.id) id (λ nr. is_node nr.status NodeStatus.waiting_for_approval)
                values nr db.node_runs keyed found holds kept in
            ground (arith, one, row)
        | inr fails ↦
            let (same, zero_rows) =
              update_miss (λ nr. nr.id) id (λ nr. is_node nr.status NodeStatus.waiting_for_approval)
                values db.node_runs keyed (λ row e. ap status_of (sym e ∙ found) ∙ fails) in
            ground (arith, zero_rows)
      ]

module _ (outside : Outside) (now : ℕ) (approval : Approval) where
  decide_gate_keeps :
      (decision : ApprovalStatus) (nr : NodeRun) (node : Node) (run : WorkflowRun) (db : Db)
      → (decide_gate outside now approval decision nr node run db).0.approvals ≡ db.approvals
  unfolding decide_gate
  decide_gate_keeps decision nr node run db =
      let accepts = is_dispatchable run.status && not (has_failed_node run.id db) in
      let output = output_of (approval_action_payload outside nr node true db).upstream in
      ground (
        arith,
        move_keeps accepts run nr.id (approve_node now output) db,
        move_keeps accepts run nr.id (reject_node now) db,
      )

  decide_gate_atomic :
      (decision : ApprovalStatus) (nr : NodeRun) (node : Node) (run : WorkflowRun) (db : Db)
      (e : Error)
      → (decide_gate outside now approval decision nr node run db).1 ≡ raised e
      → (decide_gate outside now approval decision nr node run db).0 ≡ db
  unfolding decide_gate
  decide_gate_atomic decision nr node run db e h =
      let accepts = is_dispatchable run.status && not (has_failed_node run.id db) in
      let output = output_of (approval_action_payload outside nr node true db).upstream in
      ground (
        arith,
        move_atomic accepts run nr.id (approve_node now output) db e,
        move_atomic accepts run nr.id (reject_node now) db e,
      )

  with_rows_keeps :
      (decision : ApprovalStatus) (nr : NodeRun) (node : Option Node) (run : Option WorkflowRun)
      (db : Db)
      → (with_rows outside now approval decision nr node run db).0.approvals ≡ db.approvals
  with_rows_keeps decision nr none run db = refl
  with_rows_keeps decision nr (some node) none db = refl
  with_rows_keeps decision nr (some node) (some run) db = decide_gate_keeps decision nr node run db

  on_gate_keeps :
      (decision : ApprovalStatus) (nr : Option NodeRun) (db : Db)
      → (on_gate outside now approval decision nr db).0.approvals ≡ db.approvals
  on_gate_keeps decision none db = refl
  on_gate_keeps decision (some nr) db = with_rows_keeps decision nr _ _ db

  pub decision-keeps_approvals :
      (decision : ApprovalStatus) (db : Db)
      → (apply_approval_decision outside now approval decision db).0.approvals ≡ db.approvals
  unfolding apply_approval_decision
  decision-keeps_approvals decision db =
      on_gate_keeps decision (fresh_node_run approval.scope_ref_id db) db

  with_rows_atomic :
      (decision : ApprovalStatus) (nr : NodeRun) (node : Option Node) (run : Option WorkflowRun)
      (db : Db) (e : Error)
      → (with_rows outside now approval decision nr node run db).1 ≡ raised e
      → (with_rows outside now approval decision nr node run db).0 ≡ db
  with_rows_atomic decision nr none run db e h = refl
  with_rows_atomic decision nr (some node) none db e h = refl
  with_rows_atomic decision nr (some node) (some run) db e h =
      decide_gate_atomic decision nr node run db e h

  on_gate_atomic :
      (decision : ApprovalStatus) (nr : Option NodeRun) (db : Db) (e : Error)
      → (on_gate outside now approval decision nr db).1 ≡ raised e
      → (on_gate outside now approval decision nr db).0 ≡ db
  on_gate_atomic decision none db e h = refl
  on_gate_atomic decision (some nr) db e h = with_rows_atomic decision nr _ _ db e h

  -- A decision that the engine refuses with an error changes nothing.
  pub refused_decision_changes_nothing :
      (decision : ApprovalStatus) (db : Db) (e : Error)
      → (apply_approval_decision outside now approval decision db).1 ≡ raised e
      → (apply_approval_decision outside now approval decision db).0 ≡ db
  unfolding apply_approval_decision
  refused_decision_changes_nothing decision db e h =
      on_gate_atomic decision (fresh_node_run approval.scope_ref_id db) db e h

  -- The conditions of an applied approval, and the gate's row after it.
  abbrev pub Applied : NodeRun → Node → WorkflowRun → Db → Db → Type 0
  Applied nr node run db after =
      (outside.digest (approval_action_payload outside nr node true db)
        ≡ approval.action_fingerprint)
      × (is_dispatchable run.status ≡ true)
      × (has_failed_node run.id db ≡ false)
      × (is_node nr.status NodeStatus.waiting_for_approval ≡ true)
      × (fresh_node_run nr.id after
          ≡ some (
              approve_node now
                (output_of (approval_action_payload outside nr node true db).upstream) nr))

  decide_gate_approves :
      (nr : NodeRun) (node : Node) (run : WorkflowRun) (db : Db)
      → Keyed (λ nr. nr.id) db.node_runs
      → fresh_node_run nr.id db ≡ some nr
      → (decide_gate outside now approval ApprovalStatus.approved nr node run db).1 ≡ ok tt
      → Applied nr node run db
          (decide_gate outside now approval ApprovalStatus.approved nr node run db).0
  unfolding decide_gate
  decide_gate_approves nr node run db keyed found h =
      let accepts = is_dispatchable run.status && not (has_failed_node run.id db) in
      let output = output_of (approval_action_payload outside nr node true db).upstream in
      ground
        (arith, move_applied nr.id (approve_node now output) db nr keyed found refl accepts run)

  module _ (db : Db) (keyed : Keyed (λ nr. nr.id) db.node_runs) where
    with_rows_approves :
        (nr : NodeRun) (node : Option Node) (run : Option WorkflowRun)
        → fresh_node_run nr.id db ≡ some nr
        → (with_rows outside now approval ApprovalStatus.approved nr node run db).1 ≡ ok tt
        → (n : Node) × (r : WorkflowRun) × (node ≡ some n)
          × (run ≡ some r)
          × Applied nr n r db
              (with_rows outside now approval ApprovalStatus.approved nr node run db).0
    with_rows_approves nr none run found h = absurd (ground arith)
    with_rows_approves nr (some node) none found h = absurd (ground arith)
    with_rows_approves nr (some node) (some run) found h =
        (node, run, refl, refl, decide_gate_approves nr node run db keyed found h)

    on_gate_approves :
        (o : Option NodeRun)
        → fresh_node_run approval.scope_ref_id db ≡ o
        → (on_gate outside now approval ApprovalStatus.approved o db).1 ≡ ok tt
        → (nr : NodeRun) × (node : Node) × (run : WorkflowRun) × (fresh_node_run
              approval.scope_ref_id db
            ≡ some nr)
          × (find_where (λ node. node.id == nr.workflow_node_id) db.nodes ≡ some node)
          × (fresh_run nr.workflow_run_id db ≡ some run)
          × Applied nr node run db (on_gate outside now approval ApprovalStatus.approved o db).0
    on_gate_approves none e h = absurd (ground arith)
    on_gate_approves (some nr) e h =
        let same = find-key (λ nr. nr.id) approval.scope_ref_id db.node_runs nr e in
        let (node, run, found_node, found_run, applied) =
          with_rows_approves nr (find_where (λ node. node.id == nr.workflow_node_id) db.nodes)
            (fresh_run nr.workflow_run_id db)
            (subst (λ id. fresh_node_run id db ≡ some nr) (sym same) e) h in
        (nr, node, run, e, found_node, found_run, applied)

    -- With unique ids, if an approval is applied without error, then the gate's node run, its node
    -- and its run are there, the run is RUNNING or NODE_WAITING_FOR_APPROVAL with no node
    -- currently FAILED, the node run was WAITING_FOR_APPROVAL, the digest of the evidence as it is
    -- now (its files verified) is the fingerprint that was approved, and the node run is now
    -- COMPLETED.
    pub approval_binds_evidence :
        (apply_approval_decision outside now approval ApprovalStatus.approved db).1 ≡ ok tt
        → (nr : NodeRun) × (node : Node) × (run : WorkflowRun) × (fresh_node_run
              approval.scope_ref_id db
            ≡ some nr)
          × (find_where (λ node. node.id == nr.workflow_node_id) db.nodes ≡ some node)
          × (fresh_run nr.workflow_run_id db ≡ some run)
          × Applied nr node run db
              (apply_approval_decision outside now approval ApprovalStatus.approved db).0
    unfolding apply_approval_decision
    approval_binds_evidence h = on_gate_approves (fresh_node_run approval.scope_ref_id db) refl h
