-- ===== src/Workflow/Stopped.antt =====
-- A failure, a cancellation and a decision on a gate follow the abstract machine.
use multi_agent_ai_platform.Base.{
  ℕ, ◌≡◌, refl, ap, true, false, Option, none, some, update_where, arith, Bool-cases, Option-cases,
  inl, inr,
}
use multi_agent_ai_platform.Schema.{
  RunStatus, NodeStatus, WorkflowRun, NodeRun, node_failed, workflow_cancelled, Db, is_run,
}
use multi_agent_ai_platform.Effects.{write, ◌>>◌}
use multi_agent_ai_platform.Workflow.Store.{
  is_dispatchable, fresh_run, claim_pending_node, emit_event, event,
}
use multi_agent_ai_platform.Workflow.Finish.{check_workflow_complete}
use multi_agent_ai_platform.Workflow.Cancel.{
  workflow_cancelled_reason, workflow_failed_reason, cancel_pending_nodes,
  close_waiting_approval_nodes, signal_active_agents, propagate_failure, error_if_failed,
  fail_node_at_dispatch, is_cancellable, is_finished, marks, unrequested, request_cancel,
  mark_cancelling, cancel_marked, run_or, cancel_workflow_run,
}
use multi_agent_ai_platform.Workflow.Moves.{
  RunMove, is_final, may_leave_cancelling, Evolves, Evolves-trans, Evolves-refl, Evolves-runs,
}
use multi_agent_ai_platform.Workflow.Keeps.{
  Keeps, Keeps-seq, step_move, emit_event-Evolves, claim_pending_node-Evolves, Evolves-if,
  check_workflow_complete-Evolves,
}
use multi_agent_ai_platform.Workflow.Stopping.{
  cancel_pending_nodes-Evolves, close_waiting-Keeps, signal_active_agents-Evolves,
}

pub propagate_failure-Keeps : (now run_id : ℕ) → Keeps (propagate_failure now run_id)
unfolding propagate_failure
propagate_failure-Keeps now run_id db = elim (Option-cases (fresh_run run_id db)) [
  | inl absent ↦ rw (absent, propagate_failure) (Evolves-refl db)
  | inr (run, found) ↦
      rw (found, propagate_failure)
        (elim (Bool-cases (is_dispatchable run.status)) [
          | inr closed_run ↦ rw closed_run (Evolves-refl db)
          | inl open_run ↦ rw open_run (stops run db)
        ])
]
  where
    stops :
        (run : WorkflowRun)
        → Keeps (
            write (signal_active_agents now run_id none)
            >> close_waiting_approval_nodes now run none workflow_failed_reason
            >> write (check_workflow_complete now run_id))
    stops run db =
        let signal = write (signal_active_agents now run_id none) in
        let close = close_waiting_approval_nodes now run none workflow_failed_reason in
        let check = write (check_workflow_complete now run_id) in
        Keeps-seq (signal >> close) check
          (Keeps-seq signal close (λ d. signal_active_agents-Evolves now run_id none d)
            (λ d. close_waiting-Keeps now run none workflow_failed_reason d))
          (λ d. check_workflow_complete-Evolves now run_id d) db

error_if_failed-Evolves :
    (o : Option WorkflowRun) (id : ℕ) (db : Db) → Evolves db (error_if_failed o id db)
error_if_failed-Evolves none id db = Evolves-refl db
error_if_failed-Evolves (some run) id db =
    Evolves-if (is_run run.status RunStatus.failed) db _ db (emit_event-Evolves _ db)
      (Evolves-refl db)

pub fail_node_at_dispatch-Keeps :
    (now : ℕ) (nr : NodeRun) (run : WorkflowRun) → Keeps (fail_node_at_dispatch now nr run)
unfolding fail_node_at_dispatch
fail_node_at_dispatch-Keeps now nr run db =
    let values : NodeRun → NodeRun =
      λ r. record r { status = NodeStatus.failed; ended_at = some now } in
    let claim = claim_pending_node nr.id false values db in
    let failed = write (emit_event (event node_failed run (some nr.id))) in
    let m : Evolves db claim.0 =
      claim_pending_node-Evolves nr.id false values db
        (λ x e u. step_move x (values x) refl refl refl refl (inl refl) (rw e refl) (rw e refl)) in
    elim (Bool-cases claim.1) [
      | inr lost ↦ rw lost (Evolves-refl db)
      | inl won ↦ rw won (
          Evolves-trans m (
            Keeps-seq (failed >> propagate_failure now run.id)
              (write (λ d. error_if_failed (fresh_run run.id d) nr.id d))
              (Keeps-seq failed (propagate_failure now run.id)
                (λ d. emit_event-Evolves (event node_failed run (some nr.id)) d)
                (λ d. propagate_failure-Keeps now run.id d))
              (λ d. error_if_failed-Evolves (fresh_run run.id d) nr.id d) claim.0))
    ]

cancellable_open : (status : RunStatus) → is_cancellable status ≡ true → is_final status ≡ true → ⊥
cancellable_open RunStatus.created h f = ground arith
cancellable_open status h f = ground arith

mark_move :
    (x : WorkflowRun)
    → is_cancellable x.status ≡ true
    → RunMove x (record x { status = RunStatus.cancelling })
mark_move x open_run = record {
  same_id = refl;
  same_version = refl;
  final = λ h. absurd (cancellable_open x.status open_run h);
  cancelling = λ e. refl;
}

request_move : (now : ℕ) (user : Option ℕ) (x : WorkflowRun) → RunMove x (request_cancel now user x)
request_move now user x = record {
  same_id = refl;
  same_version = refl;
  final = λ h. refl;
  cancelling = λ e. ap may_leave_cancelling e;
}

mark_cancelling-Evolves :
    (now run_id : ℕ) (user : Option ℕ) (db : Db) → Evolves db (mark_cancelling now run_id user db).0
unfolding mark_cancelling
mark_cancelling-Evolves now run_id user db =
    Evolves-trans
      (Evolves-runs (marks run_id) (λ run. record run { status = RunStatus.cancelling }) db
        (λ x hit. mark_move x (ground arith)))
      (Evolves-runs (unrequested run_id) (request_cancel now user)
        (record db {
          runs =
              update_where (marks run_id) (λ run. record run { status = RunStatus.cancelling })
                db.runs;
        })
        (λ x hit. request_move now user x))

cancel_marked-Keeps :
    (now : ℕ) (run : WorkflowRun) (user : Option ℕ) → Keeps (cancel_marked now run user)
unfolding cancel_marked
cancel_marked-Keeps now run user =
    let pending = write (cancel_pending_nodes now run.id) in
    let close = close_waiting_approval_nodes now run user workflow_cancelled_reason in
    let signal = write (signal_active_agents now run.id user) in
    let announce = write (emit_event (event workflow_cancelled run none)) in
    let check = write (check_workflow_complete now run.id) in
    Keeps-seq (pending >> close >> signal >> announce) check
      (Keeps-seq (pending >> close >> signal) announce
        (Keeps-seq (pending >> close) signal
          (Keeps-seq pending close (λ d. cancel_pending_nodes-Evolves now run.id d)
            (λ d. close_waiting-Keeps now run user workflow_cancelled_reason d))
          (λ d. signal_active_agents-Evolves now run.id user d))
        (λ d. emit_event-Evolves (event workflow_cancelled run none) d))
      (λ d. check_workflow_complete-Evolves now run.id d)

pub cancel_workflow_run-Keeps :
    (now run_id : ℕ) (user : Option ℕ) → Keeps (cancel_workflow_run now run_id user)
unfolding cancel_workflow_run
cancel_workflow_run-Keeps now run_id user db = elim (Option-cases (fresh_run run_id db)) [
  | inl absent ↦ rw (absent, cancel_workflow_run) (Evolves-refl db)
  | inr (run, found) ↦
      let marked = mark_cancelling now run_id user db in
      let m = mark_cancelling-Evolves now run_id user db in
      rw (found, cancel_workflow_run)
        (elim (Bool-cases (is_finished run.status)) [
          | inl over ↦ rw over (Evolves-refl db)
          | inr going ↦ rw going (elim (Bool-cases marked.1) [
            | inr lost ↦ rw lost m
            | inl won ↦ rw won (
                Evolves-trans m
                  (cancel_marked-Keeps now (run_or run (fresh_run run_id marked.0)) user marked.0))
          ])
        ])
]
