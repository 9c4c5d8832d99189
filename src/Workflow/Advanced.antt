-- ===== src/Workflow/Advanced.antt =====
-- The progress after an agent's end follows the abstract machine.
use multi_agent_ai_platform.Base.{
  ℕ, zero, suc, ◌≡◌, refl, ap, Bool, true, false, ◌||◌, Option, none, some, List, [], ◌∷◌,
  if◌then◌else◌, length, arith, Bool-cases, Option-cases, inl, inr,
}
use multi_agent_ai_platform.Schema.{
  RunStatus, NodeStatus, AgentStatus, EventType, node_completed, node_failed, node_cancelled,
  WorkflowRun, NodeRun, AgentRun, Artifact, Db,
}
use multi_agent_ai_platform.Effects.{ok, write, ◌>>◌}
use multi_agent_ai_platform.Workflow.Store.{
  is_dispatchable, is_terminal_node, fresh_run, fresh_node_run, fresh_node_runs, cas_node_run,
  cas_run, accepts_dispatch, has_failed_node, emit_event, event,
}
use multi_agent_ai_platform.Workflow.Ready.{find_ready_nodes, sync_run_state}
use multi_agent_ai_platform.Workflow.Finish.{check_workflow_complete}
use multi_agent_ai_platform.Workflow.Upstream.{Outside}
use multi_agent_ai_platform.Workflow.Evaluation.{
  EvaluationStatus, ExecutionServices, outcome_of, evaluation_outcome, node_of, is_open,
  agent_terminal, as_task_run_status,
}
use multi_agent_ai_platform.Workflow.Dispatch.{dispatch_node_for_execution}
use multi_agent_ai_platform.Workflow.Advance.{
  left_pending, output_artifact, complete_node, end_node, cancel_run_of, stop_node, record_outcome,
  is_evaluation, agent_of, linked_to, dispatch_each, schedule_passes, schedule_ready_nodes,
  advance_run, outcome, finish_node, complete_with, complete_linked, on_agent_run_complete,
}
use multi_agent_ai_platform.Workflow.Moves.{
  may_move, NodeMove, RunMove, is_final, Evolves, Evolves-trans, Evolves-refl,
}
use multi_agent_ai_platform.Workflow.Keeps.{
  Keeps, Keeps-then, Keeps-seq, Keeps-if, step_move, Evolves-if, emit_event-Evolves,
  cas_node_run-Evolves, cas_run-Evolves, check_workflow_complete-Evolves, sync_rounds-Evolves,
}
use multi_agent_ai_platform.Workflow.Stopped.{propagate_failure-Keeps}
use multi_agent_ai_platform.Workflow.Dispatched.{leaves-Evolves, dispatch_node-Keeps}

-- A RUNNING run may be cancelled, and so may one that waits.
cancelling_move :
    (x : WorkflowRun)
    → is_final x.status ≡ false
    → RunMove x (record x { status = RunStatus.cancelling })
cancelling_move x open_run = record {
  same_id = refl;
  same_version = refl;
  final = λ h. ground arith;
  cancelling = λ e. refl;
}

cancel_run_of-Evolves : (run_id : ℕ) (db : Db) → Evolves db (cancel_run_of run_id db)
unfolding cancel_run_of
cancel_run_of-Evolves run_id db =
    let cancelling : WorkflowRun → WorkflowRun = λ r. record r { status = RunStatus.cancelling } in
    let mid = (cas_run run_id RunStatus.running cancelling db).0 in
    Evolves-if (has_failed_node run_id db) db db
      (cas_run run_id RunStatus.node_waiting_for_approval cancelling mid).0 (Evolves-refl db)
      (Evolves-trans
        (cas_run-Evolves run_id RunStatus.running cancelling db
          (λ x e. cancelling_move x (ap is_final e)))
        (cas_run-Evolves run_id RunStatus.node_waiting_for_approval cancelling mid
          (λ x e. cancelling_move x (ap is_final e))))

complete_move :
    (now : ℕ) (o : Option Artifact) (x : NodeRun)
    → x.status ≡ NodeStatus.running
    → NodeMove x (complete_node now o x)
complete_move now none x e =
    step_move x (complete_node now none x) refl refl refl refl (inl refl) (rw e refl) (rw e refl)
complete_move now (some a) x e =
    step_move x (complete_node now (some a) x) refl refl refl refl (inl refl) (rw e refl)
      (rw e refl)

recorded-Evolves :
    (id : ℕ) (values : NodeRun → NodeRun) (t : EventType) (run : WorkflowRun) (then_db : Db → Db)
    (db : Db)
    → ((x : NodeRun) → x.status ≡ NodeStatus.running → NodeMove x (values x))
    → ((d : Db) → Evolves d (then_db d))
    → let (after, won) = cas_node_run id NodeStatus.running values db in
      Evolves db (if won then emit_event (event t run (some id)) (then_db after) else after)
recorded-Evolves id values t run then_db db h k =
    let after = (cas_node_run id NodeStatus.running values db).0 in
    let m = cas_node_run-Evolves id NodeStatus.running values db h in
    Evolves-if (cas_node_run id NodeStatus.running values db).1 db
      (emit_event (event t run (some id)) (then_db after)) after
      (Evolves-trans m
        (Evolves-trans (k after) (emit_event-Evolves (event t run (some id)) (then_db after))))
      m

end_move :
    (now : ℕ) (status : NodeStatus) (x : NodeRun)
    → may_move NodeStatus.running status ≡ true
    → x.status ≡ NodeStatus.running
    → NodeMove x (end_node now status x)
end_move now status x m e =
    step_move x (end_node now status x) refl refl refl refl (inl refl) (rw e m) (rw e refl)

stop_node-Evolves :
    (now : ℕ) (nr : NodeRun) (run : WorkflowRun) (db : Db) → Evolves db (stop_node now nr run db)
unfolding stop_node
stop_node-Evolves now nr run db =
    recorded-Evolves nr.id (end_node now NodeStatus.cancelled) node_cancelled run
      (cancel_run_of run.id) db (λ x e. end_move now NodeStatus.cancelled x refl e)
      (λ d. cancel_run_of-Evolves run.id d)

record_outcome-Evolves :
    (now : ℕ) (o : Option AgentStatus) (agent_run_id : ℕ) (nr : NodeRun) (run : WorkflowRun)
    (db : Db)
    → Evolves db (record_outcome now o agent_run_id nr run db)
unfolding record_outcome
record_outcome-Evolves now (some AgentStatus.completed) agent_run_id nr run db =
    recorded-Evolves nr.id (complete_node now (output_artifact agent_run_id db)) node_completed run
      (λ d. d) db (λ x e. complete_move now (output_artifact agent_run_id db) x e)
      (λ d. Evolves-refl d)
record_outcome-Evolves now (some AgentStatus.failed) agent_run_id nr run db =
    recorded-Evolves nr.id (end_node now NodeStatus.failed) node_failed run (λ d. d) db
      (λ x e. end_move now NodeStatus.failed x refl e) (λ d. Evolves-refl d)
record_outcome-Evolves now (some AgentStatus.stopped) agent_run_id nr run db =
    stop_node-Evolves now nr run db
record_outcome-Evolves now (some AgentStatus.cancelling) agent_run_id nr run db =
    stop_node-Evolves now nr run db
record_outcome-Evolves now none agent_run_id nr run db = Evolves-refl db
record_outcome-Evolves now (some _) agent_run_id nr run db = Evolves-refl db

module _ (outside : Outside) (services : ExecutionServices) (now : ℕ) where
  dispatch_each-Keeps :
      (run_id : ℕ) (rows : List NodeRun) (progressed : Bool)
      → Keeps (dispatch_each outside services now run_id rows progressed)
  unfolding dispatch_each
  dispatch_each-Keeps run_id [] progressed db = Evolves-refl db
  dispatch_each-Keeps run_id (nr ∷ rest) progressed db =
      elim (Bool-cases (accepts_dispatch run_id db)) [
        | inr closed ↦ rw closed (Evolves-refl db)
        | inl accepts ↦ rw accepts (
            Keeps-then (dispatch_node_for_execution outside services now nr)
              (λ _ d.
                dispatch_each outside services now run_id rest
                  (progressed || left_pending (fresh_node_run nr.id d)) d)
              (λ d. dispatch_node-Keeps outside services now nr d)
              (λ _ d.
                dispatch_each-Keeps run_id rest
                  (progressed || left_pending (fresh_node_run nr.id d)) d)
              db)
      ]

  schedule_passes-Keeps :
      (passes run_id : ℕ) → Keeps (schedule_passes outside services now passes run_id)
  unfolding schedule_passes
  schedule_passes-Keeps zero run_id db = Evolves-refl db
  schedule_passes-Keeps (suc passes) run_id db = elim (Bool-cases (accepts_dispatch run_id db)) [
    | inr closed ↦ rw closed (Evolves-refl db)
    | inl accepts ↦ rw accepts (
        Keeps-then (dispatch_each outside services now run_id (find_ready_nodes run_id db) false)
          (λ progressed d.
            if progressed then schedule_passes outside services now passes run_id d else (d, ok tt))
          (λ d. dispatch_each-Keeps run_id (find_ready_nodes run_id db) false d)
          (λ progressed d.
            Keeps-if progressed (schedule_passes outside services now passes run_id)
              (λ e. (e, ok tt)) (λ e. schedule_passes-Keeps passes run_id e) (λ e. Evolves-refl e)
              d)
          db)
  ]

  pub schedule_ready_nodes-Keeps :
      (run_id : ℕ) → Keeps (schedule_ready_nodes outside services now run_id)
  unfolding schedule_ready_nodes
  schedule_ready_nodes-Keeps run_id db = elim (Option-cases (fresh_run run_id db)) [
    | inl absent ↦ rw (absent, schedule_ready_nodes) (Evolves-refl db)
    | inr (run, found) ↦
        let passes =
          schedule_passes outside services now (suc (length (fresh_node_runs run_id db))) run_id in
        let check = write (check_workflow_complete now run_id) in
        let sync = write (sync_run_state run_id) in
        rw (found, schedule_ready_nodes)
          (elim (Bool-cases (is_dispatchable run.status)) [
            | inr closed ↦ rw closed (Evolves-refl db)
            | inl open_run ↦ rw open_run (
                Keeps-seq (passes >> check) sync
                  (Keeps-seq passes check
                    (λ d. schedule_passes-Keeps (suc (length (fresh_node_runs run_id db))) run_id d)
                    (λ d. check_workflow_complete-Evolves now run_id d))
                  (λ d. sync_rounds-Evolves 4 run_id d) db)
          ])
  ]

  pub advance_run-Keeps : (run_id : ℕ) → Keeps (advance_run outside services now run_id)
  unfolding advance_run
  advance_run-Keeps run_id db = elim (Option-cases (fresh_run run_id db)) [
    | inl absent ↦ rw (absent, advance_run) (Evolves-refl db)
    | inr (run, found) ↦
        rw (found, advance_run)
          (elim (Bool-cases (is_dispatchable run.status)) [
            | inr closed ↦ rw closed (check_workflow_complete-Evolves now run.id db)
            | inl open_run ↦ rw open_run (elim (Bool-cases (has_failed_node run.id db)) [
              | inl failing ↦ rw failing (propagate_failure-Keeps now run.id db)
              | inr healthy ↦ rw healthy (schedule_ready_nodes-Keeps run.id db)
            ])
          ])
  ]

  outcome_of-Evolves :
      (agent : AgentRun) (o : Option EvaluationStatus) (db : Db)
      → Evolves db (outcome_of services agent o db).0
  outcome_of-Evolves agent none db = Evolves-refl db
  outcome_of-Evolves agent (some status) db = elim (Bool-cases (is_open status)) [
    | inr over ↦ rw over (Evolves-refl db)
    | inl waits ↦ rw waits (elim (Bool-cases (agent_terminal agent.status)) [
      | inr going ↦ rw going (Evolves-refl db)
      | inl ended ↦ rw ended (
          leaves-Evolves
            (services.finalize_evaluation_leaves agent.id (as_task_run_status agent.status) db))
    ])
  ]

  outcome-Evolves :
      (agent : AgentRun) (nr : NodeRun) (db : Db)
      → Evolves db (outcome outside services now agent nr db).0
  unfolding evaluation_outcome
  outcome-Evolves agent nr db = elim (Bool-cases (is_evaluation (node_of nr.workflow_node_id db))) [
    | inr plain ↦ rw plain (Evolves-refl db)
    | inl judged ↦ rw judged (outcome_of-Evolves agent (services.evaluation_status agent.id db) db)
  ]

  finish_node-Evolves :
      (agent : AgentRun) (nr : NodeRun) (run : WorkflowRun) (db : Db)
      → Evolves db (finish_node outside services now agent nr run db)
  unfolding finish_node
  finish_node-Evolves agent nr run db =
      let r = outcome outside services now agent nr db in
      Evolves-trans (outcome-Evolves agent nr db)
        (record_outcome-Evolves now r.1 agent.id nr run r.0)

  complete_with-Keeps :
      (agent : AgentRun) (nr : NodeRun) (run : Option WorkflowRun)
      → Keeps (complete_with outside services now agent nr run)
  complete_with-Keeps agent nr none db = Evolves-refl db
  complete_with-Keeps agent nr (some run) db = elim (Bool-cases (is_terminal_node nr.status)) [
    | inl ended ↦ rw ended (advance_run-Keeps run.id db)
    | inr active ↦ rw active (
        Evolves-trans (finish_node-Evolves agent nr run db)
          (advance_run-Keeps run.id (finish_node outside services now agent nr run db)))
  ]

  complete_linked-Keeps :
      (agent : Option AgentRun) (nr : Option NodeRun)
      → Keeps (complete_linked outside services now agent nr)
  complete_linked-Keeps none nr db = Evolves-refl db
  complete_linked-Keeps (some agent) none db = Evolves-refl db
  complete_linked-Keeps (some agent) (some nr) db =
      complete_with-Keeps agent nr (fresh_run nr.workflow_run_id db) db

  pub on_agent_run_complete-Keeps :
      (agent_run_id : ℕ) → Keeps (on_agent_run_complete outside services now agent_run_id)
  unfolding on_agent_run_complete
  on_agent_run_complete-Keeps agent_run_id db =
      complete_linked-Keeps (agent_of agent_run_id db) (linked_to agent_run_id db) db
