-- ===== src/Samples/Runs.antt =====
-- The workflow engine on small databases.
use multi_agent_ai_platform.Base.{
  ℕ, ◌≡◌, refl, false, true, none, some, List, [], ◌∷◌, arith, Keyed, ◌⊎◌, inl, Among, IsSorted,
  sort_by, insert_by,
}
use multi_agent_ai_platform.Schema.{RunStatus, NodeStatus, WorkflowRun, NodeRun, Db}
use multi_agent_ai_platform.Workflow.Store.{
  fresh_run, fresh_node_run, latest_by_node, latest_from, barrier, may_claim, claim_pending_node,
  atomically_claim_node_for_execution, has_failed_node, emit_event, cas_run,
}
use multi_agent_ai_platform.Workflow.Latest.{AttemptsUnique, has_failed_node-eq-barrier}
use multi_agent_ai_platform.Workflow.Claim.{
  claim_guard, claim_pending_node_exact, one_dispatcher_wins,
}
use multi_agent_ai_platform.Workflow.Finish.{
  check_workflow_complete, end_run, finalize, final_status,
}
use multi_agent_ai_platform.Workflow.Outcome.{
  Ends, latest_of, check_workflow_complete_sound, check_workflow_complete-Ends,
}
use multi_agent_ai_platform.Workflow.Ready.{find_ready_nodes, key_le, node_key_of}
use multi_agent_ai_platform.Workflow.Readiness.{IsReady, find_ready_nodes_exact}
use multi_agent_ai_platform.Workflow.Cancel.{cancel_pending_nodes, mark_cancelling}
use multi_agent_ai_platform.Samples.Rows.{a_run, a_node_run, ready_db, failed_db, completed_db}

program : Unit {0}
unfolding latest_by_node latest_from barrier may_claim claim_pending_node
    atomically_claim_node_for_execution sort_by insert_by has_failed_node emit_event cas_run
    finalize final_status check_workflow_complete find_ready_nodes cancel_pending_nodes
    mark_cancelling
program = tt

ready_runs : find_ready_nodes 5 ready_db ≡ a_node_run 13 3 NodeStatus.pending none ∷ []
unfolding program
ready_runs = refl

ready_db-Keyed : Keyed (λ (nr : NodeRun). nr.id) ready_db.node_runs
ready_db-Keyed = ground arith

ready_db-AttemptsUnique : AttemptsUnique ready_db.node_runs
ready_db-AttemptsUnique = ground arith

abbrev rows : List NodeRun
rows = ready_db.node_runs

has_failed_node-eq-barrier_example : has_failed_node 5 ready_db ≡ barrier 5 ready_db.node_runs
has_failed_node-eq-barrier_example = has_failed_node-eq-barrier 5 ready_db ready_db-AttemptsUnique

abbrev link : ℕ → NodeRun → NodeRun
link agent_run_id nr = record nr { agent_run_id = some agent_run_id; status = NodeStatus.running }

-- The claim of node run 13 for AgentRun 93.
claim_pending_node_exact_example :
    ((claim_pending_node 13 true (link 93) ready_db).1 ≡ true)
    × (true ≡ false → claim_pending_node 13 true (link 93) ready_db ≡ (ready_db, false))
    × ((nr : NodeRun)
        → fresh_node_run 13 ready_db ≡ some nr
        → claim_guard ready_db true nr ≡ true
        → fresh_node_run 13 (claim_pending_node 13 true (link 93) ready_db).0 ≡ some (link 93 nr))
unfolding program
claim_pending_node_exact_example =
    claim_pending_node_exact 13 true (link 93) ready_db ready_db-Keyed ready_db-AttemptsUnique
      (λ nr. refl)

abbrev dispatched_db : Db
dispatched_db = record ready_db {
  node_runs =
      a_node_run 11 1 NodeStatus.completed (some 91)
      ∷ a_node_run 12 2 NodeStatus.completed none
      ∷ link 93 (a_node_run 13 3 NodeStatus.pending none)
      ∷ [];
}

one_dispatcher_wins_example :
    ((nr : NodeRun) × (fresh_node_run 13 ready_db ≡ some nr)
      × (fresh_node_run 13 dispatched_db
          ≡ some (record nr { agent_run_id = some 93; status = NodeStatus.running })))
    × (atomically_claim_node_for_execution 13 94 dispatched_db ≡ (dispatched_db, false))
unfolding program
one_dispatcher_wins_example =
    one_dispatcher_wins 13 93 94 ready_db dispatched_db ready_db-Keyed refl

failed_db-Keyed : Keyed (λ (r : WorkflowRun). r.id) failed_db.runs
failed_db-Keyed = ground arith

check_workflow_complete_sound_example :
    (check_workflow_complete 100 5 failed_db ≡ failed_db)
    ⊎ ((target : RunStatus) × Ends RunStatus.running (latest_of 5 failed_db) target
        × (fresh_run 5 (check_workflow_complete 100 5 failed_db)
            ≡ some (end_run 100 target (a_run RunStatus.running))))
check_workflow_complete_sound_example =
    check_workflow_complete_sound 100 (a_run RunStatus.running) failed_db failed_db-Keyed refl

check_workflow_complete-Ends_example :
    (target : RunStatus) × Ends RunStatus.running (latest_of 5 failed_db) target
    × (fresh_run 5 (check_workflow_complete 100 5 failed_db)
        ≡ some (end_run 100 target (a_run RunStatus.running)))
unfolding program
check_workflow_complete-Ends_example =
    check_workflow_complete-Ends 100 (a_run RunStatus.running) failed_db failed_db-Keyed refl refl
      refl (inl refl)

completes :
    fresh_run 5 (check_workflow_complete 100 5 completed_db)
    ≡ some (end_run 100 RunStatus.completed (a_run RunStatus.running))
unfolding program
completes = refl

find_ready_nodes_exact_example :
    ((nr : NodeRun)
      → Among nr (find_ready_nodes 5 ready_db)
      → IsReady (a_run RunStatus.running) ready_db nr)
    × ((nr : NodeRun)
        → IsReady (a_run RunStatus.running) ready_db nr
        → Among nr (find_ready_nodes 5 ready_db))
    × IsSorted (key_le (node_key_of 1 ready_db.nodes)) (find_ready_nodes 5 ready_db)
find_ready_nodes_exact_example =
    find_ready_nodes_exact (a_run RunStatus.running) ready_db ready_db-AttemptsUnique refl
