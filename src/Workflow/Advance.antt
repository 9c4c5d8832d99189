-- ===== src/Workflow/Advance.antt =====
-- What follows an agent's end: `on_agent_run_complete`, `_advance_run` and `_schedule_ready_nodes`.
use multi_agent_ai_platform.Base.{
  ℕ, zero, suc, Bool, true, false, not, ◌&&◌, ◌||◌, Option, none, some, List, [], ◌∷◌, ltb, leb,
  ◌==◌, if◌then◌else◌, length, find_where, select_where, same_option,
}
use multi_agent_ai_platform.Schema.{
  RunStatus, NodeStatus, NodeType, AgentStatus, node_completed, node_failed, node_cancelled,
  WorkflowRun, NodeRun, Node, AgentRun, Artifact, Db, is_node,
}
use multi_agent_ai_platform.Effects.{ok, Act, write, ◌>>=◌, ◌>>◌}
use multi_agent_ai_platform.Workflow.Store.{
  is_dispatchable, is_terminal_node, fresh_run, fresh_node_run, fresh_node_runs, cas_node_run,
  cas_run, accepts_dispatch, has_failed_node, emit_event, event,
}
use multi_agent_ai_platform.Workflow.Ready.{find_ready_nodes, sync_run_state}
use multi_agent_ai_platform.Workflow.Finish.{check_workflow_complete}
use multi_agent_ai_platform.Workflow.Cancel.{propagate_failure}
use multi_agent_ai_platform.Workflow.Upstream.{Outside}
use multi_agent_ai_platform.Workflow.Evaluation.{ExecutionServices, evaluation_outcome, node_of}
use multi_agent_ai_platform.Workflow.Dispatch.{dispatch_node_for_execution}

-- `current is not None and current.status != PENDING`
abbrev pub left_pending : Option NodeRun → Bool
left_pending none = false
left_pending (some nr) = not (is_node nr.status NodeStatus.pending)

-- `ORDER BY created_at, id LIMIT 1` of the agent run's artifacts.
abbrev pub artifact_le : Artifact → Artifact → Bool
artifact_le a b = ltb a.created_at b.created_at || a.created_at == b.created_at && leb a.id b.id

abbrev pub earlier : Artifact → Option Artifact → Option Artifact
earlier a none = some a
earlier a (some best) = if artifact_le a best then some a else some best

abbrev pub first_artifact : List Artifact → Option Artifact
first_artifact [] = none
first_artifact (a ∷ rest) = earlier a (first_artifact rest)

abbrev pub output_artifact : ℕ → Db → Option Artifact
output_artifact agent_run_id db =
    first_artifact (select_where (λ a. a.agent_run_id == agent_run_id) db.artifacts)

-- The values of a COMPLETED node: its output, if there is one.
abbrev pub complete_node : ℕ → Option Artifact → NodeRun → NodeRun
complete_node now none nr = record nr { status = NodeStatus.completed; ended_at = some now }
complete_node now (some artifact) nr = record nr {
  status = NodeStatus.completed;
  ended_at = some now;
  output_snapshot_ref = some artifact.id;
}

abbrev pub end_node : ℕ → NodeStatus → NodeRun → NodeRun
end_node now status nr = record nr { status = status; ended_at = some now }

-- A stopped node cancels its run, unless the run is failing.
unfoldable pub cancel_run_of : ℕ → Db → Db
cancel_run_of run_id db =
    if has_failed_node run_id db
    then db
    else let cancelling = λ (r : WorkflowRun). record r { status = RunStatus.cancelling } in
      (cas_run run_id RunStatus.node_waiting_for_approval cancelling
        (cas_run run_id RunStatus.running cancelling db).0).0

unfoldable pub stop_node : ℕ → NodeRun → WorkflowRun → Db → Db
stop_node now nr run db =
    let (after, won) =
      cas_node_run nr.id NodeStatus.running (end_node now NodeStatus.cancelled) db in
    if won
    then emit_event (event node_cancelled run (some nr.id)) (cancel_run_of run.id after)
    else after

-- The node's transition by its outcome; only the call that made the change records it.
unfoldable pub record_outcome : ℕ → Option AgentStatus → ℕ → NodeRun → WorkflowRun → Db → Db
record_outcome now (some AgentStatus.completed) agent_run_id nr run db =
    let (after, won) =
      cas_node_run nr.id NodeStatus.running (complete_node now (output_artifact agent_run_id db))
        db in
    if won then emit_event (event node_completed run (some nr.id)) after else after
record_outcome now (some AgentStatus.failed) agent_run_id nr run db =
    let (after, won) = cas_node_run nr.id NodeStatus.running (end_node now NodeStatus.failed) db in
    if won then emit_event (event node_failed run (some nr.id)) after else after
record_outcome now (some AgentStatus.stopped) agent_run_id nr run db = stop_node now nr run db
record_outcome now (some AgentStatus.cancelling) agent_run_id nr run db = stop_node now nr run db
record_outcome now _ agent_run_id nr run db = db

abbrev pub is_evaluation_type : NodeType → Bool
is_evaluation_type NodeType.evaluation = true
is_evaluation_type _ = false

abbrev pub is_evaluation : Option Node → Bool
is_evaluation none = false
is_evaluation (some node) = is_evaluation_type node.node_type

abbrev pub agent_of : ℕ → Db → Option AgentRun
agent_of id db = find_where (λ (a : AgentRun). a.id == id) db.agent_runs

abbrev pub linked_to : ℕ → Db → Option NodeRun
linked_to agent_run_id db =
    find_where (λ (nr : NodeRun). same_option nr.agent_run_id (some agent_run_id)) db.node_runs

module _ (outside : Outside) (services : ExecutionServices) (now : ℕ) where
  -- One pass over the ready nodes. The run is read again before each.
  unfoldable pub dispatch_each : ℕ → List NodeRun → Bool → Act Bool
  dispatch_each run_id [] progressed db = (db, ok progressed)
  dispatch_each run_id (nr ∷ rest) progressed db =
      if accepts_dispatch run_id db
      then (dispatch_node_for_execution outside services now nr >>= λ _ d.
            dispatch_each run_id rest (progressed || left_pending (fresh_node_run nr.id d)) d)
          db
      else (db, ok progressed)

  -- The passes, by how many are left.
  unfoldable pub schedule_passes : ℕ → ℕ → Act Unit
  schedule_passes zero run_id db = (db, ok tt)
  schedule_passes (suc passes) run_id db =
      if accepts_dispatch run_id db
      then (dispatch_each run_id (find_ready_nodes run_id db) false >>= λ progressed d.
            if progressed then schedule_passes passes run_id d else (d, ok tt))
          db
      else (db, ok tt)

  unfoldable pub schedule_ready_nodes : ℕ → Act Unit
  schedule_ready_nodes run_id db = elim (fresh_run run_id db) [
    | none ↦ (db, ok tt)
    | some run ↦
        if is_dispatchable run.status
        then (schedule_passes (suc (length (fresh_node_runs run_id db))) run_id
              >> write (check_workflow_complete now run_id)
              >> write (sync_run_state run_id))
            db
        else (db, ok tt)
  ]

  unfoldable pub advance_run : ℕ → Act Unit
  advance_run run_id db = elim (fresh_run run_id db) [
    | none ↦ (db, ok tt)
    | some run ↦
        if is_dispatchable run.status
        then (if has_failed_node run.id db
            then propagate_failure now run.id db
            else schedule_ready_nodes run.id db)
        else (check_workflow_complete now run.id db, ok tt)
  ]

  -- An EVALUATION node's outcome is its evaluation's.
  abbrev pub outcome : AgentRun → NodeRun → Db → Db × Option AgentStatus
  outcome agent nr db =
      if is_evaluation (node_of nr.workflow_node_id db)
      then evaluation_outcome services agent db
      else (db, some agent.status)

  unfoldable pub finish_node : AgentRun → NodeRun → WorkflowRun → Db → Db
  finish_node agent nr run db =
      let (after, status) = outcome agent nr db in record_outcome now status agent.id nr run after

  abbrev pub complete_with : AgentRun → NodeRun → Option WorkflowRun → Act Unit
  complete_with agent nr none db = (db, ok tt)
  complete_with agent nr (some run) db =
      if is_terminal_node nr.status
      then advance_run run.id db
      else advance_run run.id (finish_node agent nr run db)

  abbrev pub complete_linked : Option AgentRun → Option NodeRun → Act Unit
  complete_linked (some agent) (some nr) db =
      complete_with agent nr (fresh_run nr.workflow_run_id db) db
  complete_linked _ _ db = (db, ok tt)

  unfoldable pub on_agent_run_complete : ℕ → Act Unit
  on_agent_run_complete agent_run_id db =
      complete_linked (agent_of agent_run_id db) (linked_to agent_run_id db) db
