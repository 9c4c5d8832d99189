-- ===== src/Workflow/Start.antt =====
-- `start_workflow_run` and `start_workflow_run_from_task`.
use multi_agent_ai_platform.Base.{
  ℕ, suc, Bool, true, false, not, ◌&&◌, Option, none, some, List, [], ◌∷◌, ◌++◌, ltb, ◌==◌,
  if◌then◌else◌, is_none, find_where, select_where, exists_where, count_where,
}
use multi_agent_ai_platform.Schema.{
  RunStatus, VersionStatus, workflow_started, WorkflowRun, Node, Edge, Task, TaskRun,
  WorkflowVersion, Db,
}
use multi_agent_ai_platform.Effects.{raised, workflow_execution, Act, return, write, ◌>>◌}
use multi_agent_ai_platform.Workflow.Store.{emit_event, event}
use multi_agent_ai_platform.Workflow.Ready.{is_empty}
use multi_agent_ai_platform.Workflow.Upstream.{Outside}
use multi_agent_ai_platform.Workflow.Evaluation.{ExecutionServices}
use multi_agent_ai_platform.Workflow.Advance.{is_evaluation_type, schedule_ready_nodes}
use multi_agent_ai_platform.Workflow.Reconcile.{pending_rows, after_ids}

abbrev pub is_active_version : VersionStatus → Bool
is_active_version VersionStatus.active = true
is_active_version _ = false

abbrev pub nodes_of : ℕ → Db → List Node
nodes_of version_id db = select_where (λ node. node.workflow_version_id == version_id) db.nodes

abbrev pub edges_of : ℕ → Db → List Edge
edges_of version_id db = select_where (λ edge. edge.workflow_version_id == version_id) db.edges

abbrev pub is_conditional : Edge → Bool
is_conditional edge = not (is_none edge.condition)

-- `max(outgoing.values()) > settings.workflow_max_fan_out`
abbrev pub fans_out_above : ℕ → List Edge → Bool
fans_out_above limit edges =
    exists_where
      (λ edge. ltb limit (count_where (λ other. other.from_node_id == edge.from_node_id) edges))
      edges

abbrev pub task_of : Option TaskRun → Db → Option Task
task_of none db = none
task_of (some task_run) db = find_where (λ task. task.id == task_run.task_id) db.tasks

abbrev pub in_project : ℕ → Option Task → Bool
in_project project_id none = false
in_project project_id (some task) = project_id == task.project_id

abbrev pub version_of : ℕ → Db → Option WorkflowVersion
version_of version_id db = find_where (λ version. version.id == version_id) db.versions

abbrev pub task_run_of : ℕ → Db → Option TaskRun
task_run_of task_run_id db = find_where (λ task_run. task_run.id == task_run_id) db.task_runs

module _ (outside : Outside) (services : ExecutionServices) (now max_fan_out : ℕ) where
  -- The dependencies of every EVALUATION node must still be valid.
  abbrev pub has_evaluation_problem : ℕ → List Node → Db → Bool
  has_evaluation_problem project_id nodes db =
      exists_where
        (λ node.
          is_evaluation_type node.node_type && services.has_dependency_problem node project_id db)
        nodes

  -- All the checks before the first write; each refusal is the same error.
  abbrev pub version_startable : Option WorkflowVersion → ℕ → Db → Bool
  version_startable none task_run_id db = false
  version_startable (some version) task_run_id db =
      is_active_version version.status
      && (in_project version.project_id (task_of (task_run_of task_run_id db) db)
          && (not (is_empty (nodes_of version.id db))
              && (not (exists_where is_conditional (edges_of version.id db))
                  && (not (fans_out_above max_fan_out (edges_of version.id db))
                      && not (
                          has_evaluation_problem version.project_id (nodes_of version.id db) db)))))

  unfoldable pub startable : ℕ → ℕ → Db → Bool
  startable version_id task_run_id db = version_startable (version_of version_id db) task_run_id db

  abbrev pub new_run : ℕ → ℕ → ℕ → WorkflowRun
  new_run id version_id task_run_id = record {
    id = id;
    task_run_id = task_run_id;
    workflow_version_id = version_id;
    status = RunStatus.running;
    ended_at = none;
    cancellation_requested_at = none;
    cancellation_requested_by = none;
  }

  -- The run, RUNNING, with one PENDING node run for each node: one transaction.
  unfoldable pub create_run : ℕ → ℕ → Db → Db
  create_run version_id task_run_id db =
      let nodes = nodes_of version_id db in
      record db {
        runs = db.runs ++ new_run db.next_id version_id task_run_id ∷ [];
        node_runs = db.node_runs ++ pending_rows (suc db.next_id) db.next_id nodes;
        next_id = after_ids (suc db.next_id) nodes;
      }

  unfoldable pub start_workflow_run : ℕ → ℕ → Act ℕ
  start_workflow_run version_id task_run_id db =
      if startable version_id task_run_id db
      then (write (create_run version_id task_run_id)
            >> write (
                emit_event
                  (event workflow_started (new_run db.next_id version_id task_run_id) none))
            >> schedule_ready_nodes outside services now db.next_id
            >> return db.next_id)
          db
      else (db, raised workflow_execution)

  -- Any error of the start takes the TaskRun with it, unless the run was committed before.
  abbrev pub add_task_run : ℕ → ℕ → Db → Db
  add_task_run version_id task_id db = record db {
    task_runs =
        db.task_runs
        ++ record {
          id = db.next_id;
          task_id = task_id;
          workflow_version_id = some version_id;
          budget_id = none;
          cancellation_requested_at = none;
        }
          ∷ [];
    next_id = suc db.next_id;
  }

  abbrev pub belongs : Option WorkflowVersion → Option Task → Bool
  belongs (some version) task = in_project version.project_id task
  belongs none task = false

  unfoldable pub start_workflow_run_from_task : ℕ → ℕ → Act ℕ
  start_workflow_run_from_task version_id task_id db =
      let added = add_task_run version_id task_id db in
      if belongs (version_of version_id db) (find_where (λ task. task.id == task_id) db.tasks)
        && startable version_id db.next_id added
      then start_workflow_run version_id db.next_id added
      else (db, raised workflow_execution)
