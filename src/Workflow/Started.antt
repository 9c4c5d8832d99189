-- ===== src/Workflow/Started.antt =====
-- The start of a run follows the abstract machine, and gives every node its row.
use multi_agent_ai_platform.Base.{
  ℕ, suc, ◌≡◌, refl, ◌∙◌, subst, ◌⊎◌, inl, inr, true, false, ◌&&◌, none, List, [], ◌∷◌, ◌++◌, ◌==◌,
  find_where, Bool-cases, Any, Among, some, ltb, ◌≤◌, ==_iff, All, Option-cases, count_where,
  exists_where, arith,
}
use multi_agent_ai_platform.Schema.{
  workflow_started, VersionStatus, NodeType, WorkflowRun, NodeRun, Node, Edge, Task, TaskRun,
  WorkflowVersion, Db,
}
use multi_agent_ai_platform.Effects.{raised, workflow_execution, return, write, ◌>>◌}
use multi_agent_ai_platform.Workflow.Store.{emit_event, event}
use multi_agent_ai_platform.Workflow.Upstream.{Outside}
use multi_agent_ai_platform.Workflow.Evaluation.{ExecutionServices}
use multi_agent_ai_platform.Workflow.Advance.{is_evaluation_type, schedule_ready_nodes}
use multi_agent_ai_platform.Workflow.Ready.{is_empty}
use multi_agent_ai_platform.Workflow.Reconcile.{pending_rows}
use multi_agent_ai_platform.Workflow.Start.{
  nodes_of, edges_of, is_conditional, fans_out_above, version_of, task_run_of, startable, new_run,
  create_run, start_workflow_run, add_task_run, belongs, start_workflow_run_from_task,
}
use multi_agent_ai_platform.Workflow.Moves.{
  NodeMove, Pairs, Evolves, Evolves-trans, Evolves-same, Evolves-refl, Evolves-new_runs,
  Evolves-new_node_runs,
}
use multi_agent_ai_platform.Workflow.Keeps.{Keeps, Keeps-seq, emit_event-Evolves}
use multi_agent_ai_platform.Workflow.Advanced.{schedule_ready_nodes-Keeps}

-- A node's first attempt in a run.
abbrev pub HasRun : ℕ → Node → List NodeRun → Type 0
HasRun run_id node rows =
    Any (λ nr. (nr.workflow_run_id ≡ run_id) × (nr.workflow_node_id ≡ node.id) × (nr.iteration ≡ 0))
      rows

HasRun-append :
    (run_id : ℕ) (node : Node) (xs ys : List NodeRun)
    → HasRun run_id node ys
    → HasRun run_id node (xs ++ ys)
HasRun-append run_id node [] ys h = h
HasRun-append run_id node (x ∷ xs) ys h = inr (HasRun-append run_id node xs ys h)

HasRun-Pairs :
    (run_id : ℕ) (node : Node) (xs ys : List NodeRun)
    → Pairs NodeMove xs ys
    → HasRun run_id node xs
    → HasRun run_id node ys
HasRun-Pairs run_id node [] ys p h = elim h [ ]
HasRun-Pairs run_id node (x ∷ xs) [] p h = absurd p
HasRun-Pairs run_id node (x ∷ xs) (y ∷ ys) p (inl (r, n, i)) =
    inl (p.0.same_run ∙ r, p.0.same_node ∙ n, p.0.same_iteration ∙ i)
HasRun-Pairs run_id node (x ∷ xs) (y ∷ ys) p (inr h) = inr (HasRun-Pairs run_id node xs ys p.1 h)

-- By the row of its own, or one that another node adds.
pending_rows-HasRun :
    (id run_id : ℕ) (nodes : List Node) (node : Node)
    → Among node nodes
    → HasRun run_id node (pending_rows id run_id nodes)
pending_rows-HasRun id run_id [] node m = elim m [ ]
pending_rows-HasRun id run_id (n ∷ nodes) node (inl e) =
    inl (refl, subst (λ (x : Node). n.id ≡ x.id) e refl, refl)
pending_rows-HasRun id run_id (n ∷ nodes) node (inr m) =
    inr (pending_rows-HasRun (suc id) run_id nodes node m)

-- What a start of the version for the task run must find: the version is there and ACTIVE, the task run
-- and its task are there, and the task is of the version's project; the version has a node, no edge of it
-- has a condition, no node of it has more than `max_fan_out` outgoing edges, and no EVALUATION node of
-- it has a problem with its dependencies.
pub record IsStartable (services : ExecutionServices) (max_fan_out version_id task_run_id : ℕ)
    (db : Db) : Type 0 where
  pub version : WorkflowVersion
  pub task_run : TaskRun
  pub task : Task
  pub found_version : version_of version_id db ≡ some version
  pub found_task_run : task_run_of task_run_id db ≡ some task_run
  pub found_task : find_where (λ t. t.id == task_run.task_id) db.tasks ≡ some task
  pub active : version.status ≡ VersionStatus.active
  pub same_project : version.project_id ≡ task.project_id
  pub some_node : is_empty (nodes_of version.id db) ≡ false
  pub unconditional : All (λ edge. edge.condition ≡ none) (edges_of version.id db)
  pub bounded :
      (node_id : ℕ)
      → count_where (λ edge. edge.from_node_id == node_id) (edges_of version.id db) ≤ max_fan_out
  pub evaluable :
      All
        (λ node.
          node.node_type ≡ NodeType.evaluation
          → services.has_dependency_problem node version.project_id db ≡ false)
        (nodes_of version.id db)

no_condition :
    (edges : List Edge)
    → exists_where is_conditional edges ≡ false
    → All (λ edge. edge.condition ≡ none) edges
no_condition [] h = tt
no_condition (edge ∷ edges) h = elim (Option-cases edge.condition) [
  | inl absent ↦ (absent, no_condition edges (ground arith))
  | inr (c, there) ↦ absurd (ground arith)
]

conditions_absent :
    (edges : List Edge)
    → All (λ edge. edge.condition ≡ none) edges
    → exists_where is_conditional edges ≡ false
conditions_absent [] h = refl
conditions_absent (edge ∷ edges) h = ground (arith, h.0, conditions_absent edges h.1)

no_problem :
    (services : ExecutionServices) (project_id : ℕ) (db : Db) (nodes : List Node)
    → exists_where
        (λ node.
          is_evaluation_type node.node_type && services.has_dependency_problem node project_id db)
        nodes
      ≡ false
    → All
        (λ node.
          node.node_type ≡ NodeType.evaluation
          → services.has_dependency_problem node project_id db ≡ false)
        nodes
no_problem services project_id db [] h = tt
no_problem services project_id db (node ∷ nodes) h =
    (λ e. ground arith, no_problem services project_id db nodes (ground arith))

evaluation_type : (t : NodeType) → is_evaluation_type t ≡ true → t ≡ NodeType.evaluation
evaluation_type t h = ground arith

problems_absent :
    (services : ExecutionServices) (project_id : ℕ) (db : Db) (nodes : List Node)
    → All
        (λ node.
          node.node_type ≡ NodeType.evaluation
          → services.has_dependency_problem node project_id db ≡ false)
        nodes
    → exists_where
        (λ node.
          is_evaluation_type node.node_type && services.has_dependency_problem node project_id db)
        nodes
      ≡ false
problems_absent services project_id db [] h = refl
problems_absent services project_id db (node ∷ nodes) h =
    elim (Bool-cases (is_evaluation_type node.node_type)) [
      | inl evaluates ↦ ground (
        arith,
        h.0 (evaluation_type node.node_type evaluates),
        problems_absent services project_id db nodes h.1,
      )
      | inr other ↦ ground (arith, problems_absent services project_id db nodes h.1)
    ]

module _ (limit : ℕ) (all : List Edge) where
  abbrev outgoing : ℕ → List Edge → ℕ
  outgoing node_id edges = count_where (λ edge. edge.from_node_id == node_id) edges

  bounded_at :
      (node_id : ℕ) (edges : List Edge)
      → exists_where (λ edge. ltb limit (outgoing edge.from_node_id all)) edges ≡ false
      → ltb 0 (outgoing node_id edges) ≡ true
      → outgoing node_id all ≤ limit
  bounded_at node_id [] h some_edge = absurd (ground arith)
  bounded_at node_id (edge ∷ edges) h some_edge = elim (Bool-cases (edge.from_node_id == node_id)) [
    | inl same ↦
        subst (λ k. outgoing k all ≤ limit) ((==_iff edge.from_node_id node_id).0 same)
          (ground arith)
    | inr other ↦ bounded_at node_id edges (ground arith) (ground arith)
  ]

  none_wide :
      (edges : List Edge)
      → ((node_id : ℕ) → outgoing node_id all ≤ limit)
      → exists_where (λ edge. ltb limit (outgoing edge.from_node_id all)) edges ≡ false
  none_wide [] h = refl
  none_wide (edge ∷ edges) h = ground (arith, h edge.from_node_id, none_wide edges h)

no_wide_node :
    (limit : ℕ) (edges : List Edge)
    → fans_out_above limit edges ≡ false
    → (node_id : ℕ) → count_where (λ edge. edge.from_node_id == node_id) edges ≤ limit
no_wide_node limit edges h node_id =
    elim (Bool-cases (ltb 0 (count_where (λ edge. edge.from_node_id == node_id) edges))) [
      | inl some_edge ↦ bounded_at limit edges node_id edges h some_edge
      | inr no_edge ↦ ground arith
    ]

module _ (outside : Outside) (services : ExecutionServices) (now max_fan_out : ℕ)
    (version_id task_run_id : ℕ) where
  create_run-Evolves :
      (db : Db) → Evolves db (create_run outside services now max_fan_out version_id task_run_id db)
  unfolding create_run
  create_run-Evolves db =
      let nodes = nodes_of version_id db in
      let run = new_run outside services now max_fan_out db.next_id version_id task_run_id in
      Evolves-trans (Evolves-new_runs (run ∷ []) db) (
        Evolves-trans
          (Evolves-new_node_runs (pending_rows (suc db.next_id) db.next_id nodes)
            (record db { runs = db.runs ++ run ∷ [] }))
          (Evolves-same refl refl refl))

  -- What follows the first transaction.
  launched-Keeps :
      (run_id : ℕ) (run : WorkflowRun)
      → Keeps (
          write (emit_event (event workflow_started run none))
          >> schedule_ready_nodes outside services now run_id
          >> return run_id)
  launched-Keeps run_id run =
      let announce = write (emit_event (event workflow_started run none)) in
      let schedule = schedule_ready_nodes outside services now run_id in
      Keeps-seq (announce >> schedule) (return run_id)
        (Keeps-seq announce schedule (λ d. emit_event-Evolves (event workflow_started run none) d)
          (λ d. schedule_ready_nodes-Keeps outside services now run_id d))
        (λ d. Evolves-refl d)

  launched :
      (db : Db)
      → startable outside services now max_fan_out version_id task_run_id db ≡ true
      → Evolves
          (create_run outside services now max_fan_out version_id task_run_id db)
          (start_workflow_run outside services now max_fan_out version_id task_run_id db).0
  unfolding start_workflow_run
  launched db s = rw s (
      launched-Keeps db.next_id
        (new_run outside services now max_fan_out db.next_id version_id task_run_id)
        (create_run outside services now max_fan_out version_id task_run_id db))

  refused :
      (db : Db)
      → startable outside services now max_fan_out version_id task_run_id db ≡ false
      → start_workflow_run outside services now max_fan_out version_id task_run_id db
        ≡ (db, raised workflow_execution)
  unfolding start_workflow_run
  refused db s = rw s refl

  pub start-Evolves :
      (db : Db)
      → Evolves db (start_workflow_run outside services now max_fan_out version_id task_run_id db).0
  start-Evolves db =
      elim (Bool-cases (startable outside services now max_fan_out version_id task_run_id db)) [
        | inl s ↦ Evolves-trans (create_run-Evolves db) (launched db s)
        | inr s ↦ rw (refused db s) (Evolves-refl db)
      ]

  created-HasRun :
      (db : Db) (node : Node)
      → Among node (nodes_of version_id db)
      → HasRun db.next_id node
          (create_run outside services now max_fan_out version_id task_run_id db).node_runs
  unfolding create_run
  created-HasRun db node m =
      HasRun-append db.next_id node db.node_runs
        (pending_rows (suc db.next_id) db.next_id (nodes_of version_id db))
        (pending_rows-HasRun (suc db.next_id) db.next_id (nodes_of version_id db) node m)

  startable_sound :
      (db : Db)
      → startable outside services now max_fan_out version_id task_run_id db ≡ true
      → IsStartable services max_fan_out version_id task_run_id db
  unfolding startable
  startable_sound db s = elim (Option-cases (version_of version_id db)) [
    | inl absent ↦ absurd (ground arith)
    | inr (version, found) ↦ elim (Option-cases (task_run_of task_run_id db)) [
      | inl absent ↦ absurd (ground arith)
      | inr (task_run, run_found) ↦
          elim (Option-cases (find_where (λ t. t.id == task_run.task_id) db.tasks)) [
            | inl absent ↦ absurd (ground arith)
            | inr (task, task_found) ↦ record {
              version = version;
              task_run = task_run;
              task = task;
              found_version = found;
              found_task_run = run_found;
              found_task = task_found;
              active = ground arith;
              same_project = ground arith;
              some_node = ground arith;
              unconditional = no_condition (edges_of version.id db) (ground arith);
              bounded = no_wide_node max_fan_out (edges_of version.id db) (ground arith);
              evaluable =
                  no_problem services version.project_id db (nodes_of version.id db) (ground arith);
            }
          ]
    ]
  ]

  startable_complete :
      (db : Db)
      → IsStartable services max_fan_out version_id task_run_id db
      → startable outside services now max_fan_out version_id task_run_id db ≡ true
  unfolding startable
  startable_complete db h =
      let edges = edges_of h.version.id db in
      let unconditional = conditions_absent edges h.unconditional in
      let narrow = none_wide max_fan_out edges edges h.bounded in
      let evaluable =
        problems_absent services h.version.project_id db (nodes_of h.version.id db) h.evaluable in
      let active = h.active in
      let same_project = h.same_project in
      let some_node = h.some_node in
      rw (h.found_version, h.found_task_run, h.found_task) (ground arith)

  -- The start of a version's run for a task run either is refused with a WorkflowExecutionError and
  -- changes nothing, where `IsStartable` fails; or `IsStartable` holds, it creates the RUNNING run and its
  -- rows in one transaction, goes on from there as the abstract machine allows, and in the end every node
  -- of the version has its first attempt in the new run. `IsStartable`: the version is there and ACTIVE,
  -- the task run and its task are there and of the same project, and the version has nodes, no
  -- conditional edge, no node with too many outgoing edges and no evaluation problem.
  pub start_workflow_run_exact :
      (db : Db)
      → (¬ IsStartable services max_fan_out version_id task_run_id db
          × (start_workflow_run outside services now max_fan_out version_id task_run_id db
              ≡ (db, raised workflow_execution)))
        ⊎ (IsStartable services max_fan_out version_id task_run_id db
            × Evolves
                (create_run outside services now max_fan_out version_id task_run_id db)
                (start_workflow_run outside services now max_fan_out version_id task_run_id db).0
            × ((node : Node)
                → Among node (nodes_of version_id db)
                → HasRun db.next_id node
                    (start_workflow_run outside services now max_fan_out version_id task_run_id
                      db).0.node_runs))
  start_workflow_run_exact db =
      elim (Bool-cases (startable outside services now max_fan_out version_id task_run_id db)) [
        | inr s ↦ inl (λ h. absurd (ground (arith, startable_complete db h)), refused db s)
        | inl s ↦ inr (
          startable_sound db s,
          launched db s,
          λ node m.
              HasRun-Pairs db.next_id node _ _ (launched db s).node_runs (created-HasRun db node m),
        )
      ]

pub start_from_task-Evolves :
    (outside : Outside) (services : ExecutionServices) (now max_fan_out version_id task_id : ℕ)
    → Keeps (start_workflow_run_from_task outside services now max_fan_out version_id task_id)
unfolding start_workflow_run_from_task
start_from_task-Evolves outside services now max_fan_out version_id task_id db =
    let added = add_task_run outside services now max_fan_out version_id task_id db in
    elim (Bool-cases (
      belongs outside services now max_fan_out (version_of version_id db)
        (find_where (λ task. task.id == task_id) db.tasks)
      && startable outside services now max_fan_out version_id db.next_id added)) [
        | inr refuses ↦ rw refuses (Evolves-refl db)
        | inl starts ↦ rw starts (
            Evolves-trans (Evolves-same refl refl refl)
              (start-Evolves outside services now max_fan_out version_id db.next_id added))
      ]
