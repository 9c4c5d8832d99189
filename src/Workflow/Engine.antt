-- ===== src/Workflow/Engine.antt =====
-- The engine as a whole: every sequence of its operations apart from retries, by workers, users and
-- sweeps, and what no such sequence can do.
use multi_agent_ai_platform.Base.{
  ℕ, ◌≡◌, subst, Bool, true, Option, some, List, [], ◌∷◌, ◌==◌, find_where, arith, Bool-cases, inl,
  inr,
}
use multi_agent_ai_platform.Schema.{RunStatus, ApprovalStatus, WorkflowRun, Approval, Db}
use multi_agent_ai_platform.Workflow.Store.{fresh_run}
use multi_agent_ai_platform.Workflow.Cancel.{cancel_workflow_run}
use multi_agent_ai_platform.Workflow.Upstream.{Outside}
use multi_agent_ai_platform.Workflow.Evaluation.{LeavesEngine, ExecutionServices}
use multi_agent_ai_platform.Workflow.Advance.{on_agent_run_complete}
use multi_agent_ai_platform.Workflow.Reconcile.{reconcile_workflow_run, reconcile_active_runs}
use multi_agent_ai_platform.Workflow.Start.{start_workflow_run, start_workflow_run_from_task}
use multi_agent_ai_platform.Workflow.Started.{start-Evolves, start_from_task-Evolves}
use multi_agent_ai_platform.Workflow.Moves.{
  RunMove, Pairs, is_final, may_leave_cancelling, Evolves, Evolves-trans, Evolves-refl,
}
use multi_agent_ai_platform.Workflow.Stopped.{cancel_workflow_run-Keeps}
use multi_agent_ai_platform.Workflow.Dispatched.{leaves-Evolves}
use multi_agent_ai_platform.Workflow.Advanced.{on_agent_run_complete-Keeps}
use multi_agent_ai_platform.Workflow.Swept.{
  reconcile_workflow_run-Keeps, reconcile_active_runs-Keeps,
}
use multi_agent_ai_platform.Workflow.Resolved.{workflow_engine, decide-Evolves, resolve-Evolves}
use multi_agent_ai_platform.Approval.Resolve.{decide, resolve}

-- One operation at one time, with whatever the rest of the program writes to its own tables.
pub data EngineStep (outside : Outside) (services : ExecutionServices) (before : Db)
    : Db → Type 0 where
  elsewhere : (after : Db) → LeavesEngine before after → EngineStep outside services before after
  start :
      (now max_fan_out version_id task_run_id : ℕ)
      → EngineStep outside services before
          (start_workflow_run outside services now max_fan_out version_id task_run_id before).0
  start_from_task :
      (now max_fan_out version_id task_id : ℕ)
      → EngineStep outside services before
          (start_workflow_run_from_task outside services now max_fan_out version_id task_id
            before).0
  agent_ended :
      (now agent_run_id : ℕ)
      → EngineStep outside services before
          (on_agent_run_complete outside services now agent_run_id before).0
  cancellation :
      (now run_id : ℕ) (user : Option ℕ)
      → EngineStep outside services before (cancel_workflow_run now run_id user before).0
  reconciliation :
      (now run_id : ℕ)
      → EngineStep outside services before
          (reconcile_workflow_run outside services now run_id before).0
  sweep :
      (now : ℕ)
      → EngineStep outside services before (reconcile_active_runs outside services now before).0
  resolution :
      (now : ℕ) (busy : Bool) (approval_id user : ℕ) (approve : Bool) (fingerprint : ℕ)
      (comment : Option ℕ)
      → EngineStep outside services before
          (resolve outside
            (workflow_engine outside services now)
            now
            busy
            approval_id
            user
            approve
            fingerprint
            comment
            before).0
  stale_resolution :
      (now : ℕ) (busy : Bool) (a : Approval) (decision : ApprovalStatus) (user project_id : ℕ)
      (comment : Option ℕ)
      → EngineStep outside services before
          (decide outside
            (workflow_engine outside services now)
            now
            busy
            a
            decision
            user
            project_id
            comment
            before).0

pub data EngineRun (outside : Outside) (services : ExecutionServices) (before : Db)
    : Db → Type 0 where
  begin : EngineRun outside services before before
  then_step :
      {between after : Db}
      → EngineRun outside services before between
      → EngineStep outside services between after
      → EngineRun outside services before after

-- A row that is found is found again, moved.
module _ {A : Type 0} (R : A → A → Type 0) (key : A → ℕ)
    (same : (x y : A) → R x y → key y ≡ key x) where
  pub find-Pairs :
      (id : ℕ) (xs ys : List A) (x : A)
      → Pairs R xs ys
      → find_where (λ row. key row == id) xs ≡ some x
      → (y : A) × (find_where (λ row. key row == id) ys ≡ some y) × R x y
  find-Pairs id [] ys x h f = absurd (ground arith)
  find-Pairs id (a ∷ xs) [] x h f = absurd h
  find-Pairs id (a ∷ xs) (b ∷ ys) x h f = elim (Bool-cases (key a == id)) [
    | inl hit ↦
        let e : a ≡ x = ground arith in (b, ground (arith, same a b h.0), subst (λ z. R z b) e h.0)
    | inr miss ↦
        let (y, found, r) = find-Pairs id xs ys x h.1 (ground arith) in
        (y, ground (arith, same a b h.0), r)
  ]

module _ {outside : Outside} {services : ExecutionServices} {before : Db} where
  pub step-Evolves : {after : Db} → EngineStep outside services before after → Evolves before after
  step-Evolves (elsewhere after l) = leaves-Evolves l
  step-Evolves (start now max_fan_out version_id task_run_id) =
      start-Evolves outside services now max_fan_out version_id task_run_id before
  step-Evolves (start_from_task now max_fan_out version_id task_id) =
      start_from_task-Evolves outside services now max_fan_out version_id task_id before
  step-Evolves (agent_ended now agent_run_id) =
      on_agent_run_complete-Keeps outside services now agent_run_id before
  step-Evolves (cancellation now run_id user) = cancel_workflow_run-Keeps now run_id user before
  step-Evolves (reconciliation now run_id) =
      reconcile_workflow_run-Keeps outside services now run_id before
  step-Evolves (sweep now) = reconcile_active_runs-Keeps outside services now before
  step-Evolves (resolution now busy approval_id user approve fingerprint comment) =
      resolve-Evolves outside services now now busy approval_id user approve fingerprint comment
        before
  step-Evolves (stale_resolution now busy a decision user project_id comment) =
      decide-Evolves outside services now now busy a decision user project_id comment before

-- However starts, agents' ends, cancellations, reconciliations, sweeps, resolutions and writes to other tables
-- follow each other, the rows evolve as the abstract machine allows: node runs and runs keep their place
-- and their identity, each change is one of the machine's moves, new rows come last, and resolved
-- approvals stay. A retry of a node is not among these operations.
pub engine_refines_machine :
    {outside : Outside} {services : ExecutionServices} {before after : Db}
    → EngineRun outside services before after
    → Evolves before after
engine_refines_machine {before = before} begin = Evolves-refl before
engine_refines_machine (then_step run s) =
    Evolves-trans (engine_refines_machine run) (step-Evolves s)

module _ {outside : Outside} {services : ExecutionServices} {before after : Db}
    (run : EngineRun outside services before after) where
  run_moved :
      (wr : WorkflowRun)
      → fresh_run wr.id before ≡ some wr
      → (y : WorkflowRun) × (fresh_run wr.id after ≡ some y) × RunMove wr y
  run_moved wr found =
      find-Pairs RunMove (λ (x : WorkflowRun). x.id) (λ x y m. m.same_id) wr.id before.runs
        after.runs wr (engine_refines_machine run).runs found

  -- A run that is found COMPLETED, FAILED or CANCELLED is found with the same status after any sequence
  -- of the engine's operations other than a retry of a node.
  pub finished_run_is_final :
      (wr : WorkflowRun)
      → fresh_run wr.id before ≡ some wr
      → is_final wr.status ≡ true
      → (y : WorkflowRun) × (fresh_run wr.id after ≡ some y) × (y.status ≡ wr.status)
  finished_run_is_final wr found ended =
      let (y, again, m) = run_moved wr found in (y, again, m.final ended)

  -- A run that is found CANCELLING is, after any sequence of the engine's operations other than a retry of
  -- a node, CANCELLING, CANCELLED or FAILED: it neither completes nor becomes active again.
  pub cancelling_run_never_completes :
      (wr : WorkflowRun)
      → fresh_run wr.id before ≡ some wr
      → wr.status ≡ RunStatus.cancelling
      → (y : WorkflowRun) × (fresh_run wr.id after ≡ some y)
        × (may_leave_cancelling y.status ≡ true)
  cancelling_run_never_completes wr found cancelled =
      let (y, again, m) = run_moved wr found in (y, again, m.cancelling cancelled)
