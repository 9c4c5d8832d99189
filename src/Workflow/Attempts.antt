-- ===== src/Workflow/Attempts.antt =====
-- Attempts of nodes, over all the engine's operations, retries among them.
use multi_agent_ai_platform.Base.{ℕ, ◌≡◌, refl, ◌∙◌, ap, true, false, Option, some, arith}
use multi_agent_ai_platform.Schema.{NodeStatus, NodeRun, Db, is_node}
use multi_agent_ai_platform.Workflow.Store.{is_terminal_node, fresh_node_run}
use multi_agent_ai_platform.Workflow.Upstream.{Outside}
use multi_agent_ai_platform.Workflow.Evaluation.{ExecutionServices}
use multi_agent_ai_platform.Workflow.Retry.{RetryReads}
use multi_agent_ai_platform.Workflow.RetryNode.{retry_failed_agent_node}
use multi_agent_ai_platform.Workflow.Moves.{may_move, NodeMove}
use multi_agent_ai_platform.Workflow.Retried.{
  Persists, Evolves-Persists, Persists-trans, Persists-refl, retry-Persists,
}
use multi_agent_ai_platform.Workflow.Engine.{EngineStep, find-Pairs, step-Evolves}

pub data Operation (outside : Outside) (services : ExecutionServices) (reads : RetryReads)
    (before : Db) : Db → Type 0 where
  engine_step :
      {after : Db}
      → EngineStep outside services before after
      → Operation outside services reads before after
  retry :
      (now node_run_id : ℕ) (model : Option ℕ)
      → Operation outside services reads before
          (retry_failed_agent_node outside services reads now node_run_id model before).0

pub data Operations (outside : Outside) (services : ExecutionServices) (reads : RetryReads)
    (before : Db) : Db → Type 0 where
  idle : Operations outside services reads before before
  then_operation :
      {between after : Db}
      → Operations outside services reads before between
      → Operation outside services reads between after
      → Operations outside services reads before after

Operation-Persists :
    {outside : Outside} {services : ExecutionServices} {reads : RetryReads} {before after : Db}
    → Operation outside services reads before after
    → Persists before after
Operation-Persists (engine_step s) = Evolves-Persists (step-Evolves s)
Operation-Persists {outside} {services} {reads} {before} (retry now node_run_id model) =
    retry-Persists outside services reads now node_run_id model before

Operations-Persists :
    {outside : Outside} {services : ExecutionServices} {reads : RetryReads} {before after : Db}
    → Operations outside services reads before after
    → Persists before after
Operations-Persists {before = before} idle = Persists-refl before
Operations-Persists (then_operation run o) =
    Persists-trans (Operations-Persists run) (Operation-Persists o)

stays_left :
    (a b : NodeStatus)
    → may_move a b ≡ true
    → is_node a NodeStatus.pending ≡ false
    → is_node b NodeStatus.pending ≡ false
stays_left NodeStatus.pending b m h = ground arith
stays_left a NodeStatus.pending m h = ground arith
stays_left a _ m h = refl

module _ {outside : Outside} {services : ExecutionServices} {reads : RetryReads} {before after : Db}
    (run : Operations outside services reads before after) where
  moved :
      (nr : NodeRun)
      → fresh_node_run nr.id before ≡ some nr
      → (y : NodeRun) × (fresh_node_run nr.id after ≡ some y) × NodeMove nr y
  moved nr found =
      find-Pairs NodeMove (λ (x : NodeRun). x.id) (λ x y m. m.same_id) nr.id before.node_runs
        after.node_runs nr (Operations-Persists run).node_runs found

  -- A node run that is found with a terminal status is found unchanged after any sequence of the
  -- engine's operations, retries of nodes among them.
  pub terminal_node_run_is_final :
      (nr : NodeRun)
      → fresh_node_run nr.id before ≡ some nr
      → is_terminal_node nr.status ≡ true
      → fresh_node_run nr.id after ≡ some nr
  terminal_node_run_is_final nr found ended =
      let (y, again, m) = moved nr found in again ∙ ap some (m.final ended)

  -- A node run that is found linked to an AgentRun and not PENDING is found, after any sequence of the
  -- engine's operations, retries of nodes among them, linked to that AgentRun, as the same attempt of the
  -- same node of the same run, and not PENDING.
  pub execution_is_linked_once :
      (nr : NodeRun) (agent_run_id : ℕ)
      → fresh_node_run nr.id before ≡ some nr
      → nr.agent_run_id ≡ some agent_run_id
      → is_node nr.status NodeStatus.pending ≡ false
      → (y : NodeRun) × (fresh_node_run nr.id after ≡ some y)
        × (y.agent_run_id ≡ some agent_run_id)
        × (y.workflow_run_id ≡ nr.workflow_run_id)
        × (y.workflow_node_id ≡ nr.workflow_node_id)
        × (y.iteration ≡ nr.iteration)
        × (is_node y.status NodeStatus.pending ≡ false)
  execution_is_linked_once nr agent_run_id found linked left =
      let (y, again, m) = moved nr found in
      (
        y,
        again,
        m.linked_once agent_run_id linked,
        m.same_run,
        m.same_node,
        m.same_iteration,
        stays_left nr.status y.status m.moves left,
      )
