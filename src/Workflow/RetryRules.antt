-- ===== src/Workflow/RetryRules.antt =====
-- When a retry of a node is accepted.
use multi_agent_ai_platform.Base.{
  ℕ, ◌≡◌, refl, inl, inr, true, false, not, ◌&&◌, ◌||◌, Option, none, some, is_none, arith,
  Bool-cases,
}
use multi_agent_ai_platform.Schema.{
  RunStatus, NodeStatus, WorkflowRun, NodeRun, Node, Db, is_node, is_run,
}
use multi_agent_ai_platform.Effects.{ok}
use multi_agent_ai_platform.Workflow.Store.{fresh_run, fresh_node_run}
use multi_agent_ai_platform.Workflow.Upstream.{Outside}
use multi_agent_ai_platform.Workflow.Evaluation.{ExecutionServices, node_of}
use multi_agent_ai_platform.Workflow.Advance.{is_evaluation_type}
use multi_agent_ai_platform.Workflow.Retry.{
  RetryReads, RetryMode, is_retryable_type, retry_mode, fail_fast_cancellation_plan,
}
use multi_agent_ai_platform.Workflow.RetryNode.{
  is_as_configured, is_latest, with_mode, retry_checked, with_rows_of, retry_node_run,
  retry_failed_agent_node,
}

-- The conditions of an accepted retry of `nr`, with or without a replacement model.
abbrev pub Retryable : RetryReads → Option ℕ → NodeRun → WorkflowRun → Node → Db → Type 0
Retryable reads model nr run node db =
    (is_retryable_type node.node_type ≡ true)
    × (is_latest nr run.id db ≡ true)
    × (is_node nr.status NodeStatus.failed ≡ true)
    × (is_run run.status RunStatus.failed ≡ true)
    × ((fail_fast_cancellation_plan reads run db).blocked ≡ false)
    × ((mode : RetryMode) × (retry_mode reads nr node db ≡ some mode)
        × ((is_none model ≡ true) → (is_as_configured mode ≡ true)))
    × ((is_evaluation_type node.node_type ≡ true) → (is_none model ≡ true))

module _ (outside : Outside) (services : ExecutionServices) (reads : RetryReads) (now : ℕ)
    (model : Option ℕ) (db : Db) (id : ℕ) where
  mode_allows :
      (o : Option RetryMode) (nr : NodeRun) (run : WorkflowRun) (node : Node)
      → (with_mode outside services reads now o model nr run node db).1 ≡ ok id
      → ((fail_fast_cancellation_plan reads run db).blocked ≡ false)
        × ((mode : RetryMode) × (o ≡ some mode)
            × ((is_none model ≡ true) → (is_as_configured mode ≡ true)))
        × ((is_evaluation_type node.node_type ≡ true) → (is_none model ≡ true))
  mode_allows none nr run node h = absurd (ground arith)
  mode_allows (some mode) nr run node h =
      elim (Bool-cases (
        is_evaluation_type node.node_type && not (is_none model)
        || is_none model && not (is_as_configured mode)
        || (fail_fast_cancellation_plan reads run db).blocked)) [
          | inl refused ↦ absurd (ground arith)
          | inr allowed ↦ (ground arith, (mode, refl, λ n. ground arith), λ e. ground arith)
        ]

  checked_allows :
      (nr : NodeRun) (run : WorkflowRun) (node : Node)
      → (retry_checked outside services reads now model nr run node db).1 ≡ ok id
      → Retryable reads model nr run node db
  unfolding retry_checked
  checked_allows nr run node h =
      elim (Bool-cases (
        is_retryable_type node.node_type
        && (is_latest nr run.id db
            && (is_node nr.status NodeStatus.failed && is_run run.status RunStatus.failed)))) [
              | inr refused ↦ absurd (ground arith)
              | inl fits ↦
                  let (free, mode, evaluation) =
                    mode_allows (retry_mode reads nr node db) nr run node (rw (rw fits at h)) in
                  (ground arith, ground arith, ground arith, ground arith, free, mode, evaluation)
            ]

  rows_allow :
      (nr : NodeRun) (run : Option WorkflowRun) (node : Option Node)
      → (with_rows_of outside services reads now model nr run node db).1 ≡ ok id
      → (r : WorkflowRun) × (n : Node) × (run ≡ some r)
        × (node ≡ some n)
        × Retryable reads model nr r n db
  rows_allow nr none o h = absurd (ground arith)
  rows_allow nr (some run) none h = absurd (ground arith)
  rows_allow nr (some run) (some node) h = (run, node, refl, refl, checked_allows nr run node h)

  node_run_allows :
      (o : Option NodeRun)
      → (retry_node_run outside services reads now model o db).1 ≡ ok id
      → (nr : NodeRun) × (run : WorkflowRun) × (node : Node) × (o ≡ some nr)
        × (fresh_run nr.workflow_run_id db ≡ some run)
        × (node_of nr.workflow_node_id db ≡ some node)
        × Retryable reads model nr run node db
  node_run_allows none h = absurd (ground arith)
  node_run_allows (some nr) h =
      let (run, node, found_run, found_node, fits) =
        rows_allow nr (fresh_run nr.workflow_run_id db) (node_of nr.workflow_node_id db) h in
      (nr, run, node, refl, found_run, found_node, fits)

  -- If a retry of a node run is accepted, then the node run, its run and its node are there, the node is
  -- an AGENT or EVALUATION node, the node run is its newest attempt in the run and FAILED, the run is
  -- FAILED, no CANCELLED node blocks its resumption, there is a retry mode, without a replacement model
  -- it is the one that keeps the configuration, and an EVALUATION node has no replacement model.
  pub accepted_retry-Retryable :
      (node_run_id : ℕ)
      → (retry_failed_agent_node outside services reads now node_run_id model db).1 ≡ ok id
      → (nr : NodeRun) × (run : WorkflowRun) × (node : Node) × (fresh_node_run node_run_id db
          ≡ some nr)
        × (fresh_run nr.workflow_run_id db ≡ some run)
        × (node_of nr.workflow_node_id db ≡ some node)
        × Retryable reads model nr run node db
  unfolding retry_failed_agent_node
  accepted_retry-Retryable node_run_id h = node_run_allows (fresh_node_run node_run_id db) h
