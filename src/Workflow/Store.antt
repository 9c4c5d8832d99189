-- ===== src/Workflow/Store.antt =====
-- Fresh reads and compare-and-swap writes of app/services/workflow_execution_service.py:
-- `_fresh_*`, `_latest_by_node`, `_waiting_node_runs`, `_cas_node_run`, `_cas_run`,
-- `_claim_pending_node`, `_has_failed_node`, `_accepts_dispatch`, `_emit_event`.
use multi_agent_ai_platform.Base.{
  ℕ, Bool, true, false, not, ◌&&◌, Option, none, some, List, [], ◌∷◌, ◌++◌, ltb, ◌==◌,
  if◌then◌else◌, is_none, exists_where, select_where, find_where, update_where, count_where,
}
use multi_agent_ai_platform.Schema.{
  RunStatus, NodeStatus, WorkflowRun, NodeRun, EventType, Event, Db, is_run, is_node,
}

-- _DISPATCHABLE_RUN_STATUSES
abbrev pub is_dispatchable : RunStatus → Bool
is_dispatchable RunStatus.running = true
is_dispatchable RunStatus.node_waiting_for_approval = true
is_dispatchable _ = false

-- _ACTIVE_NODE_STATUSES
abbrev pub is_active_node : NodeStatus → Bool
is_active_node NodeStatus.running = true
is_active_node NodeStatus.waiting_for_approval = true
is_active_node _ = false

-- _TERMINAL_NODE_STATUSES
abbrev pub is_terminal_node : NodeStatus → Bool
is_terminal_node NodeStatus.completed = true
is_terminal_node NodeStatus.failed = true
is_terminal_node NodeStatus.cancelled = true
is_terminal_node _ = false

abbrev pub fresh_run : ℕ → Db → Option WorkflowRun
fresh_run run_id db = find_where (λ run. run.id == run_id) db.runs

abbrev pub fresh_node_run : ℕ → Db → Option NodeRun
fresh_node_run node_run_id db = find_where (λ nr. nr.id == node_run_id) db.node_runs

abbrev pub fresh_node_runs : ℕ → Db → List NodeRun
fresh_node_runs run_id db = select_where (λ nr. nr.workflow_run_id == run_id) db.node_runs

-- The dict of `_latest_by_node`, as the list of its values.
abbrev pub put_latest : NodeRun → List NodeRun → List NodeRun
put_latest nr [] = nr ∷ []
put_latest nr (current ∷ rest) =
    let kept = put_latest nr rest in
    if current.workflow_node_id == nr.workflow_node_id
    then (if ltb current.iteration nr.iteration then nr else current) ∷ rest
    else current ∷ kept

unfoldable pub latest_from : List NodeRun → List NodeRun → List NodeRun
latest_from latest [] = latest
latest_from latest (nr ∷ rest) = latest_from (put_latest nr latest) rest

unfoldable pub latest_by_node : List NodeRun → List NodeRun
latest_by_node node_runs = latest_from [] node_runs

abbrev pub waiting_node_runs : ℕ → Db → List NodeRun
waiting_node_runs run_id db =
    select_where
      (λ nr. nr.workflow_run_id == run_id && is_node nr.status NodeStatus.waiting_for_approval)
      db.node_runs

abbrev pub cas_node_where : ℕ → NodeStatus → NodeRun → Bool
cas_node_where node_run_id expected nr = nr.id == node_run_id && is_node nr.status expected

unfoldable pub cas_node_run : ℕ → NodeStatus → (NodeRun → NodeRun) → Db → Db × Bool
cas_node_run node_run_id expected values db = (
  record db { node_runs = update_where (cas_node_where node_run_id expected) values db.node_runs },
  count_where (cas_node_where node_run_id expected) db.node_runs == 1,
)

abbrev pub cas_run_where : ℕ → RunStatus → WorkflowRun → Bool
cas_run_where run_id expected run = run.id == run_id && is_run run.status expected

unfoldable pub cas_run : ℕ → RunStatus → (WorkflowRun → WorkflowRun) → Db → Db × Bool
cas_run run_id expected values db = (
  record db { runs = update_where (cas_run_where run_id expected) values db.runs },
  count_where (cas_run_where run_id expected) db.runs == 1,
)

-- `newer` of the claim: a later iteration of the same node in the same run.
abbrev pub supersedes : NodeRun → NodeRun → Bool
supersedes sibling newer =
    newer.workflow_run_id == sibling.workflow_run_id
    && (newer.workflow_node_id == sibling.workflow_node_id && ltb sibling.iteration newer.iteration)

-- The fail-fast barrier: a FAILED row of the run that no newer iteration has superseded.
unfoldable pub barrier : ℕ → List NodeRun → Bool
barrier run_id node_runs =
    exists_where
      (λ sibling.
        sibling.workflow_run_id == run_id
        && (is_node sibling.status NodeStatus.failed
            && not (exists_where (supersedes sibling) node_runs)))
      node_runs

abbrev pub run_dispatchable : ℕ → List WorkflowRun → Bool
run_dispatchable run_id runs =
    exists_where (λ run. run.id == run_id && is_dispatchable run.status) runs

-- The WHERE of the claim, over one row of the node runs.
unfoldable pub may_claim : Db → ℕ → Bool → NodeRun → Bool
may_claim db node_run_id unlinked nr =
    nr.id == node_run_id
    && (is_node nr.status NodeStatus.pending
        && (run_dispatchable nr.workflow_run_id db.runs
            && (not (barrier nr.workflow_run_id db.node_runs)
                && (if unlinked then is_none nr.agent_run_id else true))))

unfoldable pub claim_pending_node : ℕ → Bool → (NodeRun → NodeRun) → Db → Db × Bool
claim_pending_node node_run_id unlinked values db = (
  record db { node_runs = update_where (may_claim db node_run_id unlinked) values db.node_runs },
  count_where (may_claim db node_run_id unlinked) db.node_runs == 1,
)

-- The losing dispatcher's transaction is rolled back.
unfoldable pub atomically_claim_node_for_execution : ℕ → ℕ → Db → Db × Bool
atomically_claim_node_for_execution node_run_id agent_run_id db =
    let (after, claimed) =
      claim_pending_node node_run_id true
        (λ nr. record nr { agent_run_id = some agent_run_id; status = NodeStatus.running }) db in
    if claimed then (after, true) else (db, false)

unfoldable pub has_failed_node : ℕ → Db → Bool
has_failed_node run_id db =
    exists_where (λ nr. is_node nr.status NodeStatus.failed)
      (latest_by_node (fresh_node_runs run_id db))

unfoldable pub accepts_dispatch : ℕ → Db → Bool
accepts_dispatch run_id db = elim (fresh_run run_id db) [
  | none ↦ false
  | some run ↦ is_dispatchable run.status && not (has_failed_node run_id db)
]

abbrev pub event : EventType → WorkflowRun → Option ℕ → Event
event event_type run node_run_id = record {
  event_type = event_type;
  task_run_id = run.task_run_id;
  workflow_run_id = run.id;
  node_run_id = node_run_id;
}

-- A failure to record evidence is swallowed.
unfoldable pub emit_event : Event → Db → Db
emit_event e db = if db.recorder_up then record db { events = db.events ++ e ∷ [] } else db
