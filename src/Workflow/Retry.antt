-- ===== src/Workflow/Retry.antt =====
-- `retry_failed_agent_node` and its parts: `retry_mode`, `_fail_fast_cancellation_plan`,
-- `_revive_fail_fast_cancelled`, `_resume_failed_run`, `_retry_as_configured`, `_emit_revived`.
use multi_agent_ai_platform.Base.{
  ℕ, suc, Bool, true, false, not, ◌&&◌, ◌||◌, Option, none, some, List, [], ◌∷◌, ◌++◌, ◌==◌,
  if◌then◌else◌, is_none, find_where, exists_where,
}
use multi_agent_ai_platform.Schema.{
  RunStatus, NodeStatus, NodeType, AgentStatus, node_revived, WorkflowRun, NodeRun, Node, AgentRun,
  TaskRun, Db, is_node, is_run,
}
use multi_agent_ai_platform.Workflow.Store.{
  fresh_run, fresh_node_runs, latest_by_node, cas_run, has_failed_node, emit_event, event,
}
use multi_agent_ai_platform.Workflow.Evaluation.{node_of, is_agent}
use multi_agent_ai_platform.Workflow.Advance.{is_evaluation_type, agent_of}

-- What a retry reads of other services and of the table of model calls. `model_is_available` says that
-- `resolve_manual` accepts the replacement.
pub record RetryReads : Type 0 where
  pub recovery_eligible : ℕ → Db → Bool
  pub was_interrupted : ℕ → Db → Bool
  pub has_unresolved_model_call : ℕ → Db → Bool
  pub model_is_available : ℕ → Db → Bool

pub data RetryMode : Type 0 where
  as_configured replacement : RetryMode

pub data Classified : Type 0 where
  skipped blocking revivable : Classified

-- `blocked` says that the list `blocking` is not empty.
pub record ResumePlan : Type 0 where
  pub blocked : Bool
  pub revived : List NodeRun

abbrev pub is_retryable_type : NodeType → Bool
is_retryable_type node_type = is_agent node_type || is_evaluation_type node_type

abbrev pub is_failed_agent : AgentStatus → Bool
is_failed_agent AgentStatus.failed = true
is_failed_agent _ = false

abbrev pub is_stopped : AgentStatus → Bool
is_stopped AgentStatus.stopped = true
is_stopped _ = false

-- The next attempt of a node run.
abbrev pub next_attempt : ℕ → NodeRun → NodeRun
next_attempt id nr = record {
  id = id;
  workflow_run_id = nr.workflow_run_id;
  workflow_node_id = nr.workflow_node_id;
  iteration = suc nr.iteration;
  status = NodeStatus.pending;
  agent_run_id = none;
  started_at = none;
  ended_at = none;
  output_snapshot_ref = none;
}

abbrev pub next_attempts : ℕ → List NodeRun → List NodeRun
next_attempts id [] = []
next_attempts id (nr ∷ rest) = next_attempt id nr ∷ next_attempts (suc id) rest

-- The unique (run, node, iteration): an IntegrityError of the insert.
abbrev pub collides_with : NodeRun → NodeRun → Bool
collides_with a b =
    a.workflow_run_id == b.workflow_run_id
    && (a.workflow_node_id == b.workflow_node_id && a.iteration == b.iteration)

abbrev pub insertable : List NodeRun → List NodeRun → Bool
insertable [] rows = true
insertable (nr ∷ rest) rows =
    let others = insertable rest rows in not (exists_where (collides_with nr) rows) && others

abbrev pub next_free : ℕ → List NodeRun → ℕ
next_free id [] = id
next_free id (_ ∷ rest) = suc (next_free id rest)

abbrev pub insert_rows : List NodeRun → Db → Db
insert_rows rows db = record db {
  node_runs = db.node_runs ++ rows;
  next_id = next_free db.next_id rows;
}

-- FAILED -> RUNNING: the only way back.
abbrev pub resume_run : WorkflowRun → WorkflowRun
resume_run run = record run { status = RunStatus.running; ended_at = none }

abbrev pub task_run_cancelled : Option TaskRun → Bool
task_run_cancelled none = false
task_run_cancelled (some task_run) = not (is_none task_run.cancellation_requested_at)

abbrev pub agent_task_cancelled : Option AgentRun → Db → Bool
agent_task_cancelled none db = false
agent_task_cancelled (some agent) db =
    task_run_cancelled (find_where (λ (t : TaskRun). t.id == agent.task_run_id) db.task_runs)

abbrev pub link_cancelled : Option ℕ → Db → Bool
link_cancelled none db = false
link_cancelled (some agent_run_id) db = agent_task_cancelled (agent_of agent_run_id db) db

-- A person cancelled the run, or a task run of one of its agents.
abbrev pub cancelled_by_person : WorkflowRun → Db → Bool
cancelled_by_person run db =
    not (is_none run.cancellation_requested_at)
    || exists_where (λ (nr : NodeRun). link_cancelled nr.agent_run_id db)
        (fresh_node_runs run.id db)

unfoldable pub emit_revived : WorkflowRun → List NodeRun → Db → Db
emit_revived run [] db = db
emit_revived run (nr ∷ rest) db =
    emit_revived run rest (emit_event (event node_revived run (some nr.id)) db)

module _ (reads : RetryReads) where
  abbrev pub agent_mode : AgentRun → Db → Option RetryMode
  agent_mode agent db =
      if is_failed_agent agent.status
      then (if reads.was_interrupted agent.id db then some as_configured else some replacement)
      else none

  abbrev pub mode_for : NodeType → Option AgentRun → Db → Option RetryMode
  mode_for node_type none db = none
  mode_for NodeType.evaluation (some agent) db =
      if reads.recovery_eligible agent.id db then some as_configured else none
  mode_for NodeType.agent (some agent) db = agent_mode agent db
  mode_for _ (some agent) db = none

  abbrev pub linked_mode : NodeType → Option ℕ → Db → Option RetryMode
  linked_mode node_type none db = none
  linked_mode node_type (some agent_run_id) db = mode_for node_type (agent_of agent_run_id db) db

  unfoldable pub retry_mode : NodeRun → Node → Db → Option RetryMode
  retry_mode nr node db =
      if is_node nr.status NodeStatus.failed
      then linked_mode node.node_type nr.agent_run_id db
      else none

  -- Stopped by the fail-fast, which asks without a user.
  abbrev pub classify_agent : Option AgentRun → Db → Classified
  classify_agent none db = blocking
  classify_agent (some agent) db =
      if is_stopped agent.status
        && (not (is_none agent.cancellation_requested_at)
            && is_none agent.cancellation_requested_by)
      then (if reads.has_unresolved_model_call agent.id db then blocking else revivable)
      else blocking

  abbrev pub classify_link : Option ℕ → Db → Classified
  classify_link none db = blocking
  classify_link (some agent_run_id) db = classify_agent (agent_of agent_run_id db) db

  abbrev pub classify_node : Option Node → Option ℕ → Db → Classified
  classify_node none link db = blocking
  classify_node (some node) link db =
      if is_retryable_type node.node_type then classify_link link db else blocking

  unfoldable pub classify : Bool → NodeRun → Db → Classified
  classify by_person nr db =
      if is_node nr.status NodeStatus.cancelled
      then (if by_person
          then blocking
          else classify_node (node_of nr.workflow_node_id db) nr.agent_run_id db)
      else skipped

  abbrev pub add_to_plan : Classified → NodeRun → ResumePlan → ResumePlan
  add_to_plan skipped nr plan = plan
  add_to_plan blocking nr plan = record plan { blocked = true }
  add_to_plan revivable nr plan = record plan { revived = nr ∷ plan.revived }

  unfoldable pub plan_for : Bool → List NodeRun → Db → ResumePlan
  plan_for by_person [] db = record { blocked = false; revived = [] }
  plan_for by_person (nr ∷ rest) db =
      add_to_plan (classify by_person nr db) nr (plan_for by_person rest db)

  unfoldable pub fail_fast_cancellation_plan : WorkflowRun → Db → ResumePlan
  fail_fast_cancellation_plan run db =
      plan_for (cancelled_by_person run db) (latest_by_node (fresh_node_runs run.id db)) db

  -- The transaction of a resume: its rows and its compare-and-swap, or nothing.
  abbrev pub resume_with : ℕ → List NodeRun → Db → Db × (Bool × List NodeRun)
  resume_with run_id rows db =
      if insertable rows db.node_runs
      then (let (after, won) = cas_run run_id RunStatus.failed resume_run (insert_rows rows db) in
          if won then (after, (true, rows)) else (db, (false, [])))
      else (db, (false, []))

  abbrev pub resume_planned : ℕ → ResumePlan → Db → Db × (Bool × List NodeRun)
  resume_planned run_id plan db =
      if plan.blocked
      then (db, (false, []))
      else resume_with run_id (next_attempts db.next_id plan.revived) db

  abbrev pub resume_found : Option WorkflowRun → ℕ → Db → Db × (Bool × List NodeRun)
  resume_found none run_id db = (db, (false, []))
  resume_found (some run) run_id db =
      if not (is_run run.status RunStatus.failed) || has_failed_node run_id db
      then (db, (false, []))
      else resume_planned run_id (fail_fast_cancellation_plan run db) db

  unfoldable pub resume_failed_run : ℕ → Db → Db × (Bool × List NodeRun)
  resume_failed_run run_id db = resume_found (fresh_run run_id db) run_id db
