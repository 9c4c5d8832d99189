-- ===== src/Workflow/Evaluation.antt =====
-- `_dispatch_evaluation` and `_evaluation_outcome`, over the evaluation and execution services.
use multi_agent_ai_platform.Base.{
  ℕ, suc, Bool, true, false, ◌&&◌, Option, none, some, List, [], ◌∷◌, ltb, ◌==◌, if◌then◌else◌,
  find_where, select_where, ◌≡◌,
}
use multi_agent_ai_platform.JobQueue.{Job, JobType, enqueue}
use multi_agent_ai_platform.Schema.{
  NodeStatus, NodeType, AgentStatus, node_scheduled, WorkflowRun, NodeRun, Node, Edge, AgentRun,
  TaskRun, Artifact, Db, is_node,
}
use multi_agent_ai_platform.Effects.{Result, ok, raised, not_found, conflict, Act}
use multi_agent_ai_platform.Workflow.Store.{
  accepts_dispatch, atomically_claim_node_for_execution, emit_event, event,
}
use multi_agent_ai_platform.Workflow.Cancel.{fail_node_at_dispatch}
use multi_agent_ai_platform.Workflow.Upstream.{Outside}

pub data EvaluationStatus : Type 0 where
  pending running completed failed cancelled : EvaluationStatus

-- How the evaluator's task run ended.
pub data TaskRunEnd : Type 0 where
  completed failed cancelled : TaskRunEnd

-- A write that leaves the tables of the engine's state machine alone.
pub record LeavesEngine (before after : Db) : Type 0 where
  pub same_node_runs : after.node_runs ≡ before.node_runs
  pub same_runs : after.runs ≡ before.runs
  pub same_approvals : after.approvals ≡ before.approvals

-- What the engine calls of the evaluation and the execution services. They write rows of their own
-- (evaluation runs, task runs, agent runs, attempts, calls), never those of the engine.
pub record ExecutionServices : Type 0 where
  pub build_agent_evaluator_run :
      WorkflowRun → NodeRun → Node → NodeRun → Artifact → ℕ → ℕ → Option ℕ → Act ℕ
  pub evaluation_status : ℕ → Db → Option EvaluationStatus
  pub finalize_agent_evaluator_run : ℕ → TaskRunEnd → Db → Db
  pub finalize_interrupted : ℕ → Db → Db
  pub has_dependency_problem : Node → ℕ → Db → Bool
  pub build_leaves :
      (run : WorkflowRun) (nr : NodeRun) (node : Node) (parent : NodeRun) (subject : Artifact)
      (definition evaluator : ℕ) (budget : Option ℕ) (db : Db)
      → LeavesEngine db
          (build_agent_evaluator_run run nr node parent subject definition evaluator budget db).0
  pub finalize_evaluation_leaves :
      (id : ℕ) (status : TaskRunEnd) (db : Db)
      → LeavesEngine db (finalize_agent_evaluator_run id status db)
  pub finalize_interrupted_leaves :
      (id : ℕ) (db : Db) → LeavesEngine db (finalize_interrupted id db)

-- The job of an agent run, then the evidence. The IntegrityError of a job that is there already is
-- swallowed; the claim is committed before.
abbrev pub queued : Option (List Job) → Db → Db
queued none db = db
queued (some jobs) db = record db { jobs = jobs }

unfoldable pub enqueue_agent_run : ℕ → ℕ → Db → Db
enqueue_agent_run now agent_run_id db =
    queued (enqueue db.next_id JobType.agent_run agent_run_id now db.jobs)
      (record db { next_id = suc db.next_id })

-- The claim with its link; the rows made for it go with the loser's rollback to `before`.
unfoldable pub claim_and_queue : ℕ → WorkflowRun → NodeRun → ℕ → Db → Db → Db
claim_and_queue now run nr agent_run_id before db =
    let (claimed_db, claimed) = atomically_claim_node_for_execution nr.id agent_run_id db in
    if claimed
    then emit_event (event node_scheduled run (some nr.id))
        (enqueue_agent_run now agent_run_id claimed_db)
    else before

-- `ORDER BY iteration DESC LIMIT 1`
abbrev pub newer_of : NodeRun → Option NodeRun → Option NodeRun
newer_of nr none = some nr
newer_of nr (some best) = if ltb nr.iteration best.iteration then some best else some nr

abbrev pub newest : List NodeRun → Option NodeRun
newest [] = none
newest (nr ∷ rest) = newer_of nr (newest rest)

abbrev pub current_attempt : ℕ → ℕ → Db → Option NodeRun
current_attempt run_id node_id db = newest (
    select_where (λ nr. nr.workflow_run_id == run_id && nr.workflow_node_id == node_id)
      db.node_runs)

abbrev pub node_of : ℕ → Db → Option Node
node_of id db = find_where (λ node. node.id == id) db.nodes

abbrev pub is_agent : NodeType → Bool
is_agent NodeType.agent = true
is_agent _ = false

-- The only parent of an EVALUATION node, if it is an AGENT node.
abbrev pub agent_only : Option Node → Option Node
agent_only none = none
agent_only (some node) = if is_agent node.node_type then some node else none

abbrev pub single_parent : Db → List Edge → Option Node
single_parent db (edge ∷ []) = agent_only (node_of edge.from_node_id db)
single_parent db _ = none

-- `verify_artifact_bytes`: the file can be read and still has the recorded hash.
abbrev pub bytes_verified : Option ℕ → ℕ → Bool
bytes_verified none hash = false
bytes_verified (some actual) hash = actual == hash

abbrev pub hash_verified : Outside → ℕ → Option ℕ → Bool
hash_verified outside storage_ref none = false
hash_verified outside storage_ref (some hash) = bytes_verified (outside.file_hash storage_ref) hash

-- The subject, if it belongs to the parent's agent run, has a hash, and its file is unchanged.
abbrev pub verified_subject : Outside → ℕ → Option Artifact → Option Artifact
verified_subject outside agent_run_id none = none
verified_subject outside agent_run_id (some artifact) =
    if artifact.agent_run_id == agent_run_id
      && hash_verified outside artifact.storage_ref artifact.content_hash
    then some artifact
    else none

module _ (outside : Outside) (services : ExecutionServices) (now : ℕ) where
  -- The builder's NotFoundError and ConflictError fail the node; other errors go up. Either way what
  -- it wrote is rolled back to `before`.
  abbrev pub built : WorkflowRun → NodeRun → Db → Db × Result ℕ → Db × Result (Unit {0})
  built run nr before (db, ok agent_run_id) =
      (claim_and_queue now run nr agent_run_id before db, ok tt)
  built run nr before (db, raised not_found) = fail_node_at_dispatch now nr run before
  built run nr before (db, raised conflict) = fail_node_at_dispatch now nr run before
  built run nr before (db, raised e) = (before, raised e)

  abbrev pub build_for :
      WorkflowRun → NodeRun → Node → NodeRun → ℕ → ℕ → Artifact → Option TaskRun → Act Unit
  build_for run nr node parent definition evaluator subject none db = (db, ok tt)
  build_for run nr node parent definition evaluator subject (some task_run) db = built run nr db (
      services.build_agent_evaluator_run run nr node parent subject definition evaluator
        task_run.budget_id db)

  abbrev pub evaluate_subject :
      WorkflowRun → NodeRun → Node → NodeRun → ℕ → ℕ → Option Artifact → Act Unit
  evaluate_subject run nr node parent definition evaluator none db =
      fail_node_at_dispatch now nr run db
  evaluate_subject run nr node parent definition evaluator (some subject) db =
      build_for run nr node parent definition evaluator subject
        (find_where (λ task_run. task_run.id == run.task_run_id) db.task_runs) db

  abbrev pub with_output :
      WorkflowRun → NodeRun → Node → NodeRun → ℕ → ℕ → Option ℕ → Option ℕ → Act Unit
  with_output run nr node parent definition evaluator (some agent_run_id) (some artifact_id) db =
      evaluate_subject run nr node parent definition evaluator
        (verified_subject outside agent_run_id (find_where (λ a. a.id == artifact_id) db.artifacts))
        db
  with_output run nr node parent definition evaluator _ _ db = fail_node_at_dispatch now nr run db

  abbrev pub with_parent_run : WorkflowRun → NodeRun → Node → ℕ → ℕ → Option NodeRun → Act Unit
  with_parent_run run nr node definition evaluator none db = (db, ok tt)
  with_parent_run run nr node definition evaluator (some parent) db =
      if is_node parent.status NodeStatus.completed
      then with_output run nr node parent definition evaluator parent.agent_run_id
          parent.output_snapshot_ref db
      else (db, ok tt)

  abbrev pub with_parent : WorkflowRun → NodeRun → Node → ℕ → ℕ → Option Node → Act Unit
  with_parent run nr node definition evaluator none db = fail_node_at_dispatch now nr run db
  with_parent run nr node definition evaluator (some parent) db =
      with_parent_run run nr node definition evaluator
        (current_attempt nr.workflow_run_id parent.id db) db

  abbrev pub configured : WorkflowRun → NodeRun → Node → Option ℕ → Option ℕ → Act Unit
  configured run nr node (some definition) (some evaluator) db =
      with_parent run nr node definition evaluator
        (single_parent db (select_where (λ edge. edge.to_node_id == node.id) db.edges)) db
  configured run nr node _ _ db = fail_node_at_dispatch now nr run db

  unfoldable pub dispatch_evaluation : NodeRun → Node → WorkflowRun → Act Unit
  dispatch_evaluation nr node run db =
      if accepts_dispatch run.id db
      then configured run nr node node.evaluation_definition_version_id
          node.evaluator_agent_version_id db
      else (db, ok tt)

-- What an evaluation's own verdict means for its node.
abbrev pub verdict : Option EvaluationStatus → Option AgentStatus
verdict (some EvaluationStatus.completed) = some AgentStatus.completed
verdict (some EvaluationStatus.failed) = some AgentStatus.failed
verdict (some EvaluationStatus.cancelled) = some AgentStatus.stopped
verdict _ = none

abbrev pub agent_terminal : AgentStatus → Bool
agent_terminal AgentStatus.completed = true
agent_terminal AgentStatus.failed = true
agent_terminal AgentStatus.stopped = true
agent_terminal AgentStatus.cancelling = true
agent_terminal _ = false

abbrev pub as_task_run_status : AgentStatus → TaskRunEnd
as_task_run_status AgentStatus.completed = TaskRunEnd.completed
as_task_run_status AgentStatus.failed = TaskRunEnd.failed
as_task_run_status _ = TaskRunEnd.cancelled

abbrev pub is_open : EvaluationStatus → Bool
is_open EvaluationStatus.pending = true
is_open EvaluationStatus.running = true
is_open _ = false

module _ (services : ExecutionServices) where
  abbrev pub outcome_of : AgentRun → Option EvaluationStatus → Db → Db × Option AgentStatus
  outcome_of agent none db =
      (db, if agent_terminal agent.status then some AgentStatus.failed else none)
  outcome_of agent (some status) db =
      if is_open status
      then (if agent_terminal agent.status
          then (let after =
                services.finalize_agent_evaluator_run agent.id (as_task_run_status agent.status)
                  db in
              (after, verdict (services.evaluation_status agent.id after)))
          else (db, none))
      else (db, verdict (some status))

  unfoldable pub evaluation_outcome : AgentRun → Db → Db × Option AgentStatus
  evaluation_outcome agent db = outcome_of agent (services.evaluation_status agent.id db) db
