-- ===== src/Workflow/Retried.antt =====
-- A retry brings a FAILED run back, but it leaves every old attempt and every resolved approval as the
-- abstract machine does.
use multi_agent_ai_platform.Base.{
  ℕ, suc, refl, inl, inr, Bool, true, false, not, ◌&&◌, ◌||◌, Option, none, some, List, [], ◌∷◌,
  ◌==◌, if◌then◌else◌, is_none, find_where, exists_where, Bool-cases,
}
use multi_agent_ai_platform.Schema.{
  RunStatus, NodeStatus, node_retried, node_retry_queued, node_revived, WorkflowRun, NodeRun, Node,
  AgentRun, TaskRun, Approval, Db, is_node, is_run,
}
use multi_agent_ai_platform.Effects.{return, ◌>>◌}
use multi_agent_ai_platform.Workflow.Store.{
  fresh_run, fresh_node_run, cas_run, atomically_claim_node_for_execution, has_failed_node,
  emit_event, event,
}
use multi_agent_ai_platform.Workflow.Upstream.{Outside}
use multi_agent_ai_platform.Workflow.Evaluation.{ExecutionServices, enqueue_agent_run, node_of}
use multi_agent_ai_platform.Workflow.Advance.{is_evaluation_type, advance_run}
use multi_agent_ai_platform.Workflow.Retry.{
  RetryReads, RetryMode, ResumePlan, is_retryable_type, next_attempt, next_attempts, collides_with,
  insertable, insert_rows, resume_run, emit_revived, retry_mode, fail_fast_cancellation_plan,
  resume_with, resume_planned, resume_found, resume_failed_run,
}
use multi_agent_ai_platform.Workflow.RetryNode.{
  add_retry_execution, is_as_configured, is_latest, retry_events, after_resume, retry_as_configured,
  after_retry_claim, claim_retry, insert_retry, resume_and_retry, with_parent_task_run, replace_for,
  linked_agent, retry_with, with_mode, retry_checked, with_rows_of, retry_node_run,
  retry_failed_agent_node,
}
use multi_agent_ai_platform.Workflow.Moves.{
  NodeMove, NodeMove-refl, NodeMove-trans, Pairs, Pairs-refl, Pairs-trans, Pairs-append, Evolves,
  Evolves-trans, Evolves-same, Evolves-refl,
}
use multi_agent_ai_platform.Workflow.Keeps.{Keeps-seq, emit_event-Evolves, atomically_claim-Evolves}
use multi_agent_ai_platform.Workflow.Dispatched.{enqueue-Evolves}
use multi_agent_ai_platform.Workflow.Advanced.{advance_run-Keeps}
use multi_agent_ai_platform.Approval.Resolve.{IsDecided}

pub record Persists (before after : Db) : Type 0 where
  pub node_runs : Pairs NodeMove before.node_runs after.node_runs
  pub decided : (id : ℕ) (a : Approval) → IsDecided id a before → IsDecided id a after

pub Evolves-Persists : {a b : Db} → Evolves a b → Persists a b
Evolves-Persists m = record { node_runs = m.node_runs; decided = m.decided }

pub Persists-trans : {a b c : Db} → Persists a b → Persists b c → Persists a c
Persists-trans {a} {b} {c} m n = record {
  node_runs =
      Pairs-trans NodeMove (λ x y z. NodeMove-trans) a.node_runs b.node_runs c.node_runs m.node_runs
        n.node_runs;
  decided = λ id x h. n.decided id x (m.decided id x h);
}

pub Persists-refl : (a : Db) → Persists a a
Persists-refl a = Evolves-Persists (Evolves-refl a)

insert-Persists : (rows : List NodeRun) (db : Db) → Persists db (insert_rows rows db)
insert-Persists rows db = record {
  node_runs = Pairs-append NodeMove NodeMove-refl db.node_runs rows;
  decided = λ id x h. h;
}

resume-Persists : (id : ℕ) (db : Db) → Persists db (cas_run id RunStatus.failed resume_run db).0
unfolding cas_run
resume-Persists id db = record {
  node_runs = Pairs-refl NodeMove NodeMove-refl db.node_runs;
  decided = λ i x h. h;
}

emit_revived-Evolves :
    (run : WorkflowRun) (rows : List NodeRun) (db : Db) → Evolves db (emit_revived run rows db)
unfolding emit_revived
emit_revived-Evolves run [] db = Evolves-refl db
emit_revived-Evolves run (nr ∷ rest) db =
    Evolves-trans (emit_event-Evolves (event node_revived run (some nr.id)) db)
      (emit_revived-Evolves run rest (emit_event (event node_revived run (some nr.id)) db))

module _ (reads : RetryReads) where
  resume_with-Persists :
      (run_id : ℕ) (rows : List NodeRun) (db : Db)
      → Persists db (resume_with reads run_id rows db).0
  resume_with-Persists run_id rows db = elim (Bool-cases (insertable rows db.node_runs)) [
    | inr taken ↦ rw taken (Persists-refl db)
    | inl fits ↦
        rw fits
          (elim (Bool-cases (cas_run run_id RunStatus.failed resume_run (insert_rows rows db)).1) [
            | inr lost ↦ rw lost (Persists-refl db)
            | inl won ↦ rw won (
                Persists-trans (insert-Persists rows db)
                  (resume-Persists run_id (insert_rows rows db)))
          ])
  ]

  resume_planned-Persists :
      (run_id : ℕ) (plan : ResumePlan) (db : Db)
      → Persists db (resume_planned reads run_id plan db).0
  resume_planned-Persists run_id plan db = elim (Bool-cases plan.blocked) [
    | inl stuck ↦ rw stuck (Persists-refl db)
    | inr free ↦ rw free (resume_with-Persists run_id (next_attempts db.next_id plan.revived) db)
  ]

  resume_found-Persists :
      (o : Option WorkflowRun) (run_id : ℕ) (db : Db)
      → Persists db (resume_found reads o run_id db).0
  resume_found-Persists none run_id db = Persists-refl db
  resume_found-Persists (some run) run_id db =
      elim (Bool-cases (not (is_run run.status RunStatus.failed) || has_failed_node run_id db)) [
        | inl closed_run ↦ rw closed_run (Persists-refl db)
        | inr open_run ↦
            rw open_run
              (resume_planned-Persists run_id (fail_fast_cancellation_plan reads run db) db)
      ]

  resume_failed_run-Persists :
      (run_id : ℕ) (db : Db) → Persists db (resume_failed_run reads run_id db).0
  unfolding resume_failed_run
  resume_failed_run-Persists run_id db = resume_found-Persists (fresh_run run_id db) run_id db

module _ (outside : Outside) (services : ExecutionServices) (reads : RetryReads) (now : ℕ) where
  events-Evolves :
      (run : WorkflowRun) (row : NodeRun) (resumed : Bool) (revived : List NodeRun) (db : Db)
      → Evolves db (retry_events outside services reads now run row resumed revived db)
  events-Evolves run row resumed revived db =
      let e = event (if resumed then node_retried else node_retry_queued) run (some row.id) in
      Evolves-trans (emit_event-Evolves e db) (emit_revived-Evolves run revived (emit_event e db))

  advance-Persists :
      (run : WorkflowRun) (row : NodeRun) (db : Db)
      → Persists db ((advance_run outside services now run.id >> return row.id) db).0
  advance-Persists run row db = Evolves-Persists (
      Keeps-seq (advance_run outside services now run.id) (return row.id)
        (λ d. advance_run-Keeps outside services now run.id d) (λ d. Evolves-refl d) db)

  after_resume-Persists :
      (run : WorkflowRun) (row : NodeRun) (before : Db) (r : Db × (Bool × List NodeRun))
      → Persists before r.0
      → Persists before (after_resume outside services reads now run row r).0
  after_resume-Persists run row before (db, (true, revived)) m = Persists-trans m (
      Persists-trans (Evolves-Persists (events-Evolves run row true revived db)) (
        advance-Persists run row (retry_events outside services reads now run row true revived db)))
  after_resume-Persists run row before (db, (false, revived)) m =
      Persists-trans m (Evolves-Persists (events-Evolves run row false revived db))

  as_configured-Persists :
      (nr : NodeRun) (run : WorkflowRun) (db : Db)
      → Persists db (retry_as_configured outside services reads now nr run db).0
  unfolding retry_as_configured
  as_configured-Persists nr run db =
      let row = next_attempt db.next_id nr in
      elim (Bool-cases (exists_where (collides_with row) db.node_runs)) [
        | inl taken ↦ rw taken (Persists-refl db)
        | inr free ↦ rw free (
            after_resume-Persists run row db
              (resume_failed_run reads run.id (insert_rows (row ∷ []) db))
              (Persists-trans (insert-Persists (row ∷ []) db)
                (resume_failed_run-Persists reads run.id (insert_rows (row ∷ []) db))))
      ]

  claimed-Persists :
      (run : WorkflowRun) (row : NodeRun) (agent_run_id : ℕ) (revived : List NodeRun) (db : Db)
      → Persists db (after_retry_claim outside services reads now run row agent_run_id revived db).0
  claimed-Persists run row agent_run_id revived db =
      let queued = enqueue_agent_run now agent_run_id db in
      Persists-trans
        (Evolves-Persists (
          Evolves-trans (enqueue-Evolves now agent_run_id db)
            (events-Evolves run row true revived queued)))
        (advance-Persists run row
          (retry_events outside services reads now run row true revived queued))

  claim_retry-Persists :
      (run : WorkflowRun) (row : NodeRun) (agent : AgentRun) (parent : TaskRun) (model : ℕ)
      (revived : List NodeRun) (before db : Db)
      → Persists before db
      → Persists before
          (claim_retry outside services reads now run row agent parent model revived before db).0
  unfolding claim_retry add_retry_execution
  claim_retry-Persists run row agent parent model revived before db m =
      let made = add_retry_execution run row agent parent model db in
      let claim = atomically_claim_node_for_execution row.id (suc db.next_id) made in
      elim (Bool-cases claim.1) [
        | inr lost ↦ rw lost (Persists-refl before)
        | inl won ↦ rw won (
            Persists-trans m (
              Persists-trans
                (Evolves-Persists (
                  Evolves-trans (Evolves-same refl refl refl)
                    (atomically_claim-Evolves row.id (suc db.next_id) made)))
                (claimed-Persists run row (suc db.next_id) revived claim.0)))
      ]

  insert_retry-Persists :
      (run : WorkflowRun) (nr : NodeRun) (agent : AgentRun) (parent : TaskRun) (model : ℕ)
      (revived : List NodeRun) (before db : Db)
      → Persists before db
      → Persists before
          (insert_retry outside services reads now run nr agent parent model revived before db).0
  unfolding insert_retry
  insert_retry-Persists run nr agent parent model revived before db m =
      let row = next_attempt db.next_id nr in
      elim (Bool-cases (exists_where (collides_with row) db.node_runs)) [
        | inl taken ↦ rw taken (Persists-refl before)
        | inr free ↦ rw free (
            claim_retry-Persists run row agent parent model revived before
              (insert_rows (row ∷ []) db) (Persists-trans m (insert-Persists (row ∷ []) db)))
      ]

  resume_and_retry-Persists :
      (run : WorkflowRun) (nr : NodeRun) (agent : AgentRun) (parent : TaskRun) (model : ℕ)
      (plan : ResumePlan) (db : Db)
      → Persists db
          (resume_and_retry outside services reads now run nr agent parent model plan db).0
  unfolding resume_and_retry
  resume_and_retry-Persists run nr agent parent model plan db =
      let resumed = cas_run run.id RunStatus.failed resume_run db in
      let rows = next_attempts db.next_id plan.revived in
      elim (Bool-cases (resumed.1 && insertable rows resumed.0.node_runs)) [
        | inr lost ↦ rw lost (Persists-refl db)
        | inl won ↦ rw won (
            insert_retry-Persists run nr agent parent model rows db (insert_rows rows resumed.0)
              (Persists-trans (resume-Persists run.id db) (insert-Persists rows resumed.0)))
      ]

  parent-Persists :
      (run : WorkflowRun) (nr : NodeRun) (agent : AgentRun) (o : Option TaskRun) (model : ℕ)
      (plan : ResumePlan) (db : Db)
      → Persists db (with_parent_task_run outside services reads now run nr agent o model plan db).0
  parent-Persists run nr agent none model plan db = Persists-refl db
  parent-Persists run nr agent (some parent) model plan db =
      resume_and_retry-Persists run nr agent parent model plan db

  replace-Persists :
      (run : WorkflowRun) (nr : NodeRun) (o : Option AgentRun) (model : ℕ) (plan : ResumePlan)
      (db : Db)
      → Persists db (replace_for outside services reads now run nr o model plan db).0
  replace-Persists run nr none model plan db = Persists-refl db
  replace-Persists run nr (some agent) model plan db =
      elim (Bool-cases (reads.model_is_available model db)) [
        | inr gone ↦ rw gone (Persists-refl db)
        | inl there ↦ rw there (
            parent-Persists run nr agent
              (find_where (λ (t : TaskRun). t.id == run.task_run_id) db.task_runs) model plan db)
      ]

  retry_with-Persists :
      (model : Option ℕ) (nr : NodeRun) (run : WorkflowRun) (plan : ResumePlan) (db : Db)
      → Persists db (retry_with outside services reads now model nr run plan db).0
  retry_with-Persists none nr run plan db = as_configured-Persists nr run db
  retry_with-Persists (some model) nr run plan db =
      replace-Persists run nr (linked_agent outside services reads now nr.agent_run_id db) model
        plan db

  with_mode-Persists :
      (mode : Option RetryMode) (model : Option ℕ) (nr : NodeRun) (run : WorkflowRun) (node : Node)
      (db : Db)
      → Persists db (with_mode outside services reads now mode model nr run node db).0
  with_mode-Persists none model nr run node db = Persists-refl db
  with_mode-Persists (some mode) model nr run node db =
      elim (Bool-cases (
        is_evaluation_type node.node_type && not (is_none model)
        || is_none model && not (is_as_configured mode)
        || (fail_fast_cancellation_plan reads run db).blocked)) [
          | inl refused ↦ rw refused (Persists-refl db)
          | inr allowed ↦
              rw allowed
                (retry_with-Persists model nr run (fail_fast_cancellation_plan reads run db) db)
        ]

  checked-Persists :
      (model : Option ℕ) (nr : NodeRun) (run : WorkflowRun) (node : Node) (db : Db)
      → Persists db (retry_checked outside services reads now model nr run node db).0
  unfolding retry_checked
  checked-Persists model nr run node db =
      elim (Bool-cases (
        is_retryable_type node.node_type
        && (is_latest nr run.id db
            && (is_node nr.status NodeStatus.failed && is_run run.status RunStatus.failed)))) [
              | inr refused ↦ rw refused (Persists-refl db)
              | inl fits ↦
                  rw fits (with_mode-Persists (retry_mode reads nr node db) model nr run node db)
            ]

  rows-Persists :
      (model : Option ℕ) (nr : NodeRun) (run : Option WorkflowRun) (node : Option Node) (db : Db)
      → Persists db (with_rows_of outside services reads now model nr run node db).0
  rows-Persists model nr none o db = Persists-refl db
  rows-Persists model nr (some run) none db = Persists-refl db
  rows-Persists model nr (some run) (some node) db = checked-Persists model nr run node db

  node_run-Persists :
      (model : Option ℕ) (o : Option NodeRun) (db : Db)
      → Persists db (retry_node_run outside services reads now model o db).0
  node_run-Persists model none db = Persists-refl db
  node_run-Persists model (some nr) db =
      rows-Persists model nr (fresh_run nr.workflow_run_id db) (node_of nr.workflow_node_id db) db

  pub retry-Persists :
      (node_run_id : ℕ) (model : Option ℕ) (db : Db)
      → Persists db (retry_failed_agent_node outside services reads now node_run_id model db).0
  unfolding retry_failed_agent_node
  retry-Persists node_run_id model db = node_run-Persists model (fresh_node_run node_run_id db) db
