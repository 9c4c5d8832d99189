-- ===== src/Workflow/Stopping.antt =====
-- Cancellation, failure and decisions follow the abstract machine too.
use multi_agent_ai_platform.Base.{
  ℕ, ◌≡◌, refl, sym, ap, subst, true, false, Option, none, some, List, [], ◌∷◌, update_where, arith,
  Bool-cases, inl, inr, map, select_where,
}
use multi_agent_ai_platform.Schema.{
  NodeStatus, ApprovalScope, workflow_node_run, WorkflowRun, NodeRun, Approval, Project, AuditType,
  closed, Db,
}
use multi_agent_ai_platform.Effects.{Result, ok, raised, Result-cases}
use multi_agent_ai_platform.Workflow.Store.{
  is_terminal_node, cas_node_run, emit_event, waiting_node_runs,
}
use multi_agent_ai_platform.Workflow.Cancel.{
  human_approval_operation, cancel_node, pending_of, cancel_each, cancel_pending_nodes,
  closing_events, close_expired, close_gate, close_each, close_waiting_approval_nodes,
  signal_active_agents,
}
use multi_agent_ai_platform.Workflow.Closing.{expiry-node_runs}
use multi_agent_ai_platform.Workflow.Moves.{
  may_move, NodeMove, RunMove, Pairs, Evolves, Evolves-trans, Evolves-same, Evolves-refl,
}
use multi_agent_ai_platform.Workflow.Keeps.{
  Keeps, Keeps-then, step_move, emit_event-Evolves, cas_node_run-Evolves,
}
use multi_agent_ai_platform.Approval.Expire.{
  expire_pending_for_cancellation, record_expiry, owning_project_id, audit, project_of,
  find_approval, expire, pending_for,
}
use multi_agent_ai_platform.Approval.Resolve.{IsDecided}
use multi_agent_ai_platform.Approval.Once.{expiry_keeps}

pub audit-runs :
    (t : AuditType) (actor : Option ℕ) (target : ℕ) (project : Option Project) (db : Db)
    → (audit t actor target project db).runs ≡ db.runs
audit-runs t actor target none db = refl
audit-runs t actor target (some p) db = refl

record_expiry-runs :
    (o : Option Approval) (by : Option ℕ) (db : Db) → (record_expiry o by db).0.runs ≡ db.runs
unfolding record_expiry
record_expiry-runs none by db = refl
record_expiry-runs (some a) by db = elim (Result-cases (owning_project_id a db)) [
  | inl (project_id, e) ↦
      rw (e, record_expiry) (audit-runs closed by a.id (project_of project_id db) db)
  | inr (error, e) ↦ rw (e, record_expiry)
]

expiry-runs :
    (now : ℕ) (scope : ApprovalScope) (ref operation : ℕ) (by : Option ℕ) (reason : ℕ) (db : Db)
    → (expire_pending_for_cancellation now scope ref operation by reason db).0.runs ≡ db.runs
unfolding expire_pending_for_cancellation
expiry-runs now scope ref operation by reason db =
    let after = record db {
      approvals =
          update_where (pending_for scope ref operation) (expire now by reason) db.approvals;
    } in
    ground (arith, record_expiry-runs (find_approval scope ref operation after) by after)

-- A write that changes neither node runs nor runs, and keeps what is decided.
pub keep_tables :
    {a b : Db}
    → b.node_runs ≡ a.node_runs
    → b.runs ≡ a.runs
    → ((id : ℕ) (x : Approval) → IsDecided id x a → IsDecided id x b)
    → Evolves a b
keep_tables {a} {b} n r d =
    let same : Evolves a (record a { audit_events = [] }) = Evolves-same refl refl refl in
    record {
      node_runs = subst (Pairs NodeMove a.node_runs) (sym n) same.node_runs;
      runs = subst (Pairs RunMove a.runs) (sym r) same.runs;
      decided = d;
    }

pub expiry-Evolves :
    (now : ℕ) (scope : ApprovalScope) (ref operation : ℕ) (by : Option ℕ) (reason : ℕ) (db : Db)
    → Evolves db (expire_pending_for_cancellation now scope ref operation by reason db).0
expiry-Evolves now scope ref operation by reason db =
    keep_tables (expiry-node_runs now scope ref operation by reason db)
      (expiry-runs now scope ref operation by reason db)
      (λ id x h. expiry_keeps now scope ref operation by reason db id x h)

to_cancelled :
    (status : NodeStatus)
    → is_terminal_node status ≡ false
    → may_move status NodeStatus.cancelled ≡ true
to_cancelled NodeStatus.pending h = refl
to_cancelled status h = ground arith

cancel_move :
    (now : ℕ) (x : NodeRun) → is_terminal_node x.status ≡ false → NodeMove x (cancel_node now x)
cancel_move now x open_row =
    step_move x (cancel_node now x) refl refl refl refl (inl refl) (to_cancelled x.status open_row)
      open_row

cancel_each-Evolves : (now : ℕ) (ids : List ℕ) (db : Db) → Evolves db (cancel_each now ids db)
unfolding cancel_each
cancel_each-Evolves now [] db = Evolves-refl db
cancel_each-Evolves now (id ∷ ids) db =
    Evolves-trans
      (cas_node_run-Evolves id NodeStatus.pending (cancel_node now) db
        (λ x e. cancel_move now x (ap is_terminal_node e)))
      (cancel_each-Evolves now ids (cas_node_run id NodeStatus.pending (cancel_node now) db).0)

pub cancel_pending_nodes-Evolves :
    (now run_id : ℕ) (db : Db) → Evolves db (cancel_pending_nodes now run_id db)
unfolding cancel_pending_nodes
cancel_pending_nodes-Evolves now run_id db =
    cancel_each-Evolves now (map (λ nr. nr.id) (select_where (pending_of run_id) db.node_runs)) db

closing_events-Evolves :
    (run : WorkflowRun) (id : ℕ) (o : Option Approval) (db : Db)
    → Evolves db (closing_events run id o db)
closing_events-Evolves run id none db = emit_event-Evolves _ db
closing_events-Evolves run id (some a) db =
    Evolves-trans (emit_event-Evolves _ db) (emit_event-Evolves _ (emit_event _ db))

close_expired-Evolves :
    (now : ℕ) (run : WorkflowRun) (id : ℕ) (db expired_db : Db) (r : Result (Option Approval))
    → Evolves db expired_db
    → Evolves db (close_expired now run id db expired_db r).0
close_expired-Evolves now run id db expired_db (raised e) m = Evolves-refl db
close_expired-Evolves now run id db expired_db (ok o) m =
    let closed_db =
      (cas_node_run id NodeStatus.waiting_for_approval (cancel_node now) expired_db).0 in
    let done : Evolves db (closing_events run id o closed_db) = Evolves-trans m (
      Evolves-trans
        (cas_node_run-Evolves id NodeStatus.waiting_for_approval (cancel_node now) expired_db
          (λ x e. cancel_move now x (ap is_terminal_node e)))
        (closing_events-Evolves run id o closed_db)) in
    elim (Bool-cases
      (cas_node_run id NodeStatus.waiting_for_approval (cancel_node now) expired_db).1) [
        | inl won ↦ rw won done
        | inr lost ↦ rw lost (Evolves-refl db)
      ]

close_gate-Keeps :
    (now : ℕ) (run : WorkflowRun) (by : Option ℕ) (reason id : ℕ)
    → Keeps (close_gate now run by reason id)
unfolding close_gate
close_gate-Keeps now run by reason id db =
    close_expired-Evolves now run id db
      (expire_pending_for_cancellation now workflow_node_run id human_approval_operation by reason
        db).0
      (expire_pending_for_cancellation now workflow_node_run id human_approval_operation by reason
        db).1
      (expiry-Evolves now workflow_node_run id human_approval_operation by reason db)

close_each-Keeps :
    (now : ℕ) (run : WorkflowRun) (by : Option ℕ) (reason : ℕ) (ids : List ℕ)
    → Keeps (close_each now run by reason ids)
unfolding close_each
close_each-Keeps now run by reason [] db = Evolves-refl db
close_each-Keeps now run by reason (id ∷ ids) db =
    Keeps-then (close_gate now run by reason id) (λ _. close_each now run by reason ids)
      (close_gate-Keeps now run by reason id) (λ _ d. close_each-Keeps now run by reason ids d) db

pub close_waiting-Keeps :
    (now : ℕ) (run : WorkflowRun) (by : Option ℕ) (reason : ℕ)
    → Keeps (close_waiting_approval_nodes now run by reason)
unfolding close_waiting_approval_nodes
close_waiting-Keeps now run by reason db =
    close_each-Keeps now run by reason (map (λ nr. nr.id) (waiting_node_runs run.id db)) db

pub signal_active_agents-Evolves :
    (now run_id : ℕ) (by : Option ℕ) (db : Db) → Evolves db (signal_active_agents now run_id by db)
unfolding signal_active_agents
signal_active_agents-Evolves now run_id by db = Evolves-same refl refl refl
