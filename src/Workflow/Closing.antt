-- ===== src/Workflow/Closing.antt =====
-- Closing a waiting gate of a cancelled or failed run: its Approval and its node together.
use multi_agent_ai_platform.Base.{
  ℕ, ◌≡◌, refl, sym, ◌∙◌, ap, ◌⊎◌, inl, inr, Bool, true, false, ◌&&◌, Option, none, some, List, [],
  ◌∷◌, ◌==◌, update_where, count_where, arith, Bool-cases,
}
use multi_agent_ai_platform.Schema.{
  NodeStatus, ApprovalScope, workflow_node_run, Approval, WorkflowRun, Project, AuditType, closed,
  Event, Db,
}
use multi_agent_ai_platform.Effects.{Result, ok, raised, Result-cases}
use multi_agent_ai_platform.Workflow.Store.{cas_node_run, cas_node_where, emit_event, event}
use multi_agent_ai_platform.Workflow.Cancel.{
  human_approval_operation, cancel_node, closing_events, close_expired, close_gate,
}
use multi_agent_ai_platform.Approval.Expire.{
  concerns, pending_for, expire, record_expiry, owning_project_id, audit, project_of, find_approval,
  expire_pending_for_cancellation,
}
use multi_agent_ai_platform.Approval.Once.{expiry_table}

emit-rows :
    (e : Event) (db : Db)
    → ((emit_event e db).approvals ≡ db.approvals) × ((emit_event e db).node_runs ≡ db.node_runs)
unfolding emit_event
emit-rows e db = (ground arith, ground arith)

events-rows :
    (run : WorkflowRun) (id : ℕ) (o : Option Approval) (db : Db)
    → ((closing_events run id o db).approvals ≡ db.approvals)
      × ((closing_events run id o db).node_runs ≡ db.node_runs)
events-rows run id none db = emit-rows _ db
events-rows run id (some a) db =
    let (a1, n1) = emit-rows (event _ run (some id)) db in
    let (a2, n2) = emit-rows (event _ run (some id)) (emit_event (event _ run (some id)) db) in
    (a2 ∙ a1, n2 ∙ n1)

-- An UPDATE after which its rows fail its condition leaves none.
count-update :
    {A : Type 0} (p : A → Bool) (f : A → A)
    → ((x : A) → p (f x) ≡ false)
    → (rows : List A) → count_where p (update_where p f rows) ≡ 0
count-update p f fails [] = refl
count-update p f fails (x ∷ rows) = elim (Bool-cases (p x)) [
  | inl hit ↦ rw hit (rw (fails x) (count-update p f fails rows))
  | inr miss ↦ rw miss (rw miss (count-update p f fails rows))
]

and_false : (b : Bool) → (b && false) ≡ false
and_false true = refl
and_false false = refl

expired-none :
    (now : ℕ) (by : Option ℕ) (reason : ℕ) (scope : ApprovalScope) (ref operation : ℕ)
    (rows : List Approval)
    → count_where
        (pending_for scope ref operation)
        (update_where (pending_for scope ref operation) (expire now by reason) rows)
      ≡ 0
expired-none now by reason scope ref operation rows =
    count-update (pending_for scope ref operation) (expire now by reason)
      (λ a. and_false (concerns scope ref operation a)) rows

pub audit-node_runs :
    (t : AuditType) (actor : Option ℕ) (target : ℕ) (project : Option Project) (db : Db)
    → (audit t actor target project db).node_runs ≡ db.node_runs
audit-node_runs t actor target none db = refl
audit-node_runs t actor target (some p) db = refl

record_expiry-node_runs :
    (o : Option Approval) (by : Option ℕ) (db : Db)
    → (record_expiry o by db).0.node_runs ≡ db.node_runs
unfolding record_expiry
record_expiry-node_runs none by db = refl
record_expiry-node_runs (some a) by db = elim (Result-cases (owning_project_id a db)) [
  | inl (project_id, e) ↦
      rw (e, record_expiry) (audit-node_runs closed by a.id (project_of project_id db) db)
  | inr (error, e) ↦ rw (e, record_expiry)
]

pub expiry-node_runs :
    (now : ℕ) (scope : ApprovalScope) (ref operation : ℕ) (by : Option ℕ) (reason : ℕ) (db : Db)
    → (expire_pending_for_cancellation now scope ref operation by reason db).0.node_runs
      ≡ db.node_runs
unfolding expire_pending_for_cancellation
expiry-node_runs now scope ref operation by reason db =
    let after = record db {
      approvals =
          update_where (pending_for scope ref operation) (expire now by reason) db.approvals;
    } in
    ground (arith, record_expiry-node_runs (find_approval scope ref operation after) by after)

-- The gate's node run was waiting and is CANCELLED, and no approval of the gate is PENDING.
abbrev pub IsClosed : ℕ → ℕ → Db → Db → Type 0
IsClosed now id before after =
    (count_where (cas_node_where id NodeStatus.waiting_for_approval) before.node_runs ≡ 1)
    × (after.node_runs
        ≡ update_where (cas_node_where id NodeStatus.waiting_for_approval) (cancel_node now)
            before.node_runs)
    × (count_where (pending_for workflow_node_run id human_approval_operation) after.approvals ≡ 0)

close_expired-IsClosed :
    (now : ℕ) (run : WorkflowRun) (id : ℕ) (db expired_db : Db) (r : Result (Option Approval))
    → expired_db.node_runs ≡ db.node_runs
    → count_where (pending_for workflow_node_run id human_approval_operation) expired_db.approvals
      ≡ 0
    → ((close_expired now run id db expired_db r).0 ≡ db)
      ⊎ IsClosed now id db (close_expired now run id db expired_db r).0
unfolding cas_node_run
close_expired-IsClosed now run id db expired_db (raised e) same gone = inl refl
close_expired-IsClosed now run id db expired_db (ok o) same gone =
    elim (Bool-cases
      (count_where (cas_node_where id NodeStatus.waiting_for_approval) expired_db.node_runs == 1)) [
        | inr lost ↦ inl (rw lost refl)
        | inl won ↦
            let closed_db =
              (cas_node_run id NodeStatus.waiting_for_approval (cancel_node now) expired_db).0 in
            let (approvals, node_runs) = events-rows run id o closed_db in
            inr (
              rw (sym same) (ground arith),
              rw won (node_runs ∙ ap (update_where _ (cancel_node now)) same),
              rw won (rw approvals gone),
            )
      ]

-- Closing a gate is all or nothing: either the database is as it was, or the gate's node run was
-- WAITING_FOR_APPROVAL and is now CANCELLED with its end time, no other node run changed, and no approval
-- of the gate is PENDING any more.
pub close_gate_all_or_nothing :
    (now : ℕ) (run : WorkflowRun) (by : Option ℕ) (reason id : ℕ) (db : Db)
    → ((close_gate now run by reason id db).0 ≡ db)
      ⊎ IsClosed now id db (close_gate now run by reason id db).0
unfolding close_gate
close_gate_all_or_nothing now run by reason id db =
    close_expired-IsClosed now run id db
      (expire_pending_for_cancellation now workflow_node_run id human_approval_operation by reason
        db).0
      (expire_pending_for_cancellation now workflow_node_run id human_approval_operation by reason
        db).1
      (expiry-node_runs now workflow_node_run id human_approval_operation by reason db)
      (ap (count_where (pending_for workflow_node_run id human_approval_operation))
          (expiry_table now workflow_node_run id human_approval_operation by reason db)
        ∙ expired-none now by reason workflow_node_run id human_approval_operation db.approvals)
