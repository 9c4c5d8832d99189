-- ===== src/Workflow/Resolved.antt =====
-- The engine behind the approval service: `_apply_scope_effect` and `_finish` of
-- app/services/approval_service.py hand a gate's decision to it. A resolution with this engine follows the abstract machine.
use multi_agent_ai_platform.Base.{
  ℕ, refl, Bool, true, false, not, Option, none, some, ◌==◌, if◌then◌else◌, update_where,
  count_where, arith, Bool-cases, inl, inr,
}
use multi_agent_ai_platform.Schema.{ApprovalStatus, Approval, decided, Db, is_approval}
use multi_agent_ai_platform.Effects.{
  Result, ok, raised, fingerprint_mismatch, and_then, Result-cases,
}
use multi_agent_ai_platform.Access.{modify, check_project_access}
use multi_agent_ai_platform.Workflow.Upstream.{Outside}
use multi_agent_ai_platform.Workflow.Gate.{apply_approval_decision}
use multi_agent_ai_platform.Workflow.Decision.{decision-keeps_approvals}
use multi_agent_ai_platform.Workflow.Evaluation.{ExecutionServices}
use multi_agent_ai_platform.Workflow.Reconcile.{after_approval_resolved}
use multi_agent_ai_platform.Workflow.Moves.{Evolves, Evolves-trans, Evolves-refl}
use multi_agent_ai_platform.Workflow.Keeps.{Keeps, Keeps-if, Evolves-if}
use multi_agent_ai_platform.Workflow.Closing.{audit-node_runs}
use multi_agent_ai_platform.Workflow.Stopping.{audit-runs, keep_tables}
use multi_agent_ai_platform.Workflow.Reconciled.{apply_approval_decision-Keeps}
use multi_agent_ai_platform.Workflow.Swept.{after_approval_resolved-Keeps}
use multi_agent_ai_platform.Approval.Expire.{project_of, get_approval, owning_project_id}
use multi_agent_ai_platform.Approval.Resolve.{
  Engine, undecided, record_decision, is_engine_gate, apply_scope_effect, commit_or_rollback,
  decision_of, finish, finish_replay, after_busy, after_swap, row, swap_and_read,
  compare_and_swap_decision, decide, checked, resolve,
}
use multi_agent_ai_platform.Approval.Once.{find-update_miss, audit_approvals, audited}

unfoldable pub workflow_engine : Outside → ExecutionServices → ℕ → Engine
workflow_engine outside services now = record {
  apply_decision = λ a decision db. apply_approval_decision outside now a decision db;
  after_resolved =
      λ a user decided_now db. (after_approval_resolved outside services now a.id decided_now db).0;
  apply_keeps = λ a decision db. decision-keeps_approvals outside now a decision db;
  after_keeps = λ a user decided_now db id b h.
      (after_approval_resolved-Keeps outside services now a.id decided_now db).decided id b h;
}

audited-Evolves :
    (a : Approval) (now : ℕ) (decision : ApprovalStatus) (user project_id : ℕ) (comment : Option ℕ)
    (db : Db)
    → Evolves db (audited a now decision user project_id comment db)
audited-Evolves a now decision user project_id comment db =
    let swapped = record db {
      approvals =
          update_where (undecided a.id) (record_decision now decision user comment) db.approvals;
    } in
    keep_tables
      (audit-node_runs (decided decision) (some user) a.id (project_of project_id db) swapped)
      (audit-runs (decided decision) (some user) a.id (project_of project_id db) swapped)
      (λ id b h.
        rw (audit_approvals (decided decision) (some user) a.id (project_of project_id db) swapped)
          (
            find-update_miss id (undecided a.id) (record_decision now decision user comment)
                (λ x. refl) db.approvals b h.0 (ground (arith, h.1)),
            h.1,
          ))

commit-Evolves :
    (before : Db) (p : Db × Result (Unit {0}))
    → Evolves before p.0
    → Evolves before (commit_or_rollback before p).0
commit-Evolves before (after, ok u) m = m
commit-Evolves before (after, raised e) m = Evolves-refl before

module _ (outside : Outside) (services : ExecutionServices) (at : ℕ) where
  effect-Evolves :
      (a : Approval) (decision : ApprovalStatus)
      → Keeps (apply_scope_effect outside (workflow_engine outside services at) a decision)
  unfolding apply_scope_effect workflow_engine
  effect-Evolves a decision db = elim (Bool-cases (is_engine_gate a)) [
    | inl gate ↦ rw gate (apply_approval_decision-Keeps outside at a decision db)
    | inr other ↦ rw other (Evolves-refl db)
  ]

  swap-Evolves :
      (now : ℕ) (a : Approval) (decision : ApprovalStatus) (user project_id : ℕ)
      (comment : Option ℕ)
      → Keeps (
          compare_and_swap_decision outside
            (workflow_engine outside services at)
            now
            a
            decision
            user
            project_id
            comment)
  unfolding compare_and_swap_decision
  swap-Evolves now a decision user project_id comment db =
      let start = audited a now decision user project_id comment db in
      let effect =
        apply_scope_effect outside (workflow_engine outside services at) a decision start in
      elim (Bool-cases (count_where (undecided a.id) db.approvals == 1)) [
        | inr lost ↦ rw lost (Evolves-refl db)
        | inl won ↦ rw won (
            commit-Evolves db effect (
              Evolves-trans (audited-Evolves a now decision user project_id comment db)
                (effect-Evolves a decision start)))
      ]

  finish-Evolves :
      (a : Approval) (user : ℕ) (decided_now : Bool)
      → Keeps (finish outside (workflow_engine outside services at) a user decided_now)
  unfolding finish workflow_engine
  finish-Evolves a user decided_now db =
      Evolves-if (is_engine_gate a) db
        (after_approval_resolved outside services at a.id decided_now db).0 db
        (after_approval_resolved-Keeps outside services at a.id decided_now db) (Evolves-refl db)

  replay-Evolves :
      (a : Approval) (decision : ApprovalStatus) (user : ℕ)
      → Keeps (finish_replay outside (workflow_engine outside services at) a decision user)
  replay-Evolves a decision user db = elim (Bool-cases (is_approval a.status decision)) [
    | inl same ↦ rw same (finish-Evolves a user false db)
    | inr other ↦ rw other (Evolves-refl db)
  ]

  after_swap-Evolves :
      (o : Option Approval) (won : Bool) (decision : ApprovalStatus) (user : ℕ)
      → Keeps (after_swap outside (workflow_engine outside services at) o won decision user)
  after_swap-Evolves none won decision user db = Evolves-refl db
  after_swap-Evolves (some a) true decision user db = finish-Evolves a user true db
  after_swap-Evolves (some a) false decision user db = replay-Evolves a decision user db

  after_busy-Evolves :
      (o : Option Approval) (decision : ApprovalStatus) (user : ℕ)
      → Keeps (after_busy outside (workflow_engine outside services at) o decision user)
  after_busy-Evolves none decision user db = Evolves-refl db
  after_busy-Evolves (some a) decision user db =
      elim (Bool-cases (is_approval a.status ApprovalStatus.pending)) [
        | inl open_row ↦ rw open_row (Evolves-refl db)
        | inr closed_row ↦ rw closed_row (replay-Evolves a decision user db)
      ]

  read-Evolves :
      (before : Db) (p : Db × Result Bool) (a : Approval) (decision : ApprovalStatus) (user : ℕ)
      → Evolves before p.0
      → Evolves before
          (and_then p.1
            (λ w d.
              after_swap outside
                (workflow_engine outside services at)
                (row outside (workflow_engine outside services at) a.id d)
                w
                decision
                user
                d)
            p.0).0
  read-Evolves before (db, ok w) a decision user m = Evolves-trans m (
      after_swap-Evolves (row outside (workflow_engine outside services at) a.id db) w decision user
        db)
  read-Evolves before (db, raised e) a decision user m = m

  pub decide-Evolves :
      (now : ℕ) (busy : Bool) (a : Approval) (decision : ApprovalStatus) (user project_id : ℕ)
      (comment : Option ℕ)
      → Keeps (
          decide outside
            (workflow_engine outside services at)
            now
            busy
            a
            decision
            user
            project_id
            comment)
  unfolding decide
  decide-Evolves now busy a decision user project_id comment db =
      let engine = workflow_engine outside services at in
      let cleaned = outside.cleaned_note comment in
      Keeps-if (not (is_approval a.status ApprovalStatus.pending))
        (finish_replay outside engine a decision user)
        (λ d.
          if busy
          then after_busy outside engine (row outside engine a.id d) decision user d
          else swap_and_read outside engine now a decision user project_id cleaned d)
        (λ d. replay-Evolves a decision user d)
        (λ d.
          Keeps-if busy (λ e. after_busy outside engine (row outside engine a.id e) decision user e)
            (λ e. swap_and_read outside engine now a decision user project_id cleaned e)
            (λ e. after_busy-Evolves (row outside engine a.id e) decision user e)
            (λ e.
              read-Evolves e
                (compare_and_swap_decision outside engine now a decision user project_id cleaned e)
                a decision user (swap-Evolves now a decision user project_id cleaned e))
            d)
        db

  checked-Evolves :
      (now : ℕ) (busy : Bool) (a : Approval) (user : ℕ) (approve : Bool) (fingerprint : ℕ)
      (comment : Option ℕ) (r : Result ℕ)
      → Keeps (
          checked outside
            (workflow_engine outside services at)
            now
            busy
            a
            user
            approve
            fingerprint
            comment
            r)
  checked-Evolves now busy a user approve fingerprint comment (raised e) db = Evolves-refl db
  checked-Evolves now busy a user approve fingerprint comment (ok project_id) db =
      elim (Result-cases (check_project_access user project_id modify db)) [
        | inr (e, refused) ↦ rw (refused, checked) (Evolves-refl db)
        | inl (m, granted) ↦
            rw (granted, checked)
              (Keeps-if (fingerprint == a.action_fingerprint)
                (decide outside (workflow_engine outside services at) now busy a
                  (decision_of approve) user project_id comment)
                (λ d. (d, raised fingerprint_mismatch))
                (λ d. decide-Evolves now busy a (decision_of approve) user project_id comment d)
                (λ d. Evolves-refl d) db)
      ]

  pub resolve-Evolves :
      (now : ℕ) (busy : Bool) (approval_id user : ℕ) (approve : Bool) (fingerprint : ℕ)
      (comment : Option ℕ)
      → Keeps (
          resolve outside
            (workflow_engine outside services at)
            now
            busy
            approval_id
            user
            approve
            fingerprint
            comment)
  unfolding resolve
  resolve-Evolves now busy approval_id user approve fingerprint comment db =
      elim (Result-cases (get_approval approval_id db)) [
        | inr (e, missing) ↦ rw (missing, resolve) (Evolves-refl db)
        | inl (a, found) ↦
            rw (found, resolve)
              (checked-Evolves now busy a user approve fingerprint comment (owning_project_id a db)
                db)
      ]
