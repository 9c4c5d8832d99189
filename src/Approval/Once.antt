-- ===== src/Approval/Once.antt =====
-- A resolved approval is never modified: by no resolution, expiry or request, in any order.
use multi_agent_ai_platform.Base.{
  ℕ, ◌≡◌, refl, ◌∙◌, ◌⊎◌, inl, inr, Bool, true, false, Option, none, some, List, [], ◌∷◌, ◌==◌,
  if◌then◌else◌, find_where, update_where, count_where, arith, Bool-cases,
}
use multi_agent_ai_platform.Schema.{
  ApprovalScope, ApprovalStatus, Approval, AuditType, closed, decided, Project, Db, is_approval,
}
use multi_agent_ai_platform.Effects.{Result, ok, raised, and_then, Result-cases}
use multi_agent_ai_platform.Workflow.Upstream.{Outside}
use multi_agent_ai_platform.Approval.Expire.{
  pending_for, expire, record_expiry, owning_project_id, expire_pending_for_cancellation, audit,
  project_of, find_approval,
}
use multi_agent_ai_platform.Approval.Resolve.{
  Engine, undecided, record_decision, IsDecided, apply_scope_effect, commit_or_rollback,
  finish_replay, after_busy, after_swap, row, swap_and_read, finish, compare_and_swap_decision,
  decide,
}

pub find-update_miss :
    (id : ℕ) (p : Approval → Bool) (f : Approval → Approval)
    → ((a : Approval) → (f a).id ≡ a.id)
    → (rows : List Approval) (b : Approval) → find_where (λ a. a.id == id) rows ≡ some b
    → p b ≡ false
    → find_where (λ a. a.id == id) (update_where p f rows) ≡ some b
find-update_miss id p f kept [] b found misses = cc
find-update_miss id p f kept (a ∷ rows) b found misses =
    ground (arith, kept a, find-update_miss id p f kept rows b)

pub audit_approvals :
    (t : AuditType) (actor : Option ℕ) (target : ℕ) (project : Option Project) (db : Db)
    → (audit t actor target project db).approvals ≡ db.approvals
audit_approvals t actor target none db = refl
audit_approvals t actor target (some p) db = refl

record_expiry_table :
    (o : Option Approval) (by : Option ℕ) (db : Db)
    → (record_expiry o by db).0.approvals ≡ db.approvals
unfolding record_expiry
record_expiry_table none by db = refl
record_expiry_table (some a) by db = elim (Result-cases (owning_project_id a db)) [
  | inl (project_id, e) ↦
      rw (e, record_expiry) (audit_approvals closed by a.id (project_of project_id db) db)
  | inr (error, e) ↦ rw (e, record_expiry)
]

pub expiry_table :
    (now : ℕ) (scope : ApprovalScope) (ref operation : ℕ) (by : Option ℕ) (reason : ℕ) (db : Db)
    → (expire_pending_for_cancellation now scope ref operation by reason db).0.approvals
      ≡ update_where (pending_for scope ref operation) (expire now by reason) db.approvals
unfolding expire_pending_for_cancellation
expiry_table now scope ref operation by reason db =
    let after = record db {
      approvals =
          update_where (pending_for scope ref operation) (expire now by reason) db.approvals;
    } in
    ground (arith, record_expiry_table (find_approval scope ref operation after) by after)

pub expiry_keeps :
    (now : ℕ) (scope : ApprovalScope) (ref operation : ℕ) (by : Option ℕ) (reason : ℕ) (db : Db)
    (id : ℕ) (b : Approval)
    → IsDecided id b db
    → IsDecided id b (expire_pending_for_cancellation now scope ref operation by reason db).0
expiry_keeps now scope ref operation by reason db id b h =
    rw (expiry_table now scope ref operation by reason db) (
      find-update_miss id (pending_for scope ref operation) (expire now by reason) (λ a. refl)
          db.approvals b h.0 (ground (arith, h.1)),
      h.1,
    )

commit_table :
    (before : Db) (p : Db × Result (Unit {0})) {rows : List Approval}
    → p.0.approvals ≡ rows
    → ((commit_or_rollback before p).0.approvals ≡ before.approvals)
      ⊎ ((commit_or_rollback before p).0.approvals ≡ rows)
commit_table before (after, ok _) e = inr e
commit_table before (after, raised x) e = inl refl

-- The database of a decision's transaction as its effect finds it.
abbrev pub audited : Approval → ℕ → ApprovalStatus → ℕ → ℕ → Option ℕ → Db → Db
audited a now decision user project_id comment db =
    audit (decided decision) (some user) a.id (project_of project_id db) (record db {
      approvals =
          update_where (undecided a.id) (record_decision now decision user comment) db.approvals;
    })

module _ (outside : Outside) (engine : Engine) where
  pub effect_keeps :
      (a : Approval) (decision : ApprovalStatus) (db : Db)
      → (apply_scope_effect outside engine a decision db).0.approvals ≡ db.approvals
  unfolding apply_scope_effect
  effect_keeps a decision db = ground (arith, engine.apply_keeps a decision db)

  -- The decision's transaction leaves the approvals as they were, or has swapped one row.
  swap_table :
      (now : ℕ) (a : Approval) (decision : ApprovalStatus) (user project_id : ℕ)
      (comment : Option ℕ) (db : Db)
      → ((compare_and_swap_decision outside engine now a decision user project_id comment
            db).0.approvals
          ≡ db.approvals)
        ⊎ ((compare_and_swap_decision outside engine now a decision user project_id comment
              db).0.approvals
            ≡ update_where
                (undecided a.id)
                (record_decision now decision user comment)
                db.approvals)
  unfolding compare_and_swap_decision
  swap_table now a decision user project_id comment db =
      elim (Bool-cases (count_where (undecided a.id) db.approvals == 1)) [
        | inr lost ↦ inl (rw lost refl)
        | inl won ↦ rw won (
            commit_table db
              (apply_scope_effect outside engine a decision
                (audited a now decision user project_id comment db))
              (effect_keeps a decision (audited a now decision user project_id comment db)
                ∙ audit_approvals (decided decision) (some user) a.id (project_of project_id db) _))
      ]

  swap_keeps :
      (now : ℕ) (a : Approval) (decision : ApprovalStatus) (user project_id : ℕ)
      (comment : Option ℕ) (db : Db) (id : ℕ) (b : Approval)
      → IsDecided id b db
      → IsDecided id b
          (compare_and_swap_decision outside engine now a decision user project_id comment db).0
  swap_keeps now a decision user project_id comment db id b h =
      elim (swap_table now a decision user project_id comment db) [
        | inl same ↦ rw same h
        | inr swapped ↦ rw swapped (
          find-update_miss id (undecided a.id) (record_decision now decision user comment)
              (λ x. refl) db.approvals b h.0 (ground (arith, h.1)),
          h.1,
        )
      ]

  finish_keeps :
      (a : Approval) (user : ℕ) (now_decided : Bool) (db : Db) (id : ℕ) (b : Approval)
      → IsDecided id b db
      → IsDecided id b (finish outside engine a user now_decided db).0
  unfolding finish
  finish_keeps a user now_decided db id b h =
      ground (arith, engine.after_keeps a user now_decided db id b h)

  replay_keeps :
      (a : Approval) (decision : ApprovalStatus) (user : ℕ) (db : Db) (id : ℕ) (b : Approval)
      → IsDecided id b db
      → IsDecided id b (finish_replay outside engine a decision user db).0
  replay_keeps a decision user db id b h = elim (Bool-cases (is_approval a.status decision)) [
    | inl same ↦ rw same (finish_keeps a user false db id b h)
    | inr other ↦ rw other h
  ]

  after_swap_keeps :
      (o : Option Approval) (won : Bool) (decision : ApprovalStatus) (user : ℕ) (db : Db) (id : ℕ)
      (b : Approval)
      → IsDecided id b db
      → IsDecided id b (after_swap outside engine o won decision user db).0
  after_swap_keeps none won decision user db id b h = h
  after_swap_keeps (some a) true decision user db id b h = finish_keeps a user true db id b h
  after_swap_keeps (some a) false decision user db id b h = replay_keeps a decision user db id b h

  after_busy_keeps :
      (o : Option Approval) (decision : ApprovalStatus) (user : ℕ) (db : Db) (id : ℕ) (b : Approval)
      → IsDecided id b db
      → IsDecided id b (after_busy outside engine o decision user db).0
  after_busy_keeps none decision user db id b h = h
  after_busy_keeps (some a) decision user db id b h =
      elim (Bool-cases (is_approval a.status ApprovalStatus.pending)) [
        | inl open_row ↦ rw open_row h
        | inr closed_row ↦ rw closed_row (replay_keeps a decision user db id b h)
      ]

  and_then_keeps :
      (p : Db × Result Bool) (a : Approval) (decision : ApprovalStatus) (user : ℕ) (id : ℕ)
      (b : Approval)
      → IsDecided id b p.0
      → IsDecided id b
          (and_then p.1
            (λ w d. after_swap outside engine (row outside engine a.id d) w decision user d)
            p.0).0
  and_then_keeps (db, ok w) a decision user id b h = after_swap_keeps _ w decision user db id b h
  and_then_keeps (db, raised e) a decision user id b h = h

  decide_open_keeps :
      (now : ℕ) (busy : Bool) (a : Approval) (decision : ApprovalStatus) (user project_id : ℕ)
      (comment : Option ℕ) (db : Db) (id : ℕ) (b : Approval)
      → IsDecided id b db
      → IsDecided id b
          (if busy
            then after_busy outside engine (row outside engine a.id db) decision user db
            else swap_and_read outside engine now a decision user project_id comment db).0
  decide_open_keeps now true a decision user project_id comment db id b h =
      after_busy_keeps (row outside engine a.id db) decision user db id b h
  decide_open_keeps now false a decision user project_id comment db id b h =
      and_then_keeps
        (compare_and_swap_decision outside engine now a decision user project_id comment db) a
        decision user id b (swap_keeps now a decision user project_id comment db id b h)

  pub decide_keeps :
      (now : ℕ) (busy : Bool) (a : Approval) (decision : ApprovalStatus) (user project_id : ℕ)
      (comment : Option ℕ) (db : Db) (id : ℕ) (b : Approval)
      → IsDecided id b db
      → IsDecided id b (decide outside engine now busy a decision user project_id comment db).0
  unfolding decide
  decide_keeps now busy a decision user project_id comment db id b h =
      elim (Bool-cases (is_approval a.status ApprovalStatus.pending)) [
        | inr closed_row ↦ rw closed_row (replay_keeps a decision user db id b h)
        | inl open_row ↦ rw open_row (
            decide_open_keeps now busy a decision user project_id (outside.cleaned_note comment) db
              id b h)
      ]
