-- ===== src/Approval/Resolve.antt =====
-- `request_approval` and `resolve` of app/services/approval_service.py.
use multi_agent_ai_platform.Base.{
  ℕ, Bool, true, false, not, ◌&&◌, ◌||◌, Option, none, some, [], ◌∷◌, ◌++◌, ltb, ◌==◌,
  if◌then◌else◌, find_where, update_where, count_where, exists_where, ◌≡◌,
}
use multi_agent_ai_platform.Schema.{
  ApprovalScope, workflow_node_run, ApprovalStatus, Approval, decided, Db, is_approval,
}
use multi_agent_ai_platform.Effects.{
  Result, ok, raised, not_found, conflict, invalid_state_transition, fingerprint_mismatch,
  value_error, Act, return, raise, and_then,
}
use multi_agent_ai_platform.Access.{modify, check_project_access}
use multi_agent_ai_platform.Workflow.Upstream.{Outside, ActionPayload}
use multi_agent_ai_platform.Workflow.Cancel.{human_approval_operation}
use multi_agent_ai_platform.Approval.Expire.{
  scope_code, concerns, find_approval, get_approval, owning_project_id, audit, project_of,
}

abbrev pub new_approval : ℕ → ℕ → ApprovalScope → ℕ → ℕ → ℕ → Option ℕ → Option ℕ → Approval
new_approval now id scope ref operation fingerprint requested_by bound = record {
  id = id;
  scope = scope;
  scope_ref_id = ref;
  operation_type = operation;
  action_fingerprint = fingerprint;
  bound_artifact_id = bound;
  status = ApprovalStatus.pending;
  requested_by = requested_by;
  requested_at = now;
  resolved_by = none;
  resolved_at = none;
  resolution_note = none;
}

-- The row that was there before, if it is for the same action.
abbrev pub reuse : ℕ → Option Approval → Act Approval
reuse fingerprint none = raise not_found
reuse fingerprint (some a) =
    if a.action_fingerprint == fingerprint then return a else raise conflict

-- INSERT .. ON CONFLICT DO NOTHING; `operation_length` is the length of the operation's name.
unfoldable pub request_approval :
    Outside → ℕ → ℕ → ApprovalScope → ℕ → ℕ → ℕ → ActionPayload → Option ℕ → Option ℕ → Act Approval
request_approval outside now id scope ref operation operation_length payload requested_by bound db =
    let fingerprint = outside.digest payload in
    let a = new_approval now id scope ref operation fingerprint requested_by bound in
    if not (scope_code scope == scope_code workflow_node_run)
    then (db, raised value_error)
    else if operation_length == 0 || ltb 120 operation_length
    then (db, raised value_error)
    else if not (exists_where (λ nr. nr.id == ref) db.node_runs)
    then (db, raised value_error)
    else if exists_where (concerns scope ref operation) db.approvals
    then reuse fingerprint (find_approval scope ref operation db) db
    else (record db { approvals = db.approvals ++ a ∷ [] }, ok a)

-- The row of an id, resolved.
abbrev pub IsDecided : ℕ → Approval → Db → Type 0
IsDecided id a db =
    (find_where (λ b. b.id == id) db.approvals ≡ some a)
    × (is_approval a.status ApprovalStatus.pending ≡ false)

-- The engine that owns the side effects of an approval of its own operation. Its part of a decision
-- leaves the approvals alone, and what it does afterwards leaves the resolved ones alone.
pub record Engine : Type 0 where
  pub apply_decision : Approval → ApprovalStatus → Act Unit
  pub after_resolved : Approval → ℕ → Bool → Db → Db
  pub apply_keeps :
      (a : Approval) (decision : ApprovalStatus) (db : Db)
      → (apply_decision a decision db).0.approvals ≡ db.approvals
  pub after_keeps :
      (a : Approval) (user : ℕ) (now_decided : Bool) (db : Db) (id : ℕ) (b : Approval)
      → IsDecided id b db
      → IsDecided id b (after_resolved a user now_decided db)

abbrev pub is_engine_gate : Approval → Bool
is_engine_gate a =
    scope_code a.scope == scope_code workflow_node_run
    && a.operation_type == human_approval_operation

abbrev pub replay_or_conflict : Approval → ApprovalStatus → Result Approval
replay_or_conflict a decision =
    if is_approval a.status decision then ok a else raised invalid_state_transition

abbrev pub decision_of : Bool → ApprovalStatus
decision_of true = ApprovalStatus.approved
decision_of false = ApprovalStatus.rejected

abbrev pub record_decision : ℕ → ApprovalStatus → ℕ → Option ℕ → Approval → Approval
record_decision now decision user comment a = record a {
  status = decision;
  resolved_by = some user;
  resolved_at = some now;
  resolution_note = comment;
}

abbrev pub undecided : ℕ → Approval → Bool
undecided id a = a.id == id && is_approval a.status ApprovalStatus.pending

-- The effect's result: commit, or roll everything back to `before`.
abbrev pub commit_or_rollback : Db → Db × Result (Unit {0}) → Db × Result Bool
commit_or_rollback before (after, ok _) = (after, ok true)
commit_or_rollback before (after, raised e) = (before, raised e)

module _ (outside : Outside) (engine : Engine) where
  unfoldable pub apply_scope_effect : Approval → ApprovalStatus → Act Unit
  apply_scope_effect a decision =
      if is_engine_gate a then engine.apply_decision a decision else return tt

  -- `_finish`, which never raises.
  unfoldable pub finish : Approval → ℕ → Bool → Act Approval
  finish a user decided_now db =
      (if is_engine_gate a then engine.after_resolved a user decided_now db else db, ok a)

  unfoldable pub compare_and_swap_decision :
      ℕ → Approval → ApprovalStatus → ℕ → ℕ → Option ℕ → Act Bool
  compare_and_swap_decision now a decision user project_id comment db =
      let swapped = record db {
        approvals =
            update_where (undecided a.id) (record_decision now decision user comment) db.approvals;
      } in
      let audited = audit (decided decision) (some user) a.id (project_of project_id db) swapped in
      if count_where (undecided a.id) db.approvals == 1
      then commit_or_rollback db (apply_scope_effect a decision audited)
      else (db, ok false)

  abbrev pub finish_replay : Approval → ApprovalStatus → ℕ → Act Approval
  finish_replay a decision user db =
      and_then (replay_or_conflict a decision) (λ b. finish b user false) db

  -- After an OperationalError: rolled back, and read again.
  abbrev pub after_busy : Option Approval → ApprovalStatus → ℕ → Act Approval
  after_busy none decision user db = (db, raised conflict)
  after_busy (some current) decision user db =
      if is_approval current.status ApprovalStatus.pending
      then (db, raised conflict)
      else finish_replay current decision user db

  abbrev pub after_swap : Option Approval → Bool → ApprovalStatus → ℕ → Act Approval
  after_swap none won decision user db = (db, raised not_found)
  after_swap (some current) won decision user db =
      if won then finish current user true db else finish_replay current decision user db

  abbrev pub row : ℕ → Db → Option Approval
  row id db = find_where (λ a. a.id == id) db.approvals

  abbrev pub swap_and_read : ℕ → Approval → ApprovalStatus → ℕ → ℕ → Option ℕ → Act Approval
  swap_and_read now a decision user project_id comment db =
      let (after, won) = compare_and_swap_decision now a decision user project_id comment db in
      and_then won (λ w d. after_swap (row a.id d) w decision user d) after

  -- Everything behind the checks of `resolve`. `a` is the row as it was read; `db` may have changed
  -- since. `busy` says that the write raises an OperationalError.
  unfoldable pub decide : ℕ → Bool → Approval → ApprovalStatus → ℕ → ℕ → Option ℕ → Act Approval
  decide now busy a decision user project_id comment db =
      if not (is_approval a.status ApprovalStatus.pending)
      then finish_replay a decision user db
      else if busy
      then after_busy (row a.id db) decision user db
      else swap_and_read now a decision user project_id (outside.cleaned_note comment) db

  abbrev pub checked : ℕ → Bool → Approval → ℕ → Bool → ℕ → Option ℕ → Result ℕ → Act Approval
  checked now busy a user approve fingerprint comment (raised e) db = (db, raised e)
  checked now busy a user approve fingerprint comment (ok project_id) db =
      elim (check_project_access user project_id modify db) [
        | raised e ↦ (db, raised e)
        | ok m ↦
            if fingerprint == a.action_fingerprint
            then decide now busy a (decision_of approve) user project_id comment db
            else (db, raised fingerprint_mismatch)
      ]

  unfoldable pub resolve : ℕ → Bool → ℕ → ℕ → Bool → ℕ → Option ℕ → Act Approval
  resolve now busy approval_id user approve fingerprint comment db =
      elim (get_approval approval_id db) [
        | raised e ↦ (db, raised e)
        | ok a ↦ checked now busy a user approve fingerprint comment (owning_project_id a db) db
      ]
