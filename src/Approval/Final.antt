-- ===== src/Approval/Final.antt =====
-- The approval service as a whole: what every sequence of its operations keeps, and who may decide.
use multi_agent_ai_platform.Base.{
  ℕ, ◌≡◌, refl, inl, inr, Bool, Option, none, some, List, [], ◌∷◌, ◌++◌, ◌==◌, find_where, arith,
  Bool-cases,
}
use multi_agent_ai_platform.Schema.{ApprovalScope, ApprovalStatus, Approval, Db}
use multi_agent_ai_platform.Effects.{Result, ok, raised, Result-cases}
use multi_agent_ai_platform.Access.{check_project_access, modify}
use multi_agent_ai_platform.Workflow.Upstream.{Outside, ActionPayload}
use multi_agent_ai_platform.Approval.Expire.{
  owning_project_id, expire_pending_for_cancellation, find_approval, get_approval,
}
use multi_agent_ai_platform.Approval.Resolve.{
  new_approval, reuse, request_approval, Engine, IsDecided, checked, decide, resolve, decision_of,
}
use multi_agent_ai_platform.Approval.Once.{decide_keeps, expiry_keeps}

find-append :
    (id : ℕ) (rows : List Approval) (a b : Approval)
    → find_where (λ x. x.id == id) rows ≡ some b
    → find_where (λ x. x.id == id) (rows ++ a ∷ []) ≡ some b
find-append id [] a b h = cc
find-append id (r ∷ rows) a b h = ground (arith, find-append id rows a b)

pub reuse_keeps :
    (fingerprint : ℕ) (o : Option Approval) (db : Db) → (reuse fingerprint o db).0 ≡ db
reuse_keeps fingerprint none db = refl
reuse_keeps fingerprint (some a) db = elim (Bool-cases (a.action_fingerprint == fingerprint)) [
  | inl e ↦ rw e refl
  | inr e ↦ rw e refl
]

pub request_keeps :
    (outside : Outside) (now id : ℕ) (scope : ApprovalScope) (ref operation operation_length : ℕ)
    (payload : ActionPayload) (by bound : Option ℕ) (db : Db) (target : ℕ) (b : Approval)
    → IsDecided target b db
    → IsDecided target b
        (request_approval outside now id scope ref operation operation_length payload by bound db).0
unfolding request_approval
request_keeps outside now id scope ref operation operation_length payload by bound db target b h =
    let fingerprint = outside.digest payload in
    ground (
      arith,
      reuse_keeps fingerprint (find_approval scope ref operation db) db,
      find-append target db.approvals (new_approval now id scope ref operation fingerprint by bound)
          b,
    )

module _ (outside : Outside) (engine : Engine) where
  checked_keeps :
      (now : ℕ) (busy : Bool) (a : Approval) (user : ℕ) (approve : Bool) (fingerprint : ℕ)
      (comment : Option ℕ) (r : Result ℕ) (db : Db) (id : ℕ) (b : Approval)
      → IsDecided id b db
      → IsDecided id b (checked outside engine now busy a user approve fingerprint comment r db).0
  checked_keeps now busy a user approve fingerprint comment (raised e) db id b h = h
  checked_keeps now busy a user approve fingerprint comment (ok project_id) db id b h =
      elim (Result-cases (check_project_access user project_id modify db)) [
        | inr (e, refused) ↦ rw (refused, checked) h
        | inl (m, granted) ↦
            rw (granted, checked)
              (elim (Bool-cases (fingerprint == a.action_fingerprint)) [
                | inr other ↦ rw other h
                | inl same ↦ rw same (
                    decide_keeps outside engine now busy a (decision_of approve) user project_id
                      comment db id b h)
              ])
      ]

  resolve_keeps :
      (now : ℕ) (busy : Bool) (approval_id user : ℕ) (approve : Bool) (fingerprint : ℕ)
      (comment : Option ℕ) (db : Db) (id : ℕ) (b : Approval)
      → IsDecided id b db
      → IsDecided id b
          (resolve outside engine now busy approval_id user approve fingerprint comment db).0
  unfolding resolve
  resolve_keeps now busy approval_id user approve fingerprint comment db id b h =
      elim (Result-cases (get_approval approval_id db)) [
        | inr (e, missing) ↦ rw (missing, resolve) h
        | inl (a, found) ↦
            rw (found, resolve)
              (checked_keeps now busy a user approve fingerprint comment (owning_project_id a db) db
                id b h)
      ]

-- One call of the approval service. A resolution may have read its row before `db` came to be:
-- `stale_resolution` is the part of `resolve` that follows the read, for any row.
pub data ServiceStep (outside : Outside) (engine : Engine) : Db → Db → Type 0 where
  requested :
      {db : Db} (now id : ℕ) (scope : ApprovalScope) (ref operation operation_length : ℕ)
      (payload : ActionPayload) (by bound : Option ℕ)
      → ServiceStep outside engine db
          (request_approval outside now id scope ref operation operation_length payload by bound
            db).0
  resolution :
      {db : Db} (now : ℕ) (busy : Bool) (approval_id user : ℕ) (approve : Bool) (fingerprint : ℕ)
      (comment : Option ℕ)
      → ServiceStep outside engine db
          (resolve outside engine now busy approval_id user approve fingerprint comment db).0
  stale_resolution :
      {db : Db} (now : ℕ) (busy : Bool) (a : Approval) (decision : ApprovalStatus)
      (user project_id : ℕ) (comment : Option ℕ)
      → ServiceStep outside engine db
          (decide outside engine now busy a decision user project_id comment db).0
  expiry :
      {db : Db} (now : ℕ) (scope : ApprovalScope) (ref operation : ℕ) (by : Option ℕ) (reason : ℕ)
      → ServiceStep outside engine db
          (expire_pending_for_cancellation now scope ref operation by reason db).0

pub data ServiceRun (outside : Outside) (engine : Engine) : Db → Db → Type 0 where
  idle : {db : Db} → ServiceRun outside engine db db
  step :
      {before between after : Db}
      → ServiceStep outside engine before between
      → ServiceRun outside engine between after
      → ServiceRun outside engine before after

step_keeps :
    {outside : Outside} {engine : Engine} {before after : Db} (id : ℕ) (b : Approval)
    → ServiceStep outside engine before after
    → IsDecided id b before
    → IsDecided id b after
step_keeps {outside} {engine} {before} id b
      (requested now new scope ref operation operation_length payload by bound) h =
    request_keeps outside now new scope ref operation operation_length payload by bound before id b
      h
step_keeps {outside} {engine} {before} id b
      (resolution now busy target user approve fingerprint comment) h =
    resolve_keeps outside engine now busy target user approve fingerprint comment before id b h
step_keeps {outside} {engine} {before} id b
      (stale_resolution now busy a decision user project_id comment) h =
    decide_keeps outside engine now busy a decision user project_id comment before id b h
step_keeps {outside} {engine} {before} id b (expiry now scope ref operation by reason) h =
    expiry_keeps now scope ref operation by reason before id b h

-- However requests, resolutions (also those that read their row long before) and expiries follow each
-- other, a resolved approval stays exactly as it was resolved.
pub decision_is_final :
    {outside : Outside} {engine : Engine} {before after : Db} (id : ℕ) (b : Approval)
    → ServiceRun outside engine before after
    → IsDecided id b before
    → IsDecided id b after
decision_is_final id b idle h = h
decision_is_final id b (step s rest) h = decision_is_final id b rest (step_keeps id b s h)
