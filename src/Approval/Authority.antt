-- ===== src/Approval/Authority.antt =====
-- Who may resolve an approval, and what a refused resolution leaves behind.
use multi_agent_ai_platform.Base.{
  ℕ, ◌≡◌, refl, sym, ap, ◌∙◌, inl, inr, Bool, Option, ◌==◌, ==_iff, arith, Bool-cases, ◌≤◌, Among,
}
use multi_agent_ai_platform.Schema.{Approval, Db, Membership}
use multi_agent_ai_platform.Effects.{Result, ok, raised, Error, Result-cases}
use multi_agent_ai_platform.Access.{check_project_access, modify}
use multi_agent_ai_platform.Access.Laws.{rank, needed, check_project_access_grants}
use multi_agent_ai_platform.Workflow.Upstream.{Outside}
use multi_agent_ai_platform.Approval.Expire.{owning_project_id, get_approval}
use multi_agent_ai_platform.Approval.Resolve.{Engine, checked, resolve}

-- What a resolution by `user` with this fingerprint must find.
abbrev pub Authorized : ℕ → ℕ → ℕ → Db → Type 0
Authorized approval_id user fingerprint db =
    (a : Approval) × (project_id : ℕ) × (m : Membership) × (get_approval approval_id db ≡ ok a)
    × (owning_project_id a db ≡ ok project_id)
    × Among m db.memberships
    × (m.project_id ≡ project_id)
    × (m.user_id ≡ user)
    × (needed modify ≤ rank m.role)
    × (fingerprint ≡ a.action_fingerprint)

module _ (outside : Outside) (engine : Engine) where
  checked-Authorized :
      (now : ℕ) (busy : Bool) (approval_id : ℕ) (a : Approval) (user : ℕ) (approve : Bool)
      (fingerprint : ℕ) (comment : Option ℕ) (db : Db) (r : Result ℕ) (result : Approval)
      → get_approval approval_id db ≡ ok a
      → owning_project_id a db ≡ r
      → (checked outside engine now busy a user approve fingerprint comment r db).1 ≡ ok result
      → Authorized approval_id user fingerprint db
  checked-Authorized now busy approval_id a user approve fingerprint comment db (raised e) result
        found owned h =
      absurd (ground arith)
  checked-Authorized now busy approval_id a user approve fingerprint comment db (ok project_id)
        result found owned h =
      elim (Result-cases (check_project_access user project_id modify db)) [
        | inr (e, refused) ↦ absurd (ground arith)
        | inl (m, granted) ↦
            let (stored, _, in_project, of_user, enough) =
              check_project_access_grants user project_id modify db m granted in
            elim (Bool-cases (fingerprint == a.action_fingerprint)) [
              | inl same ↦ (
                a,
                project_id,
                m,
                found,
                owned,
                stored,
                in_project,
                of_user,
                enough,
                (==_iff fingerprint a.action_fingerprint).0 same,
              )
              | inr other ↦ absurd (ground arith)
            ]
      ]

  looked_up :
      (now : ℕ) (busy : Bool) (approval_id user : ℕ) (approve : Bool) (fingerprint : ℕ)
      (comment : Option ℕ) (db : Db) (a : Approval)
      → get_approval approval_id db ≡ ok a
      → resolve outside engine now busy approval_id user approve fingerprint comment db
        ≡ checked outside engine now busy a user approve fingerprint comment
            (owning_project_id a db)
            db
  unfolding resolve owning_project_id
  looked_up now busy approval_id user approve fingerprint comment db a found =
      rw (found, resolve) refl

  not_looked_up :
      (now : ℕ) (busy : Bool) (approval_id user : ℕ) (approve : Bool) (fingerprint : ℕ)
      (comment : Option ℕ) (db : Db) (e : Error)
      → get_approval approval_id db ≡ raised e
      → resolve outside engine now busy approval_id user approve fingerprint comment db
        ≡ (db, raised e)
  unfolding resolve
  not_looked_up now busy approval_id user approve fingerprint comment db e missing =
      rw (missing, resolve) refl

  -- A resolution that returns an approval was made by a user with a row of the memberships, in the
  -- project that owns the approval, whose role permits MODIFY, and with the fingerprint that the
  -- approval is for.
  pub resolve-Authorized :
      (now : ℕ) (busy : Bool) (approval_id user : ℕ) (approve : Bool) (fingerprint : ℕ)
      (comment : Option ℕ) (db : Db) (result : Approval)
      → (resolve outside engine now busy approval_id user approve fingerprint comment db).1
        ≡ ok result
      → Authorized approval_id user fingerprint db
  resolve-Authorized now busy approval_id user approve fingerprint comment db result h =
      elim (Result-cases (get_approval approval_id db)) [
        | inr (e, missing) ↦ absurd (
            ground (
              arith,
              not_looked_up now busy approval_id user approve fingerprint comment db e missing,
            ))
        | inl (a, found) ↦
            checked-Authorized now busy approval_id a user approve fingerprint comment db
              (owning_project_id a db) result found refl
              (ap (λ (p : Db × Result Approval). p.1)
                  (sym (looked_up now busy approval_id user approve fingerprint comment db a found))
                ∙ h)
      ]
