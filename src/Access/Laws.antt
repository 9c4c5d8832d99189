-- ===== src/Access/Laws.antt =====
-- What an admitted access implies.
use multi_agent_ai_platform.Base.{
  ℕ, ◌≡◌, true, ◌&&◌, some, find_where, ◌==◌, arith, ◌≤◌, List, [], ◌∷◌, inl, inr, Among, Any,
  Bool-cases, Option-cases,
}
use multi_agent_ai_platform.Schema.{
  ProjectRole, owner, admin, member, viewer, Project, Membership, Db,
}
use multi_agent_ai_platform.Effects.{ok}
use multi_agent_ai_platform.Access.{
  ProjectAction, read, modify, administer, role_permits, get_project_membership,
  check_project_access,
}

-- Permissions grow along viewer, member, admin, owner.
abbrev pub rank : ProjectRole → ℕ
rank viewer = 0
rank member = 1
rank admin = 2
rank owner = 3

abbrev pub needed : ProjectAction → ℕ
needed read = 0
needed modify = 1
needed administer = 2

-- A role permits an action exactly when its rank is at least what the action needs.
pub role_permits_iff_rank :
    (role : ProjectRole) (action : ProjectAction)
    → (role_permits role action ≡ true → needed action ≤ rank role)
      × (needed action ≤ rank role → role_permits role action ≡ true)
unfolding role_permits
role_permits_iff_rank role action = ground arith

matching :
    (project_id user_id : ℕ) (rows : List Membership) (m : Membership)
    → find_where (λ m. m.project_id == project_id && m.user_id == user_id) rows ≡ some m
    → (Among m rows) × (m.project_id ≡ project_id) × (m.user_id ≡ user_id)
matching project_id user_id [] m h = cc
matching project_id user_id (r ∷ rows) m h =
    elim (Bool-cases (r.project_id == project_id && r.user_id == user_id)) [
      | inl hit ↦ let e : r ≡ m = ground arith in (inl e, ground arith, ground arith)
      | inr miss ↦
          let rest = matching project_id user_id rows m (ground arith) in
          (inr rest.0, rest.1, rest.2)
    ]

-- A project with this id.
project_exists :
    (project_id : ℕ) (projects : List Project) (p : Project)
    → find_where (λ project. project.id == project_id) projects ≡ some p
    → Any (λ project. project.id ≡ project_id) projects
project_exists project_id [] p h = cc
project_exists project_id (x ∷ projects) p h = elim (Bool-cases (x.id == project_id)) [
  | inl same ↦ inl (ground arith)
  | inr other ↦ inr (project_exists project_id projects p (ground arith))
]

project_found :
    (user_id project_id : ℕ) (action : ProjectAction) (db : Db) (m : Membership)
    → check_project_access user_id project_id action db ≡ ok m
    → (p : Project) × (find_where (λ project. project.id == project_id) db.projects ≡ some p)
unfolding check_project_access
project_found user_id project_id action db m h =
    elim (Option-cases (find_where (λ project. project.id == project_id) db.projects)) [
      | inl absent ↦ absurd (ground arith)
      | inr found ↦ found
    ]

membership_found :
    (user_id project_id : ℕ) (action : ProjectAction) (db : Db) (m : Membership)
    → check_project_access user_id project_id action db ≡ ok m
    → (get_project_membership project_id user_id db ≡ some m) × (role_permits m.role action ≡ true)
unfolding check_project_access
membership_found user_id project_id action db m h = ground arith

-- Access is granted only with a row of the memberships, of this user in this project, whose role's
-- rank is at least what the action needs, and only where the project is there.
pub check_project_access_grants :
    (user_id project_id : ℕ) (action : ProjectAction) (db : Db) (m : Membership)
    → check_project_access user_id project_id action db ≡ ok m
    → Among m db.memberships
      × Any (λ project. project.id ≡ project_id) db.projects
      × (m.project_id ≡ project_id)
      × (m.user_id ≡ user_id)
      × (needed action ≤ rank m.role)
check_project_access_grants user_id project_id action db m h =
    let (project, there) = project_found user_id project_id action db m h in
    let (found, permitted) = membership_found user_id project_id action db m h in
    let (stored, in_project, of_user) = matching project_id user_id db.memberships m found in
    (
      stored,
      project_exists project_id db.projects project there,
      in_project,
      of_user,
      (role_permits_iff_rank m.role action).0 permitted,
    )
