-- ===== src/Access.antt =====
-- Project-scoped authorization, app/authz.py.
pub mod Laws
use multi_agent_ai_platform.Base.{
  ℕ, Bool, true, false, ◌&&◌, Option, none, some, ◌==◌, find_where, if◌then◌else◌,
}
use multi_agent_ai_platform.Schema.{
  ProjectRole, owner, admin, member, viewer, Project, Membership, Db,
}
use multi_agent_ai_platform.Effects.{Result, ok, raised, not_found, forbidden}

pub data ProjectAction : Type 0 where
  read modify administer : ProjectAction

-- `action in _PERMISSIONS[role]`
unfoldable pub role_permits : ProjectRole → ProjectAction → Bool
role_permits viewer read = true
role_permits viewer _ = false
role_permits member administer = false
role_permits member _ = true
role_permits admin _ = true
role_permits owner _ = true

abbrev pub get_project_membership : ℕ → ℕ → Db → Option Membership
get_project_membership project_id user_id db =
    find_where (λ m. m.project_id == project_id && m.user_id == user_id) db.memberships

abbrev pub check_membership : ProjectAction → Option Membership → Result Membership
check_membership action none = raised forbidden
check_membership action (some m) = if role_permits m.role action then ok m else raised forbidden

unfoldable pub check_project_access : ℕ → ℕ → ProjectAction → Db → Result Membership
unfolding role_permits
check_project_access user_id project_id action db =
    elim (find_where (λ project. project.id == project_id) db.projects) [
      | none ↦ raised not_found
      | some project ↦ check_membership action (get_project_membership project_id user_id db)
    ]
