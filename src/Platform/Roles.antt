-- ===== src/Platform/Roles.antt =====
-- src/worktree_review/platform/github/authz.py. The live role lookup is a parameter.
use worktree_review.Base.{
  ℕ, String, Bool, false, not, ◌&&◌, Option, none, some, List, [], ◌∷◌, contains, ◌==◌, string_eq,
  if◌then◌else◌,
}
use worktree_review.Server.State.{Locator}

abbrev pub standard_repository_roles : List String
standard_repository_roles = "admin" ∷ "maintain" ∷ "write" ∷ "triage" ∷ "read" ∷ []

abbrev pub retry_allowed_repository_roles : List String
retry_allowed_repository_roles = "admin" ∷ "maintain" ∷ "write" ∷ []

abbrev pub bypass_allowed_repository_roles : List String
bypass_allowed_repository_roles = "admin" ∷ "maintain" ∷ "write" ∷ []

-- The payload's `role_name` is a text or something else; `permission` is not read.
unfoldable pub normalize_standard_repository_role : Option String → Option String → Option String
normalize_standard_repository_role none permission = none
normalize_standard_repository_role (some role_name) permission =
    if not (role_name == "") && contains standard_repository_roles role_name
    then some role_name
    else none

-- `role in roles` for a role that may be `None`
abbrev pub is_among : List String → Option String → Bool
is_among roles none = false
is_among roles (some role) = contains roles role

-- `GitHubRepositoryRoleLookup.repository_role`
abbrev pub RoleLookup : Type 0
RoleLookup = ℕ → String → String → Option String

unfoldable pub may_retry : RoleLookup → Locator → String → Bool
may_retry lookup change_request actor =
    is_among retry_allowed_repository_roles
      (lookup change_request.installation_id change_request.repository actor)

unfoldable pub may_bypass : RoleLookup → Locator → String → Bool
may_bypass lookup change_request actor_login =
    is_among bypass_allowed_repository_roles
      (lookup change_request.installation_id change_request.repository actor_login)
