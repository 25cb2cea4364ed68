-- ===== src/Saas.antt =====
-- The administration of a workspace: api/saas.py.
pub mod Models
pub mod Limits
pub mod Hierarchy
use mail_control.Base.{
  ℕ, ◌+◌, String, Bool, true, false, ◌&&◌, Option, none, some, List, [], ◌∷◌, ◌++◌, ◌==◌, same, leb,
  if◌then◌else◌, count_if, find_first, update_first, is_some, or_else, not,
}
use mail_control.Base.Exec.{
  Result, ok, err, Exec, pure, raise, gets, modify, raise_if, lift, ◌>>=◌, ◌>>◌,
}
use mail_control.Saas.Models.{Plan, TenantSubscription}
use mail_control.Identity.Models.{RoleName, admin, User, TextOps}
use mail_control.Identity.Roles.{
  HttpException, Principal, conflict, not_found, require_role, validate_managed_role,
  validate_managed_user,
}

-- The tables that the endpoints read and write; `next_id` stands for the UUID default.
pub record Workspace : Type 0 where
  pub users : List User
  pub plans : List Plan
  pub subscriptions : List TenantSubscription
  pub next_id : ℕ

pub record CreateWorkspaceUser : Type 0 where
  pub email : String
  pub display_name : String
  pub password : String
  pub role : RoleName

pub record UpdateWorkspaceUser : Type 0 where
  pub role : Option RoleName
  pub is_active : Option Bool

abbrev pub Endpoint : Type 0 → Type 0
Endpoint A = Exec HttpException Workspace A

plan_limit : List Plan → Option TenantSubscription → Option ℕ
plan_limit plans none = none
plan_limit plans (some sub) = elim (find_first (λ p. p.id == sub.plan_id) plans) [
  | none ↦ none
  | some p ↦ some p.max_users
]

-- SELECT plans.max_users JOIN tenant_subscriptions WHERE tenant_id
unfoldable pub max_users_of : Workspace → ℕ → Option ℕ
unfolding plan_limit
max_users_of w tenant_id =
    plan_limit w.plans (find_first (λ s. s.tenant_id == tenant_id) w.subscriptions)

abbrev pub is_active_in : ℕ → User → Bool
is_active_in tenant_id u = u.tenant_id == tenant_id && u.is_active

abbrev pub active_users : Workspace → ℕ → ℕ
active_users w tenant_id = count_if (is_active_in tenant_id) w.users

-- `limit is None or int(active_users or 0) >= limit`
abbrev limit_reached : Option ℕ → ℕ → Bool
limit_reached none n = true
limit_reached (some limit) n = leb limit n

abbrev pub has_email : ℕ → String → User → Bool
has_email tenant_id normalized u = u.tenant_id == tenant_id && same u.email_normalized normalized

abbrev pub is_user : ℕ → ℕ → User → Bool
is_user tenant_id user_id u = u.tenant_id == tenant_id && u.id == user_id

module _ (text : TextOps) (hash_password : String → String) where
  abbrev pub new_user : ℕ → CreateWorkspaceUser → ℕ → User
  new_user tenant_id form id = record {
    id = id;
    tenant_id = tenant_id;
    email = text.strip form.email;
    email_normalized = text.casefold (text.strip form.email);
    display_name = text.strip form.display_name;
    password_hash = hash_password form.password;
    role = form.role;
    is_active = true;
    is_platform_admin = false;
    last_login_at = none;
  }

  -- POST /v1/saas/users, after `Depends(require_role(ADMIN))`
  unfoldable pub create_user : Principal → CreateWorkspaceUser → Endpoint User
  unfolding max_users_of
  create_user principal form = do
    lift (require_role admin principal)
    let tenant_id = principal.claims.tenant_id
    lift (validate_managed_role principal form.role)
    limit ← gets (λ w. max_users_of w tenant_id)
    active ← gets (λ w. active_users w tenant_id)
    raise_if (limit_reached limit active) (conflict "plan user limit reached")
    let normalized = text.casefold (text.strip form.email)
    existing ← gets (λ w. find_first (has_email tenant_id normalized) w.users)
    raise_if (is_some existing) (conflict "email already exists")
    user ← gets (λ w. new_user tenant_id form w.next_id)
    modify (λ w. record w { users = w.users ++ user ∷ []; next_id = w.next_id + 1 })
    pure user

abbrev pub patched : UpdateWorkspaceUser → User → User
patched form u = record u {
  role = or_else form.role u.role;
  is_active = or_else form.is_active u.is_active;
}

or_not_found : Option User → Endpoint User
or_not_found none = raise (not_found "user not found")
or_not_found (some user) = pure user

validate_new_role : Principal → Option RoleName → Endpoint (Unit {0})
validate_new_role principal none = pure tt
validate_new_role principal (some role) = lift (validate_managed_role principal role)

abbrev is_false : Option Bool → Bool
is_false (some false) = true
is_false _ = false

-- PATCH /v1/saas/users/{user_id}, after `Depends(require_role(ADMIN))`
unfoldable pub update_user : ℕ → Principal → UpdateWorkspaceUser → Endpoint User
unfolding or_not_found validate_new_role
update_user user_id principal form = do
  lift (require_role admin principal)
  let tenant_id = principal.claims.tenant_id
  user ← gets (λ w. find_first (is_user tenant_id user_id) w.users)
  user ← or_not_found user
  lift (validate_managed_user principal user)
  raise_if (user.id == principal.user.id && is_false form.is_active)
      (conflict "cannot deactivate current user")
  validate_new_role principal form.role
  modify (λ w. record w { users = update_first (is_user tenant_id user_id) (patched form) w.users })
  pure (patched form user)
