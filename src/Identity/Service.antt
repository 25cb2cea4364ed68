-- ===== src/Identity/Service.antt =====
-- modules/identity/service.py and repository.py: registration, login, and rotating refresh
-- sessions. The clock readings and random texts of a call are its arguments.
pub mod Calls
pub mod Deadlines
pub mod Rotation
use mail_control.Base.{
  ℕ, ◌+◌, ◌*◌, String, Bool, true, false, ◌&&◌, ◌||◌, not, Option, none, some, List, [], ◌∷◌, ◌++◌,
  ◌==◌, same, leb, min, if◌then◌else◌, find_first, update_first, is_some, or_else,
}
use mail_control.Base.Exec.{
  Result, ok, err, Exec, pure, raise, gets, modify, raise_if, lift, ◌>>=◌, ◌>>◌,
}
use mail_control.Identity.Models.{
  TenantStatus, active, suspended, Tenant, RoleName, owner, User, RefreshSession, TextOps,
}
use mail_control.Identity.Tokens.{
  UuidText, Jwt, Settings, refresh_token_tenant, create_refresh_token, create_access_token,
}
use mail_control.Identity.Database.{
  IdentityError, Database, Surroundings, TokenPairResponse, Library, Service, transaction,
  RegisterTenantRequest, LoginRequest, session_absolute_deadline, session_refresh_deadline,
  with_token, refresh_session, user_by_id, tenant_by_slug, is_active_tenant, is_dead, revoke,
  identity_error, conflict_error, authentication_error,
}
use mail_control.Saas.Models.{Plan, TenantSubscription, trialing}

-- `if tenant is None or tenant.status is not ACTIVE: raise`
pub active_tenant : String → Option Tenant → Service Tenant
active_tenant detail none = raise (authentication_error detail)
active_tenant detail (some t) =
    if is_active_tenant t.status then pure t else raise (authentication_error detail)

-- `if user is None or not user.is_active: raise`
pub active_user : String → Option User → Service User
active_user detail none = raise (authentication_error detail)
active_user detail (some u) = if u.is_active then pure u else raise (authentication_error detail)

pub live_session : Settings → ℕ → Option RefreshSession → Service RefreshSession
live_session settings now none = raise (authentication_error "invalid refresh token")
live_session settings now (some s) =
    if is_dead settings now s then raise (authentication_error "invalid refresh token") else pure s

module _ (lib : Library) (settings : Settings) where
  abbrev pub user_by_email : ℕ → String → Database → Option User
  user_by_email tenant_id email db =
      find_first
        (λ u.
          u.tenant_id == tenant_id
          && same u.email_normalized (lib.text.casefold (lib.text.strip email)))
        db.users

  abbrev pub new_session : User → Surroundings → ℕ → RefreshSession
  new_session user env started_at = record {
    tenant_id = user.tenant_id;
    user_id = user.id;
    token_hash = lib.sha256_hex (create_refresh_token lib.uuid user.tenant_id env.secret);
    expires_at = session_refresh_deadline settings env.issued_at started_at;
    revoked_at = none;
    created_at = started_at;
    user_agent = env.user_agent;
    ip_address = env.ip_address;
  }

  -- `_issue_pair`
  pub issue_pair : User → Surroundings → Option ℕ → Service TokenPairResponse
  issue_pair user env session_started_at = do
    let access =
        create_access_token lib.uuid lib.jwt settings env.signed_at env.jti user.id user.tenant_id
          user.role
    let started_at = or_else session_started_at env.issued_at
    modify (λ db. record db { sessions = db.sessions ++ new_session user env started_at ∷ [] })
    pure (record {
      access_token = access.0;
      refresh_token = create_refresh_token lib.uuid user.tenant_id env.secret;
      expires_in = access.1;
      user = user;
    })

  -- `UPDATE users SET last_login_at` on the row that was read
  stamp_login : User → ℕ → Service (Unit {0})
  stamp_login user now = modify (λ db. record db {
    users =
        update_first (λ u. u.tenant_id == user.tenant_id && u.id == user.id)
          (λ u. record u { last_login_at = some now }) db.users;
  })

  pub login : LoginRequest → Surroundings → Service TokenPairResponse
  unfolding issue_pair stamp_login active_tenant active_user
  login form env = transaction do
    tenant ← gets (tenant_by_slug form.tenant_slug)
    tenant ← active_tenant "invalid credentials" tenant
    user ← gets (user_by_email tenant.id form.email)
    user ← active_user "invalid credentials" user
    raise_if (not (lib.verify_password user.password_hash form.password))
        (authentication_error "invalid credentials")
    stamp_login user env.checked_at
    issue_pair user env none

  -- Login by an external identity provider, which has checked the address.
  pub login_external : String → String → Surroundings → Service TokenPairResponse
  unfolding issue_pair stamp_login active_tenant active_user
  login_external tenant_slug email env = transaction do
    tenant ← gets (tenant_by_slug tenant_slug)
    tenant ← active_tenant "account is not authorized" tenant
    user ← gets (user_by_email tenant.id email)
    user ← active_user "account is not authorized" user
    stamp_login user env.checked_at
    issue_pair user env none

  pub reset_password : String → String → String → Service (Unit {0})
  unfolding active_tenant active_user
  reset_password tenant_slug email password = transaction do
    tenant ← gets (tenant_by_slug tenant_slug)
    tenant ← active_tenant "invalid recovery request" tenant
    user ← gets (user_by_email tenant.id email)
    user ← active_user "invalid recovery request" user
    modify (λ db. record db {
      users =
          update_first (λ u. u.tenant_id == user.tenant_id && u.id == user.id)
            (λ u. record u { password_hash = lib.hash_password password }) db.users;
    })

  token_tenant : String → Service ℕ
  token_tenant refresh_token = elim (refresh_token_tenant lib.uuid refresh_token) [
    | ok t ↦ pure t
    | err e ↦ raise (authentication_error "invalid refresh token")
  ]

  unfoldable pub rotate_refresh_token : String → Surroundings → Service TokenPairResponse
  unfolding issue_pair token_tenant live_session active_user
  rotate_refresh_token refresh_token env = transaction do
    tenant_id ← token_tenant refresh_token
    let token_hash = lib.sha256_hex refresh_token
    session ← gets (refresh_session tenant_id token_hash)
    session ← live_session settings env.checked_at session
    user ← gets (user_by_id session.tenant_id session.user_id)
    user ← active_user "invalid refresh token" user
    modify (λ db. record db {
      sessions = update_first (with_token tenant_id token_hash) (revoke env.checked_at) db.sessions;
    })
    issue_pair user env (some session.created_at)

  abbrev can_revoke : Option RefreshSession → Bool
  can_revoke none = false
  can_revoke (some s) = not (is_some s.revoked_at)

  pub logout : String → ℕ → Database → Database
  logout refresh_token now db = elim (refresh_token_tenant lib.uuid refresh_token) [
    | err e ↦ db
    | ok tenant_id ↦
        let token_hash = lib.sha256_hex refresh_token in
        if can_revoke (refresh_session tenant_id token_hash db)
        then record db {
          sessions = update_first (with_token tenant_id token_hash) (revoke now) db.sessions;
        }
        else db
  ]

  abbrev is_starter : Plan → Bool
  is_starter p = same p.code "starter"

  or_no_plan : Option Plan → Service Plan
  or_no_plan none = raise (identity_error "starter plan is not configured")
  or_no_plan (some p) = pure p

  abbrev pub first_owner : RegisterTenantRequest → ℕ → User
  first_owner form tenant_id = record {
    id = tenant_id + 1;
    tenant_id = tenant_id;
    email = form.email;
    email_normalized = lib.text.casefold form.email;
    display_name = lib.text.strip form.owner_name;
    password_hash = lib.hash_password form.password;
    role = owner;
    is_active = true;
    is_platform_admin = false;
    last_login_at = none;
  }

  -- What `register` does once the slug is known to be free.
  pub open_workspace : RegisterTenantRequest → Surroundings → Service TokenPairResponse
  unfolding issue_pair or_no_plan
  open_workspace form env = do
    id ← gets (λ db. db.next_id)
    let tenant : Tenant = record {
      id = id;
      name = lib.text.strip form.tenant_name;
      slug = form.tenant_slug;
      status = active;
    }
    let user = first_owner form id
    modify (λ db. record db {
      tenants = db.tenants ++ tenant ∷ [];
      users = db.users ++ user ∷ [];
      next_id = db.next_id + 2;
    })
    starter ← gets (λ db. find_first is_starter db.plans)
    starter ← or_no_plan starter
    modify (λ db. record db {
      subscriptions =
          db.subscriptions
          ++ record {
            tenant_id = id;
            plan_id = starter.id;
            status = trialing;
            period_start = env.checked_at;
            period_end = env.checked_at + 30 * 86400;
          }
            ∷ [];
    })
    issue_pair user env none

  pub register : RegisterTenantRequest → Surroundings → Service TokenPairResponse
  register form env = transaction do
    existing ← gets (tenant_by_slug form.tenant_slug)
    raise_if (is_some existing) (conflict_error "tenant slug is already registered")
    open_workspace form env
