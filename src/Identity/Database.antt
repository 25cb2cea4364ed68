-- ===== src/Identity/Database.antt =====
-- What the identity service reads and writes: its tables (modules/identity/repository.py), the
-- libraries it calls, its requests, and the deadlines of a session (modules/identity/service.py).
use mail_control.Base.{
  ℕ, ◌+◌, ◌*◌, String, Bool, true, false, ◌&&◌, ◌||◌, Option, some, List, ◌==◌, same, leb, min,
  find_first, is_some,
}
use mail_control.Base.Exec.{ok, err, Exec}
use mail_control.Identity.Models.{
  TenantStatus, active, suspended, Tenant, User, RefreshSession, TextOps,
}
use mail_control.Identity.Tokens.{UuidText, Jwt, Settings}
use mail_control.Saas.Models.{Plan, TenantSubscription}

pub data IdentityError : Type 0 where
  identity_error conflict_error authentication_error : String → IdentityError

-- The tables of a transaction; `next_id` stands for the UUID default.
pub record Database : Type 0 where
  pub tenants : List Tenant
  pub users : List User
  pub sessions : List RefreshSession
  pub plans : List Plan
  pub subscriptions : List TenantSubscription
  pub next_id : ℕ

-- What the request's surroundings give: the times that the successive calls of `datetime.now`
-- return, and the random texts.
pub record Surroundings : Type 0 where
  pub checked_at : ℕ
  pub issued_at : ℕ
  pub signed_at : ℕ
  pub secret : String
  pub jti : String
  pub user_agent : Option String
  pub ip_address : Option String

pub record TokenPairResponse : Type 0 where
  pub access_token : String
  pub refresh_token : String
  pub expires_in : ℕ
  pub user : User

-- The library functions that the service calls: argon2's `hash` and `verify`, SHA-256, PyJWT.
pub record Library : Type 0 where
  pub text : TextOps
  pub hash_password : String → String
  pub verify_password : String → String → Bool
  pub sha256_hex : String → String
  pub uuid : UuidText
  pub jwt : Jwt

abbrev pub Service : Type 0 → Type 0
Service A = Exec IdentityError Database A

-- A request that raises is rolled back when its session closes.
abbrev pub transaction : {A : Type 0} → Service A → Service A
transaction m db = let (r, db') = m db in elim r [ ok a ↦ (ok a, db') | err e ↦ (err e, db) ]

pub record RegisterTenantRequest : Type 0 where
  pub tenant_name : String
  pub tenant_slug : String
  pub owner_name : String
  pub email : String
  pub password : String

pub record LoginRequest : Type 0 where
  pub tenant_slug : String
  pub email : String
  pub password : String

abbrev pub session_absolute_deadline : Settings → ℕ → ℕ
session_absolute_deadline settings started_at = started_at + settings.session_absolute_hours * 3600

abbrev pub session_refresh_deadline : Settings → ℕ → ℕ → ℕ
session_refresh_deadline settings now started_at =
    min (now + settings.session_idle_minutes * 60) (session_absolute_deadline settings started_at)

abbrev pub with_token : ℕ → String → RefreshSession → Bool
with_token tenant_id token_hash s = s.tenant_id == tenant_id && same s.token_hash token_hash

-- `repository.refresh_session` under the tenant's row-level security.
abbrev pub refresh_session : ℕ → String → Database → Option RefreshSession
refresh_session tenant_id token_hash db = find_first (with_token tenant_id token_hash) db.sessions

abbrev pub user_by_id : ℕ → ℕ → Database → Option User
user_by_id tenant_id user_id db =
    find_first (λ u. u.tenant_id == tenant_id && u.id == user_id) db.users

abbrev pub tenant_by_slug : String → Database → Option Tenant
tenant_by_slug slug db = find_first (λ t. same t.slug slug) db.tenants

abbrev pub is_active_tenant : TenantStatus → Bool
is_active_tenant active = true
is_active_tenant suspended = false

-- `session.revoked_at is not None or session.expires_at <= now or deadline <= now`
abbrev pub is_dead : Settings → ℕ → RefreshSession → Bool
is_dead settings now s =
    is_some s.revoked_at
    || leb s.expires_at now
    || leb (session_absolute_deadline settings s.created_at) now

abbrev pub revoke : ℕ → RefreshSession → RefreshSession
revoke now s = record s { revoked_at = some now }
