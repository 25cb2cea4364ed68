-- ===== src/Identity/Models.antt =====
-- modules/identity/models.py. Ids and times (seconds) are numbers.
use mail_control.Base.{ℕ, String, Bool, Option, ◌==◌}

pub data TenantStatus : Type 0 where
  active suspended : TenantStatus

pub data RoleName : Type 0 where
  owner admin operator viewer : RoleName

pub record Tenant : Type 0 where
  pub id : ℕ
  pub name : String
  pub slug : String
  pub status : TenantStatus

pub record User : Type 0 where
  pub id : ℕ
  pub tenant_id : ℕ
  pub email : String
  pub email_normalized : String
  pub display_name : String
  pub password_hash : String
  pub role : RoleName
  pub is_active : Bool
  pub is_platform_admin : Bool
  pub last_login_at : Option ℕ

pub record RefreshSession : Type 0 where
  pub tenant_id : ℕ
  pub user_id : ℕ
  pub token_hash : String
  pub expires_at : ℕ
  pub revoked_at : Option ℕ
  pub created_at : ℕ
  pub user_agent : Option String
  pub ip_address : Option String

-- `str.casefold` and `str.strip`, which rest on the Unicode tables of the interpreter.
pub record TextOps : Type 0 where
  pub casefold : String → String
  pub strip : String → String

abbrev role_code : RoleName → ℕ
role_code owner = 0
role_code admin = 1
role_code operator = 2
role_code viewer = 3

abbrev pub same_role : RoleName → RoleName → Bool
same_role a b = role_code a == role_code b
