-- ===== src/Identity/Roles.antt =====
-- The role checks of api/dependencies.py and the guards of api/saas.py.
use mail_control.Base.{ℕ, String, ◌&&◌, ◌≡◌, ltb, if◌then◌else◌, arith}
use mail_control.Base.Exec.{Result, ok, err, is_ok}
use mail_control.Identity.Models.{RoleName, owner, admin, operator, viewer, User, same_role}

pub record HttpException : Type 0 where
  pub status_code : ℕ
  pub detail : String

pub record AccessClaims : Type 0 where
  pub user_id : ℕ
  pub tenant_id : ℕ
  pub role : RoleName

pub record Principal : Type 0 where
  pub claims : AccessClaims
  pub user : User

-- ROLE_RANK
abbrev pub rank : RoleName → ℕ
rank viewer = 10
rank operator = 20
rank admin = 30
rank owner = 40

abbrev pub forbidden : String → HttpException
forbidden detail = record { status_code = 403; detail = detail }

abbrev pub conflict : String → HttpException
conflict detail = record { status_code = 409; detail = detail }

abbrev pub not_found : String → HttpException
not_found detail = record { status_code = 404; detail = detail }

unfoldable pub require_role : RoleName → Principal → Result HttpException Principal
require_role minimum principal =
    if ltb (rank principal.user.role) (rank minimum)
    then err (forbidden "insufficient permissions")
    else ok principal

unfoldable pub platform_admin : Principal → Result HttpException Principal
platform_admin principal =
    if principal.user.is_platform_admin
    then ok principal
    else err (forbidden "platform administrator required")

-- "Prevent privilege escalation and preserve the single workspace owner."
unfoldable pub validate_managed_role : Principal → RoleName → Result HttpException (Unit {0})
validate_managed_role principal role =
    if same_role role owner
    then err (forbidden "owner role cannot be assigned")
    else if same_role principal.user.role admin && same_role role admin
    then err (forbidden "admins cannot assign admin role")
    else ok tt

unfoldable pub validate_managed_user : Principal → User → Result HttpException (Unit {0})
validate_managed_user principal user =
    if same_role user.role owner
    then err (forbidden "workspace owner cannot be modified")
    else if same_role principal.user.role admin && same_role user.role admin
    then err (forbidden "admins cannot modify other admins")
    else ok tt

-- A principal that passes `require_role(ADMIN)` may assign exactly the roles strictly below its
-- own, and modify exactly the users whose role is strictly below its own.
managed_below :
    (p : Principal) (role : RoleName) (user : User)
    → require_role admin p ≡ ok p
    → (is_ok (validate_managed_role p role) ≡ ltb (rank role) (rank p.user.role))
      × (is_ok (validate_managed_user p user) ≡ ltb (rank user.role) (rank p.user.role))
unfolding validate_managed_role validate_managed_user require_role
managed_below p role user h = ground arith
