-- ===== src/Tests/Identity.antt =====
-- Sessions, tokens and roles at concrete inputs.
use mail_control.Base.{
  ℕ, Bool, ◌==◌, ◌||◌, same, ◌≡◌, String, true, false, none, List, [], ◌∷◌, refl, all,
}
use mail_control.Base.Exec.{ok, err, is_ok}
use mail_control.Identity.Models.{TenantStatus, Tenant, User, owner, TextOps}
use mail_control.Identity.Roles.{Principal}
use mail_control.Identity.Tokens.{
  Settings, create_refresh_token, refresh_token_tenant, create_access_token, decode_access_token,
  decode_access_token-create,
}
use mail_control.Identity.Database.{Database, Surroundings, Library, authentication_error}
use mail_control.Identity.Service.{rotate_refresh_token}
use mail_control.Identity.Service.Calls.{Call, call_login, call_rotate, call_logout, serve_all}
use mail_control.Identity.Service.Deadlines.{is_bounded, serve_all_bounded}
use mail_control.Identity.Service.Rotation.{rotate-rotate, rotate_ignores_tenants}
use mail_control.Tests.Codec.{uuid, jwt}

abbrev pub text : TextOps
text = record { casefold = λ s. s; strip = λ s. s }

abbrev library : Library
library = record {
  text = text;
  hash_password = λ s. s;
  verify_password = λ password hashed. same password hashed;
  sha256_hex = λ s. s;
  uuid = uuid;
  jwt = jwt;
}

abbrev settings : Settings
settings = record {
  app_secret_key = "key";
  jwt_issuer = "mail-control";
  access_token_ttl_minutes = 15;
  session_idle_minutes = 30;
  session_absolute_hours = 12;
}

abbrev surroundings : Surroundings
surroundings = record {
  checked_at = 1000;
  issued_at = 1001;
  signed_at = 1001;
  secret = "fresh";
  jti = "id";
  user_agent = none;
  ip_address = none;
}

abbrev later : Surroundings
later = record surroundings {
  checked_at = 2000;
  issued_at = 2001;
  signed_at = 2001;
  secret = "next";
}

abbrev pub ana : User
ana = record {
  id = 7;
  tenant_id = 3;
  email = "ana@example.com";
  email_normalized = "ana@example.com";
  display_name = "Ana";
  password_hash = "secret";
  role = owner;
  is_active = true;
  is_platform_admin = false;
  last_login_at = none;
}

abbrev token : String
token = create_refresh_token uuid 3 "old"

abbrev database : Database
database = record {
  tenants = record { id = 3; name = "Acme"; slug = "acme"; status = TenantStatus.active } ∷ [];
  users = ana ∷ [];
  sessions =
      record {
        tenant_id = 3;
        user_id = 7;
        token_hash = token;
        expires_at = 1500;
        revoked_at = none;
        created_at = 500;
        user_agent = none;
        ip_address = none;
      }
      ∷ [];
  plans = [];
  subscriptions = [];
  next_id = 8;
}

rotates : is_ok (rotate_refresh_token library settings token surroundings database).0 ≡ true
unfolding create_refresh_token rotate_refresh_token refresh_token_tenant
rotates = refl

abbrev calls : List Call
calls =
    call_login (record { tenant_slug = "acme"; email = "ana@example.com"; password = "secret" })
      surroundings
    ∷ call_rotate token later
    ∷ call_logout token 3000
    ∷ []

rotate-rotate_example :
    let db =
      serve_all library settings calls
        (rotate_refresh_token library settings token surroundings database).1 in
    rotate_refresh_token library settings token later db
    ≡ (err (authentication_error "invalid refresh token"), db)
rotate-rotate_example =
    rotate-rotate library settings token surroundings later calls database rotates

abbrev suspended : Tenant
suspended = record { id = 3; name = "Acme"; slug = "acme"; status = TenantStatus.suspended }

rotate_ignores_tenants_example :
    (rotate_refresh_token library settings token surroundings
      (record database { tenants = suspended ∷ [] })).0
    ≡ (rotate_refresh_token library settings token surroundings database).0
rotate_ignores_tenants_example =
    rotate_ignores_tenants library settings token surroundings database (suspended ∷ [])

-- The start of the session in the table, and the time of the one sign-in.
abbrev starts : ℕ → Bool
starts t = t == 500 || t == surroundings.issued_at

serve_all_bounded_example :
    all (is_bounded settings starts) (serve_all library settings calls database).sessions ≡ true
serve_all_bounded_example = serve_all_bounded library settings starts calls database refl refl

decode_access_token-create_example :
    decode_access_token uuid jwt settings 1500
      (create_access_token uuid jwt settings 1000 "id" 7 3 owner).0
    ≡ ok (record { user_id = 7; tenant_id = 3; role = owner })
decode_access_token-create_example =
    decode_access_token-create uuid jwt settings 1000 1500 "id" 7 3 owner refl refl

abbrev pub principal : Principal
principal = record { claims = record { user_id = 7; tenant_id = 3; role = owner }; user = ana }
