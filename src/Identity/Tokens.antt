-- ===== src/Identity/Tokens.antt =====
-- modules/identity/security.py: access tokens and refresh tokens.
use Prim.Native.Char.{code}
use mail_control.Base.{
  ℕ, ◌+◌, ◌*◌, String, Bool, true, false, ◌||◌, not, Option, none, some, ◌≡◌, refl, arith, ◌==◌,
  same, if◌then◌else◌, truthy, ltb,
}
use mail_control.Base.Exec.{Result, ok, err}
use mail_control.Identity.Models.{RoleName, owner, admin, operator, viewer}
use mail_control.Identity.Roles.{AccessClaims}

-- `str.partition(".")`
pub record Parts : Type 0 where
  pub head : String
  pub found : Bool
  pub rest : String

unfoldable pub partition_dot : String → Parts
partition_dot String.[] = record { head = String.[]; found = false; rest = String.[] }
partition_dot (String.◌∷◌ c s) =
    let p = partition_dot s in
    if code c == b'.'
    then record { head = String.[]; found = true; rest = s }
    else record { head = String.◌∷◌ c p.head; found = p.found; rest = p.rest }

abbrev pub append_text : String → String → String
append_text String.[] t = t
append_text (String.◌∷◌ c s) t = String.◌∷◌ c (append_text s t)

abbrev pub has_dot : String → Bool
has_dot String.[] = false
has_dot (String.◌∷◌ c s) = code c == b'.' || has_dot s

-- `str(UUID)` and `UUID(text)`, and what the program relies on: a printed UUID parses to itself
-- and has no dot.
pub record UuidText : Type 0 where
  pub show : ℕ → String
  pub parse : String → Option ℕ
  pub parse-show : (id : ℕ) → parse (show id) ≡ some id
  pub show_no_dot : (id : ℕ) → has_dot (show id) ≡ false

pub data ValueError : Type 0 where
  malformed_refresh_token bad_uuid bad_role : ValueError

or_bad_uuid : Option ℕ → Result ValueError ℕ
or_bad_uuid none = err bad_uuid
or_bad_uuid (some id) = ok id

module _ (uuid : UuidText) where
  unfoldable pub refresh_token_tenant : String → Result ValueError ℕ
  unfolding partition_dot or_bad_uuid
  refresh_token_tenant token =
      let p = partition_dot token in
      if not p.found || not (truthy p.rest)
      then err malformed_refresh_token
      else or_bad_uuid (uuid.parse p.head)

  -- `secret` is what `secrets.token_urlsafe(48)` returned.
  unfoldable pub create_refresh_token : ℕ → String → String
  create_refresh_token tenant_id secret = append_text (uuid.show tenant_id) (String.◌∷◌ "." secret)

partition_dot-append :
    (s t : String)
    → has_dot s ≡ false
    → partition_dot (append_text s (String.◌∷◌ "." t)) ≡ record { head = s; found = true; rest = t }
unfolding partition_dot
partition_dot-append String.[] t h = refl
partition_dot-append (String.◌∷◌ c s) t h = ground (arith, partition_dot-append s t)

-- A refresh token gives back the tenant that it was made for.
refresh_token_tenant-create :
    (uuid : UuidText) (tenant_id : ℕ) (secret : String)
    → truthy secret ≡ true
    → refresh_token_tenant uuid (create_refresh_token uuid tenant_id secret) ≡ ok tenant_id
unfolding refresh_token_tenant create_refresh_token
refresh_token_tenant-create uuid tenant_id secret h =
    rw (partition_dot-append (uuid.show tenant_id) secret (uuid.show_no_dot tenant_id))
      (rw (uuid.parse-show tenant_id) (ground arith))

pub record Payload : Type 0 where
  pub sub : String
  pub tenant : String
  pub role_text : String
  pub kind : String
  pub iss : String
  pub iat : ℕ
  pub exp : ℕ
  pub jti : String

-- PyJWT with HS256: `decode` is `none` when it raises. What the program relies on: a token made
-- with the key is accepted before it expires, by who asks for its issuer.
pub record Jwt : Type 0 where
  pub encode : String → Payload → String
  pub decode : String → String → ℕ → String → Option Payload
  pub decode-encode :
      (key : String) (p : Payload) (now : ℕ)
      → ltb now p.exp ≡ true
      → ltb now p.iat ≡ false
      → decode key p.iss now (encode key p) ≡ some p

pub record Settings : Type 0 where
  pub app_secret_key : String
  pub jwt_issuer : String
  pub access_token_ttl_minutes : ℕ
  pub session_idle_minutes : ℕ
  pub session_absolute_hours : ℕ

pub data TokenError : Type 0 where
  invalid_token unexpected_token_type : TokenError
  value_error : ValueError → TokenError

-- `role.value`, and `RoleName(text)`
abbrev pub role_value : RoleName → String
role_value owner = "owner"
role_value admin = "admin"
role_value operator = "operator"
role_value viewer = "viewer"

unfoldable pub role_of : String → Option RoleName
role_of s =
    if same s "owner"
    then some owner
    else if same s "admin"
    then some admin
    else if same s "operator"
    then some operator
    else if same s "viewer"
    then some viewer
    else none

claims_of : Option ℕ → Option ℕ → Option RoleName → Result TokenError AccessClaims
claims_of (some u) (some t) (some r) = ok (record { user_id = u; tenant_id = t; role = r })
claims_of (some u) (some t) none = err (value_error bad_role)
claims_of _ _ _ = err (value_error bad_uuid)

module _ (uuid : UuidText) (jwt : Jwt) (settings : Settings) where
  abbrev pub access_payload : ℕ → String → ℕ → ℕ → RoleName → Payload
  access_payload now jti user_id tenant_id role = record {
    sub = uuid.show user_id;
    tenant = uuid.show tenant_id;
    role_text = role_value role;
    kind = "access";
    iss = settings.jwt_issuer;
    iat = now;
    exp = now + settings.access_token_ttl_minutes * 60;
    jti = jti;
  }

  -- The token, and the seconds until it expires; `jti` is what `secrets.token_urlsafe(16)` gave.
  unfoldable pub create_access_token : ℕ → String → ℕ → ℕ → RoleName → String × ℕ
  create_access_token now jti user_id tenant_id role = (
    jwt.encode settings.app_secret_key (access_payload now jti user_id tenant_id role),
    settings.access_token_ttl_minutes * 60,
  )

  decode_payload : Option Payload → Result TokenError AccessClaims
  unfolding claims_of role_of
  decode_payload none = err invalid_token
  decode_payload (some p) =
      if not (same p.kind "access")
      then err unexpected_token_type
      else claims_of (uuid.parse p.sub) (uuid.parse p.tenant) (role_of p.role_text)

  unfoldable pub decode_access_token : ℕ → String → Result TokenError AccessClaims
  unfolding decode_payload
  decode_access_token now token =
      decode_payload (jwt.decode settings.app_secret_key settings.jwt_issuer now token)

role_of-role_value : (r : RoleName) → role_of (role_value r) ≡ some r
unfolding role_of
role_of-role_value owner = refl
role_of-role_value _ = refl

-- From its creation until it expires an access token gives back the claims that it was made with.
pub decode_access_token-create :
    (uuid : UuidText) (jwt : Jwt) (settings : Settings) (made now : ℕ) (jti : String)
    (user_id tenant_id : ℕ) (role : RoleName)
    → ltb now made ≡ false
    → ltb now (made + settings.access_token_ttl_minutes * 60) ≡ true
    → decode_access_token uuid jwt settings now
        (create_access_token uuid jwt settings made jti user_id tenant_id role).0
      ≡ ok (record { user_id = user_id; tenant_id = tenant_id; role = role })
unfolding decode_access_token create_access_token
decode_access_token-create uuid jwt settings made now jti user_id tenant_id role h k =
    rw
      (jwt.decode-encode settings.app_secret_key
        (access_payload uuid jwt settings made jti user_id tenant_id role) now k h)
      (rw (uuid.parse-show user_id, uuid.parse-show tenant_id, role_of-role_value role))
