-- ===== src/Identity/Service/Calls.antt =====
-- Sequences of calls of IdentityService, and what each call does to the table of sessions:
-- modules/identity/service.py.
use mail_control.Base.{
  ℕ, ◌≡◌, String, List, [], ◌∷◌, arith, update_first, find_first, Bool, true, ◌++◌, some, all,
  Option-cases, inl, inr,
}
use mail_control.Base.Exec.{Result-cases}
use mail_control.Identity.Models.{RefreshSession, User}
use mail_control.Identity.Tokens.{Settings, refresh_token_tenant}
use mail_control.Identity.Database.{
  Database, Surroundings, Library, LoginRequest, RegisterTenantRequest, revoke, refresh_session,
  with_token, user_by_id,
}
use mail_control.Identity.Service.{
  login, login_external, reset_password, rotate_refresh_token, logout, register, new_session,
  open_workspace, first_owner,
}

pub data Call : Type 0 where
  call_register : RegisterTenantRequest → Surroundings → Call
  call_login : LoginRequest → Surroundings → Call
  call_login_external : String → String → Surroundings → Call
  call_reset_password : String → String → String → Call
  call_rotate : String → Surroundings → Call
  call_logout : String → ℕ → Call

-- The time at which a call signs somebody in, if it does.
abbrev pub signed_in_at : Call → List ℕ
signed_in_at (call_register form env) = env.issued_at ∷ []
signed_in_at (call_login form env) = env.issued_at ∷ []
signed_in_at (call_login_external slug email env) = env.issued_at ∷ []
signed_in_at (call_reset_password slug email password) = []
signed_in_at (call_rotate token env) = []
signed_in_at (call_logout token now) = []

module _ (lib : Library) (settings : Settings) where
  -- The database after one call of the service.
  pub serve : Call → Database → Database
  serve (call_register form env) db = (register lib settings form env db).1
  serve (call_login form env) db = (login lib settings form env db).1
  serve (call_login_external slug email env) db = (login_external lib settings slug email env db).1
  serve (call_reset_password slug email password) db =
      (reset_password lib settings slug email password db).1
  serve (call_rotate token env) db = (rotate_refresh_token lib settings token env db).1
  serve (call_logout token now) db = logout lib settings token now db

  pub serve_all : List Call → Database → Database
  serve_all [] db = db
  serve_all (c ∷ cs) db = serve_all cs (serve c db)

  -- A property of the sessions that holds on through new sessions with a start that is allowed, and
  -- through revocations; the sessions that are there have allowed starts.
  pub record IsLasting (holds : List RefreshSession → Bool) (starts : ℕ → Bool) : Type 0 where
    pub added :
        (user : User) (env : Surroundings) (t : ℕ) (xs : List RefreshSession)
        → holds xs ≡ true
        → starts t ≡ true
        → holds (xs ++ new_session lib settings user env t ∷ []) ≡ true
    pub revoked :
        (p : RefreshSession → Bool) (t : ℕ) (xs : List RefreshSession)
        → holds xs ≡ true
        → holds (update_first p (revoke t) xs) ≡ true
    pub started :
        (p : RefreshSession → Bool) (xs : List RefreshSession) (s : RefreshSession)
        → holds xs ≡ true
        → find_first p xs ≡ some s
        → starts s.created_at ≡ true

  module _ (holds : List RefreshSession → Bool) (starts : ℕ → Bool)
      (k : IsLasting holds starts) where
    login_lasts :
        (form : LoginRequest) (env : Surroundings) (db : Database)
        → starts env.issued_at ≡ true
        → holds db.sessions ≡ true
        → holds (login lib settings form env db).1.sessions ≡ true
    unfolding login
    login_lasts form env db s h = grind (arith, s, h, k.added)

    external_lasts :
        (slug email : String) (env : Surroundings) (db : Database)
        → starts env.issued_at ≡ true
        → holds db.sessions ≡ true
        → holds (login_external lib settings slug email env db).1.sessions ≡ true
    unfolding login_external
    external_lasts slug email env db s h = grind (arith, s, h, k.added)

    reset_lasts :
        (slug email password : String) (db : Database)
        → holds db.sessions ≡ true
        → holds (reset_password lib settings slug email password db).1.sessions ≡ true
    unfolding reset_password
    reset_lasts slug email password db h = ground (arith, h)

    logout_lasts :
        (token : String) (now : ℕ) (db : Database)
        → holds db.sessions ≡ true
        → holds (logout lib settings token now db).sessions ≡ true
    unfolding logout
    logout_lasts token now db h = grind (arith, h, k.revoked)

    open_workspace_lasts :
        (form : RegisterTenantRequest) (env : Surroundings) (db : Database)
        → starts env.issued_at ≡ true
        → holds db.sessions ≡ true
        → holds (open_workspace lib settings form env db).1.sessions ≡ true
    unfolding open_workspace
    open_workspace_lasts form env db s h = ground (
      arith,
      h,
      k.added (first_owner lib settings form db.next_id) env env.issued_at db.sessions h s,
    )

    register_lasts :
        (form : RegisterTenantRequest) (env : Surroundings) (db : Database)
        → starts env.issued_at ≡ true
        → holds db.sessions ≡ true
        → holds (register lib settings form env db).1.sessions ≡ true
    unfolding register
    register_lasts form env db s h = ground (arith, h, open_workspace_lasts form env db s h)

    rotate_lasts :
        (token : String) (env : Surroundings) (db : Database)
        → holds db.sessions ≡ true
        → holds (rotate_refresh_token lib settings token env db).1.sessions ≡ true
    unfolding rotate_refresh_token
    rotate_lasts token env db h = elim (Result-cases (refresh_token_tenant lib.uuid token)) [
      | inr (e, p) ↦ ground (arith, h, p)
      | inl (t, p) ↦ elim (Option-cases (refresh_session t (lib.sha256_hex token) db)) [
        | inl missing ↦ ground (arith, h, p, missing)
        | inr (s, f) ↦
            let q = with_token t (lib.sha256_hex token) in
            let from = k.started q db.sessions s h f in
            let gone = k.revoked q env.checked_at db.sessions h in
            elim (Option-cases (user_by_id s.tenant_id s.user_id db)) [
              | inl missing ↦ ground (arith, h, p, f, missing)
              | inr (u, o) ↦ ground (
                arith,
                h,
                p,
                f,
                o,
                k.added u env s.created_at (update_first q (revoke env.checked_at) db.sessions) gone
                    from,
              )
            ]
      ]
    ]

    serve_lasts :
        (c : Call) (db : Database)
        → all starts (signed_in_at c) ≡ true
        → holds db.sessions ≡ true
        → holds (serve c db).sessions ≡ true
    unfolding serve
    serve_lasts (call_register form env) db s h = register_lasts form env db (ground (arith, s)) h
    serve_lasts (call_login form env) db s h = login_lasts form env db (ground (arith, s)) h
    serve_lasts (call_login_external slug email env) db s h =
        external_lasts slug email env db (ground (arith, s)) h
    serve_lasts (call_reset_password slug email password) db s h =
        reset_lasts slug email password db h
    serve_lasts (call_rotate token env) db s h = rotate_lasts token env db h
    serve_lasts (call_logout token now) db s h = logout_lasts token now db h

    pub serve_all_lasts :
        (cs : List Call) (db : Database)
        → all (λ c. all starts (signed_in_at c)) cs ≡ true
        → holds db.sessions ≡ true
        → holds (serve_all cs db).sessions ≡ true
    unfolding serve_all
    serve_all_lasts [] db s h = h
    serve_all_lasts (c ∷ cs) db s h =
        serve_all_lasts cs (serve c db) (ground (arith, s)) (serve_lasts c db (ground (arith, s)) h)
