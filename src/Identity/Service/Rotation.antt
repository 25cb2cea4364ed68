-- ===== src/Identity/Service/Rotation.antt =====
-- A refresh token is used once: modules/identity/service.py.
use mail_control.Base.{
  ℕ, ◌≡◌, String, Bool, Option, none, all, find_first, true, false, some, List, [], ◌∷◌, ◌++◌,
  arith, refl, inl, inr, Option-cases, update_first, find_first-update_first, find_first-append,
  find_first_passes, is_some,
}
use mail_control.Base.Exec.{ok, err, is_ok, Result-cases}
use mail_control.Identity.Models.{RefreshSession, Tenant, User}
use mail_control.Identity.Tokens.{Settings, refresh_token_tenant}
use mail_control.Identity.Database.{
  Database, Surroundings, Library, authentication_error, with_token, revoke, refresh_session,
  user_by_id, is_dead,
}
use mail_control.Identity.Service.{rotate_refresh_token, new_session}
use mail_control.Identity.Service.Calls.{
  Call, call_register, call_login, call_login_external, call_reset_password, call_rotate,
  call_logout, signed_in_at, serve_all, IsLasting, serve_all_lasts,
}

abbrev is_spent : Option RefreshSession → Bool
is_spent none = false
is_spent (some s) = is_some s.revoked_at

module _ (lib : Library) (settings : Settings) (token : String) where
  -- What a rotation that succeeds has found, and what it has done.
  pub record IsRotation (env : Surroundings) (db db' : Database) : Type 0 where
    pub tenant_id : ℕ
    pub session : RefreshSession
    pub user : User
    pub names_tenant : refresh_token_tenant lib.uuid token ≡ ok tenant_id
    pub found : refresh_session tenant_id (lib.sha256_hex token) db ≡ some session
    pub live : is_dead settings env.checked_at session ≡ false
    pub owned : user_by_id session.tenant_id session.user_id db ≡ some user
    pub enabled : user.is_active ≡ true
    pub revoked :
        db'.sessions
        ≡ update_first
            (with_token tenant_id (lib.sha256_hex token))
            (revoke env.checked_at)
            db.sessions
          ++ new_session lib settings user env session.created_at ∷ []

  -- A rotation that succeeds found a live session of the tenant that the token names, and its
  -- active user; it has revoked that session and added one that began when the first did.
  rotate-IsRotation :
      (env : Surroundings) (db : Database)
      → is_ok (rotate_refresh_token lib settings token env db).0 ≡ true
      → IsRotation env db (rotate_refresh_token lib settings token env db).1
  unfolding rotate_refresh_token
  rotate-IsRotation env db h = elim (Result-cases (refresh_token_tenant lib.uuid token)) [
    | inr (e, p) ↦ ground arith
    | inl (t, p) ↦ elim (Option-cases (refresh_session t (lib.sha256_hex token) db)) [
      | inl missing ↦ ground arith
      | inr (s, f) ↦ elim (Option-cases (user_by_id s.tenant_id s.user_id db)) [
        | inl missing ↦ ground arith
        | inr (u, o) ↦ record {
          tenant_id = t;
          session = s;
          user = u;
          names_tenant = p;
          found = f;
          live = ground arith;
          owned = o;
          enabled = ground arith;
          revoked = ground arith;
        }
      ]
    ]
  ]

  -- The token's own session is found again after the rotation, revoked.
  found_revoked :
      (env : Surroundings) (db db' : Database) (r : IsRotation env db db')
      → refresh_session r.tenant_id (lib.sha256_hex token) db'
        ≡ some (revoke env.checked_at r.session)
  found_revoked env db db' r =
      let p = with_token r.tenant_id (lib.sha256_hex token) in
      rw r.revoked (
        find_first-append p (revoke env.checked_at r.session) _ _ (
          find_first-update_first p (revoke env.checked_at) r.session db.sessions r.found
            (find_first_passes p r.session db.sessions r.found)))

  refused_of_revoked :
      (env : Surroundings) (db : Database) (t : ℕ) (s : RefreshSession)
      → refresh_token_tenant lib.uuid token ≡ ok t
      → refresh_session t (lib.sha256_hex token) db ≡ some s
      → is_some s.revoked_at ≡ true
      → rotate_refresh_token lib settings token env db
        ≡ (err (authentication_error "invalid refresh token"), db)
  unfolding rotate_refresh_token
  refused_of_revoked env db t s p f h = ground arith

  -- The token's row stays revoked, whatever is called.
  spent : ℕ → List RefreshSession → Bool
  spent tenant_id xs = is_spent (find_first (with_token tenant_id (lib.sha256_hex token)) xs)

  found_revoked_again :
      (q p : RefreshSession → Bool) (t : ℕ) (xs : List RefreshSession)
      → ((s : RefreshSession) → q (revoke t s) ≡ q s)
      → is_spent (find_first q xs) ≡ true
      → is_spent (find_first q (update_first p (revoke t) xs)) ≡ true
  found_revoked_again q p t [] keep h = h
  found_revoked_again q p t (x ∷ xs) keep h =
      ground (arith, h, keep x, found_revoked_again q p t xs keep)

  spent-IsLasting : (tenant_id : ℕ) → IsLasting lib settings (spent tenant_id) (λ t. true)
  unfolding spent
  spent-IsLasting tenant_id =
      let q = with_token tenant_id (lib.sha256_hex token) in
      record {
        added = λ user env t xs h s. elim (Option-cases (find_first q xs)) [
          | inl missing ↦ absurd (ground (arith, h, missing))
          | inr (x, f) ↦
              ground
                (arith, h, f, find_first-append q x xs (new_session lib settings user env t ∷ []) f)
        ];
        revoked = λ p t xs h. found_revoked_again q p t xs (λ s. refl) h;
        started = λ p xs s h f. refl;
      }

  any_start : (cs : List Call) → all (λ c. all (λ t. true) (signed_in_at c)) cs ≡ true
  any_start [] = refl
  any_start (call_register form env ∷ cs) = any_start cs
  any_start (call_login form env ∷ cs) = any_start cs
  any_start (call_login_external slug email env ∷ cs) = any_start cs
  any_start (call_reset_password slug email password ∷ cs) = any_start cs
  any_start (call_rotate other env ∷ cs) = any_start cs
  any_start (call_logout other now ∷ cs) = any_start cs

  -- A refresh token that was rotated once is refused ever after: whatever calls the service serves
  -- between, a second rotation raises and changes nothing.
  pub rotate-rotate :
      (env env' : Surroundings) (cs : List Call) (db : Database)
      → is_ok (rotate_refresh_token lib settings token env db).0 ≡ true
      → let db' = serve_all lib settings cs (rotate_refresh_token lib settings token env db).1 in
        rotate_refresh_token lib settings token env' db'
        ≡ (err (authentication_error "invalid refresh token"), db')
  unfolding spent
  rotate-rotate env env' cs db h =
      let db1 = (rotate_refresh_token lib settings token env db).1 in
      let db' = serve_all lib settings cs db1 in
      let r = rotate-IsRotation env db h in
      let before : spent r.tenant_id db1.sessions ≡ true = rw (found_revoked env db db1 r) refl in
      let after =
        serve_all_lasts lib settings (spent r.tenant_id) (λ t. true) (spent-IsLasting r.tenant_id)
          cs db1 (any_start cs) before in
      elim (Option-cases (refresh_session r.tenant_id (lib.sha256_hex token) db')) [
        | inl missing ↦ absurd (ground (arith, after, missing))
        | inr (s, f) ↦
            refused_of_revoked env' db' r.tenant_id s r.names_tenant f (ground (arith, after, f))
      ]

  -- The check of a rotation reads no tenant: the answer is the same when every
  -- workspace is suspended.
  pub rotate_ignores_tenants :
      (env : Surroundings) (db : Database) (ts : List Tenant)
      → (rotate_refresh_token lib settings token env (record db { tenants = ts })).0
        ≡ (rotate_refresh_token lib settings token env db).0
  unfolding rotate_refresh_token
  rotate_ignores_tenants env db ts = ground arith
