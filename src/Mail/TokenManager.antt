-- ===== src/Mail/TokenManager.antt =====
-- `AccountTokenManager.access_token` of modules/mail/token_manager.py.
pub mod Answer
use mail_control.Base.{
  ℕ, ◌+◌, String, Bool, true, false, ◌&&◌, ◌||◌, not, Option, none, some, if◌then◌else◌, truthy,
  truthy_opt, ltb, same, ◌≡◌,
}
use mail_control.Base.Exec.{Result, ok, err}
use mail_control.Mail.Account.{
  AccountStatus, connected, syncing, error, reauth_required, disconnected, MailAccount, AuthState,
  Values, no_values, Store, Tracked, flush, update_account_if_current,
}

-- `GoogleTokens` and `MicrosoftTokens`.
pub record OAuthTokens : Type 0 where
  pub access_token : String
  pub expires_at : ℕ
  pub refresh_token : Option String

-- `CredentialCipher`: `decrypt` is `none` when it raises.
pub record Cipher : Type 0 where
  pub encrypt : String → String
  pub decrypt : String → Option String
  pub decrypt-encrypt : (s : String) → decrypt (encrypt s) ≡ some s

-- Why a refresh failed: the grant could not be decrypted, or the provider's call raised.
pub data RefreshError (E : Type 0) : Type 0 where
  undecryptable : RefreshError E
  raised : E → RefreshError E

-- What `access_token` raises; `refresh_failed` is tagged with the grant that was used.
pub data TokenFault (E : Type 0) : Type 0 where
  busy : TokenFault E
  unavailable : String → TokenFault E
  bad_credential : TokenFault E
  refresh_failed : RefreshError E → String → TokenFault E
  superseded : TokenFault E

-- `session.refresh` of four attributes, after the flush that it begins with.
abbrev pub reload : Store → Store
reload s =
    let r = s.row.auth in
    let take : AuthState → AuthState = λ a. record a {
      encrypted_access_token = r.encrypted_access_token;
      encrypted_refresh_token = r.encrypted_refresh_token;
      access_token_expires_at = r.access_token_expires_at;
      status = r.status;
    } in
    record s {
      tracked = record {
        object = record s.object { auth = take s.object.auth };
        loaded = take s.loaded;
      };
    }

abbrev pub is_unavailable : AccountStatus → Bool
is_unavailable disconnected = true
is_unavailable reauth_required = true
is_unavailable _ = false

-- `expires is not None and expires > now + 2 minutes`
abbrev pub is_fresh : ℕ → Option ℕ → Bool
is_fresh now none = false
is_fresh now (some t) = ltb (now + 120) t

-- `rejected_token is None or current != rejected_token`
abbrev pub is_accepted : Option String → String → Bool
is_accepted none current = true
is_accepted (some rejected) current = not (same current rejected)

-- `world` is what other transactions do to the row while the provider is asked for new tokens.
module _ {E : Type 0} (cipher : Cipher) (provider : String → Result E OAuthTokens)
    (world : MailAccount → MailAccount) (now : ℕ) where
  abbrev pub token_values : OAuthTokens → Values
  token_values tokens = record no_values {
    new_access_token = some (some (cipher.encrypt tokens.access_token));
    new_expires_at = some (some tokens.expires_at);
    new_refresh_token = rotated tokens.refresh_token;
  }
    where
      rotated : Option String → Option String
      rotated none = none
      rotated (some token) = if truthy token then some (cipher.encrypt token) else none

  -- The conditional write and the commit.
  publish : String → OAuthTokens → Store → Result (TokenFault E) String × Store
  publish grant tokens s =
      let (s', applied) = update_account_if_current s grant (token_values tokens) in
      if applied then (ok tokens.access_token, flush s') else (err superseded, s')

  on_tokens : String → Result E OAuthTokens → Store → Result (TokenFault E) String × Store
  unfolding publish
  on_tokens grant (err e) s = (err (refresh_failed (raised e) grant), s)
  on_tokens grant (ok tokens) s = publish grant tokens s

  exchange : String → Option String → Store → Result (TokenFault E) String × Store
  unfolding on_tokens
  exchange grant none s = (err (refresh_failed undecryptable grant), s)
  exchange grant (some plain) s = on_tokens grant (provider plain) (record s { row = world s.row })

  -- `current`, the decrypted access token, or None.
  current_token : Option String → Result (TokenFault E) (Option String)
  current_token none = ok none
  current_token (some stored) =
      if truthy stored
      then elim (cipher.decrypt stored) [ none ↦ err bad_credential | some t ↦ ok (some t) ]
      else ok none

  abbrev is_usable : Option String → Option ℕ → Option String → Bool
  is_usable rejected expires none = false
  is_usable rejected expires (some current) =
      truthy current && is_fresh now expires && is_accepted rejected current

  from_current :
      Option String
      → Result (TokenFault E) (Option String)
      → Store
      → Result (TokenFault E) String × Store
  unfolding exchange
  from_current rejected (err e) s = (err e, s)
  from_current rejected (ok none) s =
      exchange s.object.encrypted_refresh_token (cipher.decrypt s.object.encrypted_refresh_token) s
  from_current rejected (ok (some current)) s =
      if is_usable rejected s.object.access_token_expires_at (some current)
      then (ok current, s)
      else exchange s.object.encrypted_refresh_token
          (cipher.decrypt s.object.encrypted_refresh_token) s

  -- The part under the shared lock.
  locked : Option String → Store → Result (TokenFault E) String × Store
  unfolding from_current current_token
  locked rejected s =
      if is_unavailable s.object.status
      then (err (unavailable "Reconnect or resume this mail account"), s)
      else if not (truthy s.object.encrypted_refresh_token)
      then (err (unavailable "The account has no refresh grant"), s)
      else from_current rejected (current_token s.object.encrypted_access_token) s

  -- `acquired` is what the lock answers within its 30 seconds.
  unfoldable pub access_token : Bool → Option String → Store → Result (TokenFault E) String × Store
  unfolding locked
  access_token acquired rejected s =
      if acquired then locked rejected (reload (flush s)) else (err busy, s)

-- What a client's callback for a rejected token meets: the arguments of `access_token`.
pub record Renewal (E : Type 0) : Type 0 where
  pub cipher : Cipher
  pub provider : String → Result E OAuthTokens
  pub world : MailAccount → MailAccount
  pub now : ℕ
  pub acquired : Bool
  pub rejected : String

-- The session's account after a request during which the client may have called its callback.
pub renew : {E : Type 0} → Option (Renewal E) → Store → Store
unfolding access_token
renew none s = s
renew (some r) s = (access_token r.cipher r.provider r.world r.now r.acquired (some r.rejected) s).1
