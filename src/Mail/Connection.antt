-- ===== src/Mail/Connection.antt =====
-- Connecting an account: `MailAccountService` of modules/mail/service.py. A table's row stands with
-- the two columns that no other part reads.
pub mod Rows
pub mod Written
pub mod Consents
use mail_control.Base.{
  ℕ, ◌+◌, String, Bool, true, false, ◌&&◌, Option, none, some, List, [], ◌∷◌, ◌++◌, ◌==◌, same,
  if◌then◌else◌, truthy_opt, or_else, find_first, update_first,
}
use mail_control.Base.Exec.{Result, ok, err}
use mail_control.Identity.Models.{TextOps}
use mail_control.Mail.Account.{MailProvider, gmail, microsoft, MailAccount, connected}
use mail_control.System.Redis.{same_provider}

-- `CredentialCipher`. Fernet takes a new random vector for each text: `encrypt n` is the n-th call of
-- a method. `decrypt` is `none` when it raises. A ciphertext is never empty.
pub record Fernet : Type 0 where
  pub encrypt : ℕ → String → String
  pub decrypt : String → Option String

pub record AccountRow : Type 0 where
  pub connected_by_user_id : ℕ
  pub provider_account_id : String
  pub account : MailAccount

pub record AccountDb : Type 0 where
  pub accounts : List AccountRow
  pub next_id : ℕ

-- The columns of the unique constraint.
pub record AccountKey : Type 0 where
  pub tenant_id : ℕ
  pub provider_account_id : String
  pub provider : MailProvider

-- The WHERE clause of `account_by_provider_id`.
abbrev pub has_key : AccountKey → AccountRow → Bool
has_key k r =
    r.account.tenant_id == k.tenant_id
    && same r.provider_account_id k.provider_account_id
    && same_provider r.account.provider k.provider

-- `GoogleTokens` and `MicrosoftTokens`, after a consent.
pub record ConsentTokens : Type 0 where
  pub access_token : String
  pub refresh_token : Option String
  pub expires_at : ℕ
  pub scopes : List String

pub record MicrosoftProfile : Type 0 where
  pub id : String
  pub mail : Option String
  pub user_principal_name : String

pub data ConnectError : Type 0 where
  value_error : String → ConnectError

-- What a consent writes beside the grant.
pub record Grant : Type 0 where
  pub sealed_access_token : Option String
  pub expires_at : Option ℕ
  pub scopes : List String

-- `password.replace(" ", "")`
abbrev pub without_spaces : String → String
without_spaces String.[] = String.[]
without_spaces (String.◌∷◌ c s) =
    let rest = without_spaces s in
    if same (String.◌∷◌ c String.[]) " " then rest else String.◌∷◌ c rest

-- The arguments of the three methods.
pub data Consent : Type 0 where
  google : ℕ → ℕ → String → ConsentTokens → Consent
  imap : ℕ → ℕ → String → String → Consent
  graph : ℕ → ℕ → MicrosoftProfile → ConsentTokens → Consent

module _ (ops : TextOps) (cipher : Fernet) (now : ℕ) where
  -- `self.cipher.encrypt(token) if token else None`
  abbrev pub sealed : Option String → Option String
  sealed token =
      if truthy_opt token then some (cipher.encrypt 0 (or_else token String.[])) else none

  -- `encrypted_refresh_token or self.cipher.encrypt(self.cipher.decrypt(old))`
  unfoldable pub renewed_grant : Option String → String → Result ConnectError String
  renewed_grant (some grant) old = ok grant
  renewed_grant none old = elim (cipher.decrypt old) [
    | none ↦ err (value_error "credential cannot be decrypted")
    | some secret ↦ ok (cipher.encrypt 0 secret)
  ]

  abbrev pub key_of : Consent → AccountKey
  key_of (google tenant user address tokens) = record {
    tenant_id = tenant;
    provider_account_id = ops.casefold address;
    provider = gmail;
  }
  key_of (imap tenant user address password) = record {
    tenant_id = tenant;
    provider_account_id = ops.casefold (ops.strip address);
    provider = gmail;
  }
  key_of (graph tenant user profile tokens) = record {
    tenant_id = tenant;
    provider_account_id = profile.id;
    provider = microsoft;
  }

  -- `MailAccount(…)`
  abbrev pub new_row : AccountKey → ℕ → String → String → Grant → ℕ → AccountRow
  new_row k user email grant g id = record {
    connected_by_user_id = user;
    provider_account_id = k.provider_account_id;
    account = record {
      id = id;
      tenant_id = k.tenant_id;
      provider = k.provider;
      email = email;
      granted_scopes = g.scopes;
      created_at = now;
      auth = record {
        encrypted_refresh_token = grant;
        encrypted_access_token = g.sealed_access_token;
        access_token_expires_at = g.expires_at;
        status = connected;
        last_error = none;
        last_synced_at = none;
        history_cursor = none;
      };
    };
  }

  -- The assignments to an account that is there.
  abbrev pub renewed_row : String → Option String → String → Grant → AccountRow → AccountRow
  renewed_row email history_cursor grant g r = record r {
    account = record r.account {
      email = email;
      granted_scopes = g.scopes;
      auth = record r.account.auth {
        encrypted_refresh_token = grant;
        encrypted_access_token = g.sealed_access_token;
        access_token_expires_at = g.expires_at;
        status = connected;
        last_error = none;
        history_cursor = history_cursor;
      };
    };
  }

  add_row :
      String
      → AccountKey
      → ℕ
      → String
      → Option String
      → Grant
      → AccountDb
      → Result ConnectError AccountRow × AccountDb
  add_row missing k user email none g db = (err (value_error missing), db)
  add_row missing k user email (some grant) g db =
      let row = new_row k user email grant g db.next_id in
      (ok row, record { accounts = db.accounts ++ row ∷ []; next_id = db.next_id + 1 })

  -- The old row is `r`; its other columns are kept.
  write_row :
      AccountKey
      → (String → AccountRow)
      → Result ConnectError String
      → AccountDb
      → Result ConnectError AccountRow × AccountDb
  write_row k row (err e) db = (err e, db)
  write_row k row (ok grant) db = (
    ok (row grant),
    record db { accounts = update_first (has_key k) (λ old. row grant) db.accounts },
  )

  abbrev pub token_grant : ConsentTokens → Grant
  token_grant tokens = record {
    sealed_access_token = some (cipher.encrypt 1 tokens.access_token);
    expires_at = some tokens.expires_at;
    scopes = tokens.scopes;
  }

  abbrev imap_grant : Grant
  imap_grant = record { sealed_access_token = none; expires_at = none; scopes = "imap" ∷ [] }

  abbrev microsoft_email : MicrosoftProfile → String
  microsoft_email p =
      ops.casefold (if truthy_opt p.mail then or_else p.mail String.[] else p.user_principal_name)

  -- `connect_gmail`, `connect_gmail_imap` and `connect_microsoft`, after the query.
  pub on_account :
      Consent → Option AccountRow → AccountDb → Result ConnectError AccountRow × AccountDb
  unfolding renewed_grant add_row write_row
  on_account (google tenant user address tokens) none db =
      let k = key_of (google tenant user address tokens) in
      add_row "Google did not return a refresh token" k user k.provider_account_id
        (sealed tokens.refresh_token) (token_grant tokens) db
  on_account (google tenant user address tokens) (some r) db =
      write_row (key_of (google tenant user address tokens))
        (λ grant. renewed_row r.account.email r.account.history_cursor grant (token_grant tokens) r)
        (renewed_grant (sealed tokens.refresh_token) r.account.encrypted_refresh_token) db
  on_account (imap tenant user address password) none db =
      let k = key_of (imap tenant user address password) in
      add_row String.[] k user k.provider_account_id
        (some (cipher.encrypt 0 (without_spaces password))) imap_grant db
  on_account (imap tenant user address password) (some r) db =
      write_row (key_of (imap tenant user address password))
        (λ grant. renewed_row r.account.email none grant imap_grant r)
        (ok (cipher.encrypt 0 (without_spaces password))) db
  on_account (graph tenant user profile tokens) none db =
      add_row "Microsoft did not return a refresh token" (key_of (graph tenant user profile tokens))
        user (microsoft_email profile) (sealed tokens.refresh_token) (token_grant tokens) db
  on_account (graph tenant user profile tokens) (some r) db =
      write_row (key_of (graph tenant user profile tokens))
        (λ grant.
          renewed_row (microsoft_email profile) r.account.history_cursor grant (token_grant tokens)
            r)
        (renewed_grant (sealed tokens.refresh_token) r.account.encrypted_refresh_token) db

  unfoldable pub connect : Consent → AccountDb → Result ConnectError AccountRow × AccountDb
  unfolding on_account
  connect c db = on_account c (find_first (has_key (key_of c)) db.accounts) db

  -- Consents, one after the other.
  unfoldable pub connect_all : List Consent → AccountDb → AccountDb
  unfolding connect
  connect_all [] db = db
  connect_all (c ∷ cs) db = connect_all cs (connect c db).1
