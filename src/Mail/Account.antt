-- ===== src/Mail/Account.antt =====
-- The connected account (modules/mail/models.py) and its conditional writes
-- (modules/mail/auth_state.py). Ids and times (seconds) are numbers; grants are texts.
pub mod Fence
use mail_control.Base.{
  ℕ, String, Bool, true, false, ◌&&◌, Option, none, some, List, ◌==◌, same, if◌then◌else◌, or_else,
  same_opt, clip,
}

pub data MailProvider : Type 0 where
  gmail microsoft : MailProvider

pub data AccountStatus : Type 0 where
  connected syncing error reauth_required disconnected : AccountStatus

abbrev status_code : AccountStatus → ℕ
status_code connected = 0
status_code syncing = 1
status_code error = 2
status_code reauth_required = 3
status_code disconnected = 4

abbrev pub same_status : AccountStatus → AccountStatus → Bool
same_status a b = status_code a == status_code b

-- The columns of `AUTH_STATE_FIELDS`, which a conditional write may change.
pub record AuthState : Type 0 where
  pub encrypted_refresh_token : String
  pub encrypted_access_token : Option String
  pub access_token_expires_at : Option ℕ
  pub status : AccountStatus
  pub last_error : Option String
  pub last_synced_at : Option ℕ
  pub history_cursor : Option String

pub record MailAccount : Type 0 where
  pub id : ℕ
  pub tenant_id : ℕ
  pub provider : MailProvider
  pub email : String
  pub granted_scopes : List String
  pub created_at : ℕ
  pub auth : AuthState
  pub open auth use *

-- The dictionary `values` of an UPDATE: `none` is a key that is absent, `some none` sets NULL.
pub record Values : Type 0 where
  pub new_refresh_token : Option String
  pub new_access_token : Option (Option String)
  pub new_expires_at : Option (Option ℕ)
  pub new_status : Option AccountStatus
  pub new_last_error : Option (Option String)
  pub new_last_synced_at : Option (Option ℕ)
  pub new_history_cursor : Option (Option String)

abbrev pub no_values : Values
no_values = record {
  new_refresh_token = none;
  new_access_token = none;
  new_expires_at = none;
  new_status = none;
  new_last_error = none;
  new_last_synced_at = none;
  new_history_cursor = none;
}

-- `.values(**values)`, and the loop of `set_committed_value`.
abbrev pub assign : Values → AuthState → AuthState
assign v a = record {
  encrypted_refresh_token = or_else v.new_refresh_token a.encrypted_refresh_token;
  encrypted_access_token = or_else v.new_access_token a.encrypted_access_token;
  access_token_expires_at = or_else v.new_expires_at a.access_token_expires_at;
  status = or_else v.new_status a.status;
  last_error = or_else v.new_last_error a.last_error;
  last_synced_at = or_else v.new_last_synced_at a.last_synced_at;
  history_cursor = or_else v.new_history_cursor a.history_cursor;
}

-- The ORM session's view of one account: its attributes now, and as last loaded or flushed.
pub record Tracked : Type 0 where
  pub object : MailAccount
  pub loaded : AuthState

-- What a transaction sees of one account: the row of the table (no code deletes one), and the
-- tracked object.
pub record Store : Type 0 where
  pub row : MailAccount
  pub tracked : Tracked
  pub open tracked use *

-- `allowed`, with REAUTH_REQUIRED only for a write of that status.
abbrev pub writes_reauth : Option AccountStatus → Bool
writes_reauth (some reauth_required) = true
writes_reauth _ = false

abbrev pub allowed : AccountStatus → Values → Bool
allowed connected v = true
allowed syncing v = true
allowed error v = true
allowed reauth_required v = writes_reauth v.new_status
allowed disconnected v = false

-- The WHERE clause of the conditional UPDATE.
abbrev pub is_current : MailAccount → String → Values → MailAccount → Bool
is_current account expected_grant v r =
    r.id == account.id
    && r.tenant_id == account.tenant_id
    && same r.encrypted_refresh_token expected_grant
    && allowed r.status v

-- `set_committed_value` on every dirty field.
abbrev pub reset_dirty : Tracked → Tracked
reset_dirty t = record t { object = record t.object { auth = t.loaded } }

-- `session.refresh(account, AUTH_STATE_FIELDS)`
abbrev pub refresh : MailAccount → Tracked → Tracked
refresh r t = record { object = record t.object { auth = r.auth }; loaded = r.auth }

conditional_update : MailAccount → Tracked → String → Values → Store × Bool
conditional_update r t expected_grant v =
    if is_current t.object expected_grant v r
    then (
      record {
        row = record r { auth = assign v r.auth };
        tracked = record {
          object = record t.object { auth = assign v t.object.auth };
          loaded = assign v t.object.auth;
        };
      },
      true,
    )
    else (record { row = r; tracked = refresh r t }, false)

unfoldable pub update_account_if_current : Store → String → Values → Store × Bool
unfolding conditional_update
update_account_if_current s expected_grant v =
    conditional_update s.row (reset_dirty s.tracked) expected_grant v

-- A flush writes the attributes that differ from what was loaded.
abbrev dirty_write : {A : Type 0} → (A → A → Bool) → A → A → A → A
dirty_write equal before now stored = if equal before now then stored else now

unfoldable pub flush : Store → Store
flush s =
    let old = s.loaded in
    let new = s.object.auth in
    let r = s.row.auth in
    record {
      row = record s.row {
        auth = record {
          encrypted_refresh_token =
              dirty_write same old.encrypted_refresh_token new.encrypted_refresh_token
                r.encrypted_refresh_token;
          encrypted_access_token =
              dirty_write (same_opt same) old.encrypted_access_token new.encrypted_access_token
                r.encrypted_access_token;
          access_token_expires_at =
              dirty_write (same_opt ◌==◌) old.access_token_expires_at new.access_token_expires_at
                r.access_token_expires_at;
          status = dirty_write same_status old.status new.status r.status;
          last_error = dirty_write (same_opt same) old.last_error new.last_error r.last_error;
          last_synced_at =
              dirty_write (same_opt ◌==◌) old.last_synced_at new.last_synced_at r.last_synced_at;
          history_cursor =
              dirty_write (same_opt same) old.history_cursor new.history_cursor r.history_cursor;
        };
      };
      tracked = record { object = s.object; loaded = new };
    }

-- `mark_reauth_if_current`; `error` carries the grant that produced it, if it was tagged.
pub record ProviderError : Type 0 where
  pub message : String
  pub expected_grant : Option String

abbrev pub reauth_values : String → Values
reauth_values message = record no_values {
  new_status = some reauth_required;
  new_last_error = some (some message);
  new_access_token = some none;
  new_expires_at = some none;
}

-- `str(error)[:2000]`
abbrev pub error_text : String → String
error_text message = clip 2000 message

unfoldable pub mark_reauth_if_current : Store → ProviderError → Store × Bool
unfolding update_account_if_current
mark_reauth_if_current s e =
    update_account_if_current s (or_else e.expected_grant s.object.encrypted_refresh_token)
      (reauth_values (error_text e.message))

-- `MailRepository.update_account_state`.
unfoldable pub update_account_state : Store → Values → Option ProviderError → Store × Bool
unfolding update_account_if_current
update_account_state s v none = update_account_if_current s s.object.encrypted_refresh_token v
update_account_state s v (some e) =
    update_account_if_current s (or_else e.expected_grant s.object.encrypted_refresh_token) v
