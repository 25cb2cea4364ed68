-- ===== src/Mail/Gmail/Synchronize.antt =====
-- `GmailSyncService.synchronize` of modules/mail/sync.py: the run, its status and the account's.
pub mod Tables
pub mod Outcome
pub mod Ends
use mail_control.Base.{
  ℕ, String, Bool, true, false, not, Option, none, some, if◌then◌else◌, truthy_opt, clip,
}
use mail_control.Base.Exec.{Result, ok, err, pure, raise, modify, ◌>>=◌, ◌>>◌, try_except}
use mail_control.Mail.Account.{
  MailProvider, gmail, microsoft, MailAccount, AccountStatus, Values, no_values, ProviderError,
  Store, connected, syncing, error, reauth_required, update_account_state, flush, error_text,
}
use mail_control.Mail.Messages.{MailDb}
use mail_control.Mail.Gmail.Client.{
  FaultKind, history_expired, message_not_found, reauth, transient, superseded, other_fault, Fault,
  Env, SyncKind, initial, incremental, SyncStatus, running, succeeded, failed, SyncRun, SyncError,
  fault, authorization_changed, transient_error, runtime_error, out_of_fuel, SyncState, Sync,
}
use mail_control.Mail.Gmail.Sync.{full_sync, replay_history, commit, is_expired, set_history_cursor}

-- What a call begins with: the tables and the account as the session has loaded it.
pub record SyncInput : Type 0 where
  pub db : MailDb
  pub store : Store
  pub started_at : ℕ
  pub calls : ℕ

abbrev pub kind_of : MailAccount → SyncKind
kind_of account = if truthy_opt account.history_cursor then incremental else initial

abbrev pub new_run : MailAccount → SyncKind → ℕ → SyncRun
new_run account kind now = record {
  tenant_id = account.tenant_id;
  mail_account_id = account.id;
  kind = kind;
  status = running;
  started_at = now;
  finished_at = none;
  messages_seen = 0;
  messages_created = 0;
  messages_updated = 0;
  error = none;
}

abbrev pub status_values : AccountStatus → Values
status_values status = record no_values { new_status = some status }

-- The UPDATE of a run that succeeded.
abbrev pub success_values : ℕ → Option String → Values
success_values now history_cursor = record no_values {
  new_status = some connected;
  new_last_error = some none;
  new_last_synced_at = some (some now);
  new_history_cursor = some history_cursor;
}

abbrev is_reauth_kind : FaultKind → Bool
is_reauth_kind reauth = true
is_reauth_kind _ = false

-- `isinstance(error, GmailReauthRequired)`
abbrev pub is_reauth : SyncError → Bool
is_reauth (fault f) = is_reauth_kind f.kind
is_reauth _ = false

abbrev is_superseded_kind : FaultKind → Bool
is_superseded_kind superseded = true
is_superseded_kind _ = false

-- `isinstance(error, AccountAuthorizationChanged)`
abbrev pub is_authorization_changed : SyncError → Bool
is_authorization_changed (fault f) = is_superseded_kind f.kind
is_authorization_changed (authorization_changed message) = true
is_authorization_changed _ = false

-- `str(error)` and the grant that the error is tagged with.
abbrev pub provider_error : SyncError → ProviderError
provider_error (fault f) = f.error
provider_error (authorization_changed message) = record { message = message; expected_grant = none }
provider_error (transient_error message) = record { message = message; expected_grant = none }
provider_error (runtime_error message) = record { message = message; expected_grant = none }
provider_error out_of_fuel = record { message = String.[]; expected_grant = none }

abbrev pub failure_values : SyncError → Values
failure_values e = record no_values {
  new_status = some (if is_reauth e then reauth_required else error);
  new_last_error = some (some (error_text (provider_error e).message));
}

abbrev pub not_gmail : MailProvider → Bool
not_gmail gmail = false
not_gmail microsoft = true

module _ (env : Env) (fuel : ℕ) where
  incremental_from : Option String → Sync String
  incremental_from none = replay_history env fuel String.[] none
  incremental_from (some cursor) = replay_history env fuel cursor none

  -- `_incremental_sync`; its assertion holds, since the kind is incremental.
  pub incremental_sync : Sync (Unit {0})
  unfolding incremental_from
  incremental_sync s =
      let (r, s') = incremental_from s.store.object.history_cursor s in
      elim r [ err e ↦ (err e, s') | ok cursor ↦ (ok tt, set_history_cursor cursor s') ]

  fall_back : SyncError → Sync (Unit {0})
  fall_back e s =
      if is_expired e
      then full_sync env fuel (record s { run = record s.run { kind = initial } })
      else (err e, s)

  pub import_or_replay : SyncKind → Sync (Unit {0})
  unfolding fall_back
  import_or_replay initial = full_sync env fuel
  import_or_replay incremental = try_except incremental_sync fall_back

module _ (env : Env) where
  -- The end of the `try` block.
  pub complete : Sync (Unit {0})
  complete s =
      let (store, applied) =
        update_account_state s.store
          (success_values (env.clock s.calls) s.store.object.history_cursor) none in
      let s' = record s { run = record s.run { status = succeeded }; store = store } in
      if applied
      then (ok tt, s')
      else (err (authorization_changed "Account changed during synchronization"), s')

  -- `except Exception as error`
  pub on_failure : SyncError → Sync (Unit {0})
  on_failure e s =
      let run = record s.run {
        status = failed;
        error = some (error_text (provider_error e).message);
      } in
      let (store, applied) =
        update_account_state s.store (failure_values e) (some (provider_error e)) in
      if is_authorization_changed e then (err e, record s { run = run }) else (
        err (if applied then e else authorization_changed "Account authorization changed"),
        record s { run = run; store = store },
      )

  -- `finally`
  unfoldable pub conclude : SyncState → SyncState
  conclude s =
      commit env (record s { run = record s.run { finished_at = some (env.clock s.calls) } })

unfoldable pub begun : SyncInput → SyncKind → Store → SyncState
begun i kind store = record {
  db = i.db;
  store = store;
  run = new_run i.store.object kind i.started_at;
  calls = i.calls;
}

module _ (env : Env) (fuel : ℕ) where
  pub attempt : SyncKind → SyncState → Result SyncError (Unit {0}) × SyncState
  attempt kind = try_except (import_or_replay env fuel kind >> complete env) (on_failure env)

  -- Before the `try` block nothing is caught; an error rolls the transaction back.
  unfoldable pub synchronize : SyncInput → Result SyncError SyncRun × SyncState
  unfolding attempt conclude begun
  synchronize i =
      let kind = kind_of i.store.object in
      let s = begun i kind i.store in
      let (store, applied) = update_account_state i.store (status_values syncing) none in
      if not_gmail i.store.object.provider
      then (err (runtime_error "Gmail synchronization requires a Gmail account"), s)
      else if not applied
      then (err (authorization_changed "Account changed before synchronization"), s)
      else let (r, s') = attempt kind (begun i kind (flush store)) in
        let s'' = conclude env s' in (elim r [ ok u ↦ ok s''.run | err e ↦ err e ], s'')
