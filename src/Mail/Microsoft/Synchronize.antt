-- ===== src/Mail/Microsoft/Synchronize.antt =====
-- `MicrosoftSyncService.synchronize` of modules/mail/microsoft_sync.py: the run, its status and the
-- account's.
pub mod Tables
pub mod Outcome
pub mod Ends
use mail_control.Base.{ℕ, String, Bool, true, false, not, Option, none, some, [], if◌then◌else◌}
use mail_control.Base.Exec.{Result, ok, err, modify, ◌>>=◌, ◌>>◌, try_except}
use mail_control.Mail.Account.{
  MailProvider, gmail, microsoft, AccountStatus, Values, no_values, ProviderError, connected,
  syncing, error, reauth_required, update_account_state, flush, error_text, same_status,
}
use mail_control.Mail.Gmail.Client.{SyncKind, initial, incremental, succeeded, failed, SyncState}
use mail_control.Mail.Gmail.Synchronize.{SyncInput, begun, status_values}
use mail_control.Mail.Microsoft.Graph.{
  FaultKind, transient, reauth, superseded, Fault, Env, SyncError, fault, delta_expired,
  authorization_changed, runtime_error, value_error, out_of_fuel, Sync, folder_mailboxes,
}
use mail_control.Mail.Microsoft.Sync.{all_folders, sync_folders}

-- The UPDATE of a run that succeeded.
abbrev pub success_values : ℕ → Values
success_values now = record no_values {
  new_status = some connected;
  new_last_error = some none;
  new_last_synced_at = some (some now);
}

abbrev is_transient_kind : FaultKind → Bool
is_transient_kind transient = true
is_transient_kind _ = false

-- `except MicrosoftTransientError`
abbrev pub is_transient : SyncError → Bool
is_transient (fault f) = is_transient_kind f.kind
is_transient _ = false

abbrev is_reauth_kind : FaultKind → Bool
is_reauth_kind reauth = true
is_reauth_kind _ = false

-- `isinstance(error, MicrosoftReauthorizationRequired)`
abbrev pub is_reauth : SyncError → Bool
is_reauth (fault f) = is_reauth_kind f.kind
is_reauth _ = false

abbrev is_superseded_kind : FaultKind → Bool
is_superseded_kind superseded = true
is_superseded_kind _ = false

-- `isinstance(error, AccountAuthorizationChanged)`
abbrev pub is_authorization_changed : SyncError → Bool
is_authorization_changed (fault f) = is_superseded_kind f.kind
is_authorization_changed (authorization_changed message) = true
is_authorization_changed _ = false

-- `str(error)` and the grant that the error is tagged with.
abbrev pub provider_error : SyncError → ProviderError
provider_error (fault f) = f.error
provider_error (delta_expired f) = record { message = String.[]; expected_grant = none }
provider_error (authorization_changed message) = record { message = message; expected_grant = none }
provider_error (runtime_error message) = record { message = message; expected_grant = none }
provider_error (value_error message) = record { message = message; expected_grant = none }
provider_error out_of_fuel = record { message = String.[]; expected_grant = none }

-- `previous_status if previous_status is not SYNCING else CONNECTED`
abbrev pub resting : AccountStatus → AccountStatus
resting previous = if same_status previous syncing then connected else previous

-- The status after an error, from the one before the run.
abbrev pub failed_status : AccountStatus → SyncError → AccountStatus
failed_status previous e =
    if is_transient e then resting previous else if is_reauth e then reauth_required else error

abbrev pub failure_values : AccountStatus → SyncError → Values
failure_values previous e = record no_values {
  new_status = some (failed_status previous e);
  new_last_error = some (some (error_text (provider_error e).message));
}

abbrev pub not_microsoft : MailProvider → Bool
not_microsoft microsoft = false
not_microsoft gmail = true

module _ (env : Env) where
  -- The end of the `try` block.
  pub complete : Bool → Sync (Unit {0})
  complete had_cursor s =
      let (store, applied) =
        update_account_state s.store (success_values (env.clock s.calls)) none in
      let run = record s.run {
        kind = if had_cursor then incremental else initial;
        status = succeeded;
      } in
      if applied then (ok tt, record s { run = run; store = store }) else (
        err (authorization_changed "Account changed during synchronization"),
        record s { run = run; store = store },
      )

  -- The two `except` clauses.
  pub on_failure : AccountStatus → SyncError → Sync (Unit {0})
  on_failure previous e s =
      let run = record s.run {
        status = failed;
        error = some (error_text (provider_error e).message);
      } in
      let (store, applied) =
        update_account_state s.store (failure_values previous e) (some (provider_error e)) in
      if is_authorization_changed e then (err e, record s { run = run }) else (
        err (if applied then e else authorization_changed "Account authorization changed"),
        record s { run = run; store = store },
      )

  -- The rest of the `try` block.
  pub body : ℕ → Sync (Unit {0})
  unfolding complete
  body fuel = do
    folders ← all_folders env fuel
    mailboxes ← folder_mailboxes env
    had_cursor ← sync_folders env fuel mailboxes folders false
    complete had_cursor

  pub attempt : ℕ → AccountStatus → Sync (Unit {0})
  unfolding body on_failure
  attempt fuel previous = try_except (body fuel) (on_failure previous)

  -- `finally`; the commit flushes the session.
  unfoldable pub conclude : SyncState → SyncState
  conclude s = record s {
    run = record s.run { finished_at = some (env.clock s.calls) };
    store = flush s.store;
  }

  -- Before the `try` block nothing is caught; an error rolls the transaction back.
  unfoldable pub synchronize : ℕ → SyncInput → Result SyncError (Unit {0}) × SyncState
  unfolding attempt conclude
  synchronize fuel i =
      let s = begun i incremental i.store in
      let (store, applied) = update_account_state i.store (status_values syncing) none in
      if not_microsoft i.store.object.provider
      then (err (value_error "Microsoft synchronization requires a Microsoft account"), s)
      else if not applied
      then (err (authorization_changed "Account changed before synchronization"), s)
      else let (r, s') = attempt fuel i.store.object.status (begun i incremental (flush store)) in
        (r, conclude s')
