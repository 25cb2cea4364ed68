-- ===== src/Mail/Gmail/Imap.antt =====
-- `ImapSyncService.synchronize` of modules/mail/sync.py: the same storage over another transport.
pub mod Sound
use mail_control.Base.{
  ℕ, String, Bool, true, false, not, Option, none, some, List, [], ◌∷◌, if◌then◌else◌, truthy_opt,
}
use mail_control.Base.Exec.{Result, ok, err, pure, raise, gets, ◌>>=◌, ◌>>◌, try_except}
use mail_control.Mail.Account.{
  Values, no_values, ProviderError, error, syncing, update_account_state, flush, error_text, Store,
}
use mail_control.Mail.Gmail.Values.{GmailMessage}
use mail_control.Mail.Gmail.Client.{
  Fault, Env, SyncKind, SyncRun, failed, SyncError, fault, authorization_changed, runtime_error,
  SyncState, Sync,
}
use mail_control.Mail.Gmail.Sync.{request, store_message, set_history_cursor}
use mail_control.Mail.Gmail.Synchronize.{
  SyncInput, kind_of, begun, complete, conclude, provider_error, is_authorization_changed,
  status_values,
}

-- `GmailImapClient.messages`, by the number of the call: the messages after the cursor, and the
-- next cursor, as its digits. `parse` is `int`, `none` when it raises.
pub record ImapClient : Type 0 where
  pub messages : ℕ → Option ℕ → Result Fault (List GmailMessage × Option String)
  pub parse : String → Option ℕ

module _ (env : Env) (client : ImapClient) where
  read_cursor : Option String → Result SyncError (Option ℕ)
  read_cursor none = ok none
  read_cursor (some digits) =
      if truthy_opt (some digits)
      then elim (client.parse digits) [
        | none ↦ err (runtime_error "invalid literal for int() with base 10")
        | some n ↦ ok (some n)
      ]
      else ok none

  store_all : List GmailMessage → Sync (Unit {0})
  store_all [] = pure tt
  store_all (m ∷ ms) = store_message env m >> store_all ms

  set_next : Option String → Sync (Unit {0})
  set_next none s = (ok tt, s)
  set_next (some cursor) s = (ok tt, set_history_cursor cursor s)

  fetch : Result SyncError (Option ℕ) → Sync (Unit {0})
  unfolding store_all set_next
  fetch (err e) = raise e
  fetch (ok cursor) = do
    (messages, next_cursor) ← request env (λ n. client.messages n cursor)
    store_all messages
    set_next next_cursor

  import_messages : Sync (Unit {0})
  unfolding fetch read_cursor
  import_messages s = fetch (read_cursor s.store.object.history_cursor) s

  error_values : SyncError → Values
  error_values e = record no_values {
    new_status = some error;
    new_last_error = some (some (error_text (provider_error e).message));
  }

  on_imap_failure : SyncError → Sync (Unit {0})
  unfolding error_values
  on_imap_failure e s =
      let run = record s.run {
        status = failed;
        error = some (error_text (provider_error e).message);
      } in
      let (store, applied) =
        update_account_state s.store (error_values e) (some (provider_error e)) in
      if is_authorization_changed e then (err e, record s { run = run }) else (
        err (if applied then e else authorization_changed "Account authorization changed"),
        record s { run = run; store = store },
      )

  unfoldable pub synchronize : SyncInput → Result SyncError SyncRun × SyncState
  unfolding import_messages on_imap_failure
  synchronize i =
      let kind = kind_of i.store.object in
      let (store, applied) = update_account_state i.store (status_values syncing) none in
      let (r, s') =
        try_except (import_messages >> complete env) on_imap_failure (begun i kind (flush store)) in
      let s'' = conclude env s' in
      if not applied
      then (
        err (authorization_changed "Account changed before synchronization"),
        begun i kind i.store,
      )
      else (elim r [ ok u ↦ ok s''.run | err e ↦ err e ], s'')
