-- ===== src/System/Worker.antt =====
-- worker.py: one delivery of the queue `mail.sync.gmail`.
pub mod Deliveries
pub mod Cooldown
use mail_control.Base.{
  ℕ, ◌+◌, ◌-◌, String, Bool, true, false, ◌&&◌, ◌||◌, not, Option, none, some, List, [], ◌∷◌, ◌==◌,
  max, if◌then◌else◌, any, same, same_opt,
}
use mail_control.Base.Exec.{Result, ok, err}
use mail_control.Mail.Account.{
  MailAccount, MailProvider, gmail, AccountStatus, disconnected, reauth_required, error, Values,
  no_values, Store, ProviderError, flush, update_account_state, mark_reauth_if_current, same_status,
}
use mail_control.Mail.TokenManager.{
  Cipher, OAuthTokens, TokenFault, busy, unavailable, bad_credential, refresh_failed, superseded,
  undecryptable, raised, access_token, is_unavailable,
}
use mail_control.Mail.Messages.{MailDb}
use mail_control.Mail.Gmail.Client.{
  FaultKind, history_expired, message_not_found, gmail_error, reauth, transient, other_fault, Fault,
  Env, SyncError, fault, authorization_changed, transient_error, runtime_error, out_of_fuel,
  SyncRun, SyncState,
}
use mail_control.Mail.Gmail.Synchronize.{SyncInput, synchronize, provider_error}
use mail_control.Mail.Gmail.Imap
use mail_control.Mail.Gmail.Imap.{ImapClient}
use mail_control.System.Redis.{
  Redis, Key, sync_lock, cooldown, same_provider, exists, get, set, set_nx, delete,
}
use mail_control.System.Alerts.{
  AlertSettings, AlertState, Network, Fingerprint, account_issue, account_recovered,
}

-- A delivery: its payload, whether that has the ids as UUIDs, and whether it was delivered before.
pub record Message : Type 0 where
  pub reads_account : Bool
  pub reads_tenant : Bool
  pub tenant_id : ℕ
  pub mail_account_id : ℕ
  pub redelivered : Bool

-- What the broker is told; `unsettled` when the callback raises before it tells anything.
pub data Settled : Type 0 where
  acked requeued rejected unsettled : Settled

-- Which calls of Redis raise: the taking of the lock, the look at the cooldown, its setting and the
-- lock's release.
pub record RedisFaults : Type 0 where
  pub lock_raises : Bool
  pub exists_raises : Bool
  pub set_raises : Bool
  pub release_raises : Bool

pub record WorkerState : Type 0 where
  pub db : MailDb
  pub store : Store
  pub alerts : AlertState

-- What surrounds a delivery: the libraries, the providers, the networks and the times.
pub record Surroundings : Type 0 where
  pub print : Fingerprint
  pub alert_settings : AlertSettings
  pub network : Network
  pub faults : RedisFaults
  pub env : Env
  pub imap : ImapClient
  pub cipher : Cipher
  pub oauth : String → Result Fault OAuthTokens
  pub oauth_world : MailAccount → MailAccount
  pub oauth_lock : Bool
  pub fuel : ℕ
  pub lock_token : String
  pub now : ℕ
  pub failed_at : ℕ
  pub released_at : ℕ

-- The exception handlers tell these apart.
pub data Failure : Type 0 where
  ignored needs_reauth plain_gmail unexpected : Failure
  cooling : Option ℕ → Failure

abbrev classify_kind : Fault → FaultKind → Failure
classify_kind f reauth = needs_reauth
classify_kind f transient = cooling f.retry_at
classify_kind f FaultKind.superseded = ignored
classify_kind f other_fault = unexpected
classify_kind f _ = plain_gmail

abbrev pub classify : SyncError → Failure
classify (fault f) = classify_kind f f.kind
classify (authorization_changed message) = ignored
classify (transient_error message) = cooling none
classify (runtime_error message) = unexpected
classify out_of_fuel = unexpected

-- What `provider_client` raises; a failed refresh is tagged with the grant that it used.
abbrev pub of_token : TokenFault Fault → SyncError
of_token busy = runtime_error "Account token refresh is busy; retry shortly"
of_token (unavailable message) = authorization_changed message
of_token bad_credential = runtime_error "credential cannot be decrypted"
of_token (refresh_failed undecryptable grant) = runtime_error "credential cannot be decrypted"
of_token (refresh_failed (raised f) grant) =
    fault (record f { error = record f.error { expected_grant = some grant } })
of_token superseded = authorization_changed "A newer authorization superseded this refresh"

-- `max(300, int(retry_at - now) + 300)`
abbrev pub cooldown_seconds : ℕ → Option ℕ → ℕ
cooldown_seconds now none = 300
cooldown_seconds now (some retry_at) = max 300 ((retry_at - now) + 300)

abbrev error_values : SyncError → Values
error_values e = record no_values {
  new_status = some error;
  new_last_error = some (some (provider_error e).message);
}

-- A message that raises is requeued once.
abbrev pub after_raise : Message → Settled
after_raise m = if m.redelivered then rejected else requeued

abbrev is_addressed : Message → MailAccount → Bool
is_addressed m r =
    r.id == m.mail_account_id && r.tenant_id == m.tenant_id && same_provider r.provider gmail

-- `account_by_id` loads the row into a new session.
abbrev pub loaded : MailAccount → Store
loaded r = record { row = r; tracked = record { object = r; loaded = r.auth } }

module _ (w : Surroundings) where
  report : SyncError → WorkerState → WorkerState
  report e s = record s {
    alerts =
        account_issue w.print w.alert_settings w.failed_at s.store.object.id
          (provider_error e).message w.network s.alerts;
  }

  cool_down : Option ℕ → WorkerState → WorkerState
  cool_down retry_at s = record s {
    alerts = record s.alerts {
      redis =
          set s.alerts.redis w.failed_at (cooldown gmail s.store.object.id) "1"
            (some (cooldown_seconds w.failed_at retry_at));
    };
  }

  abbrev commit : Store → WorkerState → WorkerState
  commit store s = record s { store = flush store }

  -- The handlers around the IMAP import and `provider_client`.
  on_setup_error : Message → SyncError → Failure → WorkerState → Settled × WorkerState
  unfolding report cool_down
  on_setup_error m e ignored s = (acked, s)
  on_setup_error m e needs_reauth s =
      let (store, applied) = mark_reauth_if_current s.store (provider_error e) in
      (acked, if applied then report e (commit store s) else commit store s)
  on_setup_error m e (cooling retry_at) s =
      let (store, applied) =
        update_account_state s.store (error_values e) (some (provider_error e)) in
      if not applied
      then (acked, commit store s)
      else if w.faults.set_raises
      then (after_raise m, commit store s)
      else (acked, report e (cool_down retry_at (commit store s)))
  on_setup_error m e plain_gmail s =
      let (store, applied) =
        update_account_state s.store (error_values e) (some (provider_error e)) in
      if applied then (after_raise m, report e (commit store s)) else (acked, commit store s)
  on_setup_error m e unexpected s = (after_raise m, s)

  -- The handlers around the synchronization itself, which has recorded the error in the account.
  pub on_sync_error : Message → SyncError → Failure → WorkerState → Settled × WorkerState
  unfolding report cool_down
  on_sync_error m e ignored s = (acked, s)
  on_sync_error m e needs_reauth s =
      let (store, applied) = mark_reauth_if_current s.store (provider_error e) in
      (acked, if applied then report e (commit store s) else commit store s)
  on_sync_error m e (cooling retry_at) s =
      if w.faults.set_raises then (after_raise m, s) else (acked, report e (cool_down retry_at s))
  on_sync_error m e plain_gmail s = (after_raise m, report e s)
  on_sync_error m e unexpected s = (after_raise m, report e s)

  recover : WorkerState → WorkerState
  recover s = record s {
    alerts =
        account_recovered w.print w.alert_settings w.failed_at s.store.object.id w.network s.alerts;
  }

  input_of : WorkerState → SyncInput
  input_of s = record { db = s.db; store = s.store; started_at = w.now; calls = 0 }

  with_sync : WorkerState → SyncState → WorkerState
  with_sync s s' = record s { db = s'.db; store = s'.store }

  finish :
      (SyncError → WorkerState → Settled × WorkerState)
      → Result SyncError SyncRun
      → WorkerState
      → Settled × WorkerState
  unfolding recover
  finish handle (ok run) s = (acked, recover s)
  finish handle (err e) s = handle e s

  -- The password of an IMAP account is its decrypted refresh token.
  over_imap : Message → Option String → WorkerState → Settled × WorkerState
  unfolding finish on_setup_error input_of with_sync
  over_imap m none s = (after_raise m, s)
  over_imap m (some password) s =
      let (r, s') = Imap.synchronize w.env w.imap (input_of s) in
      finish (λ e. on_setup_error m e (classify e)) r (with_sync s s')

  over_gmail : Message → Result (TokenFault Fault) String → WorkerState → Settled × WorkerState
  unfolding finish on_setup_error on_sync_error input_of with_sync
  over_gmail m (err e) s = on_setup_error m (of_token e) (classify (of_token e)) s
  over_gmail m (ok token) s =
      let (r, s') = synchronize w.env w.fuel (input_of s) in
      finish (λ e. on_sync_error m e (classify e)) r (with_sync s s')

  synchronize_account : Message → WorkerState → Settled × WorkerState
  unfolding over_imap over_gmail
  synchronize_account m s =
      let (token, store) =
        access_token w.cipher w.oauth w.oauth_world w.now w.oauth_lock none s.store in
      if any (λ scope. same scope "imap") s.store.object.granted_scopes
      then over_imap m (w.cipher.decrypt s.store.object.encrypted_refresh_token) s
      else over_gmail m token (record s { store = store })

  unfoldable pub process_message : Message → WorkerState → Settled × WorkerState
  unfolding synchronize_account
  process_message m s =
      if not m.reads_tenant
      then (after_raise m, s)
      else if not (is_addressed m s.store.row) || is_unavailable s.store.row.status
      then (acked, s)
      else if w.faults.exists_raises
      then (after_raise m, s)
      else if exists s.alerts.redis w.now (cooldown gmail s.store.row.id)
      then (acked, s)
      else synchronize_account m (record s { store = loaded s.store.row })

  -- The lock is released by who still holds it.
  release : ℕ → WorkerState → WorkerState
  release account s =
      let r = s.alerts.redis in
      let key = sync_lock gmail account in
      if not w.faults.release_raises && same_opt same (get r w.released_at key) (some w.lock_token)
      then record s { alerts = record s.alerts { redis = delete r key } }
      else s

  -- `handler`, with the account's lock of 7200 s; an error of the release comes after the delivery
  -- is settled.
  unfoldable pub handler : Message → WorkerState → Settled × WorkerState
  unfolding release
  handler m s =
      let (acquired, redis') =
        set_nx s.alerts.redis w.now (sync_lock gmail m.mail_account_id) w.lock_token (some 7200) in
      let (settled, s') =
        process_message m (record s { alerts = record s.alerts { redis = redis' } }) in
      if not m.reads_account || w.faults.lock_raises
      then (unsettled, s)
      else if acquired
      then (settled, release m.mail_account_id s')
      else (acked, s)
