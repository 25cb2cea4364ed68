-- ===== src/System/MicrosoftWorker.antt =====
-- microsoft_worker.py: one delivery of the queue `mail.sync.microsoft`.
pub mod Deliveries
pub mod Cooldown
use mail_control.Base.{
  ℕ, ◌+◌, ◌-◌, String, Bool, true, false, ◌&&◌, ◌||◌, not, Option, none, some, ◌==◌, max,
  if◌then◌else◌, same, same_opt,
}
use mail_control.Base.Exec.{Result, ok, err}
use mail_control.Mail.Account.{
  MailAccount, microsoft, error, Values, no_values, Store, ProviderError, flush,
  update_account_state, mark_reauth_if_current,
}
use mail_control.Mail.TokenManager.{
  Cipher, OAuthTokens, TokenFault, busy, unavailable, bad_credential, refresh_failed, superseded,
  undecryptable, raised, access_token, is_unavailable,
}
use mail_control.Mail.Gmail.Client.{SyncState}
use mail_control.Mail.Gmail.Synchronize.{SyncInput}
use mail_control.Mail.Microsoft.Graph.{Env, FaultKind, transient, reauth, Fault, SyncError, fault}
use mail_control.Mail.Microsoft.Synchronize.{synchronize, provider_error, is_authorization_changed}
use mail_control.System.Redis.{sync_lock, cooldown, same_provider, exists, get, set, set_nx, delete}
use mail_control.System.Alerts.{
  AlertSettings, AlertState, Network, Fingerprint, account_issue, account_recovered,
}
use mail_control.System.Worker.{
  Message, Settled, acked, requeued, rejected, unsettled, RedisFaults, WorkerState, after_raise,
  loaded,
}

-- What the handlers tell apart: an account that has changed, a refused grant, a transient error
-- with its time, another MicrosoftError, and every other error.
pub data Failure : Type 0 where
  ignored needs_reauth plain_microsoft unexpected : Failure
  cooling : Option ℕ → Failure

pub record Problem : Type 0 where
  pub failure : Failure
  pub error : ProviderError

-- What surrounds a delivery: the libraries, the provider, the networks and the times. `oauth` is
-- the call of the token endpoint.
pub record Surroundings : Type 0 where
  pub print : Fingerprint
  pub alert_settings : AlertSettings
  pub network : Network
  pub faults : RedisFaults
  pub env : Env
  pub cipher : Cipher
  pub oauth : String → Result Problem OAuthTokens
  pub oauth_world : MailAccount → MailAccount
  pub oauth_lock : Bool
  pub fuel : ℕ
  pub lock_token : String
  pub now : ℕ
  pub failed_at : ℕ
  pub released_at : ℕ

abbrev classify_kind : Option ℕ → FaultKind → Failure
classify_kind retry_at transient = cooling retry_at
classify_kind retry_at reauth = needs_reauth
classify_kind retry_at _ = unexpected

abbrev classify_fault : SyncError → Failure
classify_fault (fault f) = classify_kind f.retry_at f.kind
classify_fault _ = unexpected

-- What the synchronization raises.
abbrev pub classify : SyncError → Problem
classify e = record {
  failure = if is_authorization_changed e then ignored else classify_fault e;
  error = provider_error e;
}

abbrev told : Failure → String → Problem
told f message = record { failure = f; error = record { message = message; expected_grant = none } }

-- What `provider_client` raises; a failed refresh is tagged with the grant that it used.
abbrev pub of_token : TokenFault Problem → Problem
of_token busy = told unexpected "Account token refresh is busy; retry shortly"
of_token (unavailable message) = told ignored message
of_token bad_credential = told unexpected "credential cannot be decrypted"
of_token (refresh_failed undecryptable grant) = told unexpected "credential cannot be decrypted"
of_token (refresh_failed (raised p) grant) = record p {
  error = record p.error { expected_grant = some grant };
}
of_token superseded = told ignored "A newer authorization superseded this refresh"

-- `max(300, ceil(retry_at - now) + 1)`
abbrev pub cooldown_seconds : ℕ → Option ℕ → ℕ
cooldown_seconds now none = 300
cooldown_seconds now (some retry_at) = max 300 ((retry_at - now) + 1)

abbrev error_values : ProviderError → Values
error_values e = record no_values {
  new_status = some error;
  new_last_error = some (some e.message);
}

abbrev is_addressed : Message → MailAccount → Bool
is_addressed m r =
    r.id == m.mail_account_id && r.tenant_id == m.tenant_id && same_provider r.provider microsoft

module _ (w : Surroundings) where
  report : ProviderError → WorkerState → WorkerState
  report e s = record s {
    alerts =
        account_issue w.print w.alert_settings w.failed_at s.store.object.id e.message w.network
          s.alerts;
  }

  -- `start_transient_cooldown`
  start_transient_cooldown : Option ℕ → WorkerState → WorkerState
  start_transient_cooldown retry_at s = record s {
    alerts = record s.alerts {
      redis =
          set s.alerts.redis w.failed_at (cooldown microsoft s.store.object.id) "1"
            (some (cooldown_seconds w.failed_at retry_at));
    };
  }

  abbrev commit : Store → WorkerState → WorkerState
  commit store s = record s { store = flush store }

  -- The handler of a refused grant, which both blocks have.
  on_reauth : ProviderError → WorkerState → Settled × WorkerState
  unfolding report
  on_reauth e s =
      let (store, applied) = mark_reauth_if_current s.store e in
      (acked, if applied then report e (commit store s) else commit store s)

  -- The handlers around `provider_client`.
  on_setup_error : Message → ProviderError → Failure → WorkerState → Settled × WorkerState
  unfolding on_reauth start_transient_cooldown
  on_setup_error m e ignored s = (acked, s)
  on_setup_error m e needs_reauth s = on_reauth e s
  on_setup_error m e (cooling retry_at) s =
      let (store, applied) = update_account_state s.store (error_values e) (some e) in
      if not applied
      then (acked, commit store s)
      else if w.faults.set_raises
      then (after_raise m, commit store s)
      else (acked, report e (start_transient_cooldown retry_at (commit store s)))
  on_setup_error m e plain_microsoft s =
      let (store, applied) = update_account_state s.store (error_values e) (some e) in
      if applied then (after_raise m, report e (commit store s)) else (acked, commit store s)
  on_setup_error m e unexpected s = (after_raise m, s)

  -- The handlers around the synchronization, which has recorded the error in the account.
  pub on_sync_error : Message → ProviderError → Failure → WorkerState → Settled × WorkerState
  unfolding on_reauth start_transient_cooldown
  on_sync_error m e ignored s = (acked, s)
  on_sync_error m e needs_reauth s = on_reauth e s
  on_sync_error m e (cooling retry_at) s =
      if w.faults.set_raises
      then (after_raise m, s)
      else (acked, report e (start_transient_cooldown retry_at s))
  on_sync_error m e plain_microsoft s = (after_raise m, report e s)
  on_sync_error m e unexpected s = (after_raise m, report e s)

  recover : WorkerState → WorkerState
  recover s = record s {
    alerts =
        account_recovered w.print w.alert_settings w.failed_at s.store.object.id w.network s.alerts;
  }

  input_of : WorkerState → SyncInput
  input_of s = record { db = s.db; store = s.store; started_at = w.now; calls = 0 }

  with_sync : WorkerState → SyncState → WorkerState
  with_sync s s' = record s { db = s'.db; store = s'.store }

  on_sync : Message → Result SyncError (Unit {0}) → WorkerState → Settled × WorkerState
  unfolding recover on_sync_error
  on_sync m (ok u) s = (acked, recover s)
  on_sync m (err e) s = on_sync_error m (classify e).error (classify e).failure s

  on_client : Message → Result (TokenFault Problem) String → WorkerState → Settled × WorkerState
  unfolding on_setup_error on_sync input_of with_sync
  on_client m (err e) s = on_setup_error m (of_token e).error (of_token e).failure s
  on_client m (ok token) s =
      let (r, s') = synchronize w.env w.fuel (input_of s) in on_sync m r (with_sync s s')

  synchronize_account : Message → WorkerState → Settled × WorkerState
  unfolding on_client
  synchronize_account m s =
      let (token, store) =
        access_token w.cipher w.oauth w.oauth_world w.now w.oauth_lock none s.store in
      on_client m token (record s { store = store })

  unfoldable pub process_message : Message → WorkerState → Settled × WorkerState
  unfolding synchronize_account
  process_message m s =
      if not m.reads_tenant
      then (after_raise m, s)
      else if not (is_addressed m s.store.row) || is_unavailable s.store.row.status
      then (acked, s)
      else if w.faults.exists_raises
      then (after_raise m, s)
      else if exists s.alerts.redis w.now (cooldown microsoft s.store.row.id)
      then (acked, s)
      else synchronize_account m (record s { store = loaded s.store.row })

  -- The lock is released by who still holds it.
  release : ℕ → WorkerState → WorkerState
  release account s =
      let r = s.alerts.redis in
      let key = sync_lock microsoft account in
      if not w.faults.release_raises && same_opt same (get r w.released_at key) (some w.lock_token)
      then record s { alerts = record s.alerts { redis = delete r key } }
      else s

  -- `handler`, with the account's lock of 7200 s; an error of the release comes after the delivery
  -- is settled.
  unfoldable pub handler : Message → WorkerState → Settled × WorkerState
  unfolding release
  handler m s =
      let key = sync_lock microsoft m.mail_account_id in
      let (acquired, redis') = set_nx s.alerts.redis w.now key w.lock_token (some 7200) in
      let (settled, s') =
        process_message m (record s { alerts = record s.alerts { redis = redis' } }) in
      if not m.reads_account || w.faults.lock_raises
      then (unsettled, s)
      else if acquired
      then (settled, release m.mail_account_id s')
      else (acked, s)
