-- ===== src/Tests/MicrosoftWorker.antt =====
-- A delivery for a Microsoft account at concrete inputs.
use mail_control.Base.{
  inr, arith, String, ◌≡◌, ◌&&◌, refl, true, false, none, some, List, [], ◌∷◌, any,
}
use mail_control.Base.Exec.{Result, ok}
use mail_control.Mail.Account.{MailAccount, ProviderError, microsoft}
use mail_control.Mail.TokenManager.{OAuthTokens}
use mail_control.System.Redis.{sync_lock, exists}
use mail_control.System.Scheduler.{enqueue_due_accounts}
use mail_control.System.Worker.{Message, acked, WorkerState}
use mail_control.System.Worker.Deliveries.{is_requeued}
use mail_control.System.MicrosoftWorker.{
  Surroundings, Problem, cooling, on_sync_error, process_message, handler,
}
use mail_control.System.MicrosoftWorker.Deliveries.{microsoft_delivery_settles}
use mail_control.System.MicrosoftWorker.Cooldown.{is_for, microsoft_cooling_pauses}
use mail_control.Tests.Microsoft.{env, outlook, store, input}
use mail_control.Tests.System.{print, telegram, up, quiet, healthy}
use mail_control.Tests.Worker.{cipher, no_faults}

abbrev oauth : String → Result Problem OAuthTokens
oauth grant = ok (record { access_token = "next"; expires_at = 4000; refresh_token = none })

abbrev surroundings : Surroundings
surroundings = record {
  print = print;
  alert_settings = telegram;
  network = up;
  faults = no_faults;
  env = env;
  cipher = cipher;
  oauth = oauth;
  oauth_world = λ r. r;
  oauth_lock = true;
  fuel = 3;
  lock_token = "worker";
  now = 1000;
  failed_at = 1010;
  released_at = 1020;
}

abbrev message : Message
message = record {
  reads_account = true;
  reads_tenant = true;
  tenant_id = 3;
  mail_account_id = 5;
  redelivered = true;
}

abbrev worker : WorkerState
worker = record { db = input.db; store = store; alerts = quiet }

microsoft_delivery_settles_example :
    let (settled, s') = handler surroundings message worker in
    (exists s'.alerts.redis 1020 (sync_lock microsoft 5) ≡ false)
    × (true && is_requeued settled ≡ false)
microsoft_delivery_settles_example =
    microsoft_delivery_settles surroundings message worker refl refl refl refl

abbrev outage : ProviderError
outage = record { message = "503"; expected_grant = none }

abbrev table : List MailAccount
table = outlook ∷ []

microsoft_cooling_pauses_example :
    let s = (on_sync_error surroundings message outage (cooling (some 1500)) worker).1 in
    (process_message (record surroundings { now = 1500 }) message s ≡ (acked, s))
    × (any (is_for 5) (enqueue_due_accounts healthy s.alerts.redis 1500 300 table).0 ≡ false)
microsoft_cooling_pauses_example =
    microsoft_cooling_pauses surroundings (record surroundings { now = 1500 }) message message
      outage (some 1500) worker healthy 300 table (λ id. microsoft) refl refl refl refl refl
      (refl, tt) (inr (1500, refl, omega arith))
