-- ===== src/Tests/System.antt =====
-- Alerts, freshness and the scheduler at concrete inputs.
use mail_control.Base.{
  ◌≡◌, true, false, ◌&&◌, not, none, List, [], ◌∷◌, refl, arith, filter_by, is_some,
}
use mail_control.Mail.Account.{MailAccount, gmail, disconnected, error}
use mail_control.System.Redis.{Redis, account_alerts, alert_active, exists, set}
use mail_control.System.Freshness.{HealthRow, Settings, health_of}
use mail_control.System.Alerts.{
  AlertSettings, AlertState, Network, Fingerprint, attention, account_issue,
}
use mail_control.System.Alerts.Incidents.{
  Call, issue, recover, about, serve_all, IsOpen, open_incident_is_silent, lost_alert,
}
use mail_control.System.Alerts.Monitor.{monitor_rows, monitor_settles}
use mail_control.System.Scheduler.{Broker, is_due, enqueue_due_accounts}
use mail_control.System.Scheduler.Ready.{is_blocked, IsEnqueued, enqueue_exactly_ready}
use mail_control.Tests.Mail.{account, granted}

abbrev pub print : Fingerprint
print = record { of_detail = λ s. "f"; of_detail_truthy = λ s. refl }

abbrev pub telegram : AlertSettings
telegram = record { channel = account_alerts; token = "t"; chat_id = "c"; dedupe_seconds = 3600 }

abbrev pub up : Network
up = record { claim_works = true; dedupe_works = true; send_works = true; delete_works = true }

abbrev pub healthy : Broker
healthy = record { mget_fails = false; channel_fails = false; takes = λ n. true }

abbrev empty : Redis
empty = record { entry = λ k. none }

abbrev pub quiet : AlertState
quiet = record { redis = empty; sent = [] }

-- Account 5 has an open incident.
abbrev alarmed : AlertState
alarmed = record {
  redis = set empty 10 (alert_active account_alerts 5) "f" none;
  sent = attention 5 "down" ∷ [];
}

alarmed-IsOpen : IsOpen print telegram 5 alarmed
alarmed-IsOpen = record { fingerprint = "f"; at_key = refl }

abbrev calls : List Call
calls = issue 20 5 "down" up ∷ issue 30 6 "down" up ∷ recover 40 6 up ∷ []

open_incident_is_silent_example :
    filter_by (about 5) (serve_all print telegram calls alarmed).sent ≡ attention 5 "down" ∷ []
open_incident_is_silent_example =
    open_incident_is_silent print telegram 5 calls alarmed alarmed-IsOpen
      (tt, (tt, (λ e. absurd (omega (arith, e)), tt)))

abbrev cut : Network
cut = record up { dedupe_works = false }

lost_alert_example :
    filter_by
      (about 5)
      (serve_all print telegram calls (account_issue print telegram 10 5 "down" cut quiet)).sent
    ≡ []
lost_alert_example =
    lost_alert print telegram 10 5 "down" cut quiet calls refl refl refl refl
      (tt, (tt, (λ e. absurd (omega (arith, e)), tt)))

abbrev broken : MailAccount
broken = record account { id = 6; auth = record granted { status = error } }

abbrev health_settings : Settings
health_settings = record {
  mail_sync_stale_after_seconds = 300;
  gmail_push_enabled = false;
  microsoft_graph_webhook_enabled = false;
}

abbrev row : MailAccount → HealthRow
row a = record { account = a; gmail_expiry = none; microsoft_expiry = none }

monitor_settles_example :
    exists
      (monitor_rows print telegram 500
        (λ n. up)
        ((row broken, health_of health_settings 500 (row broken)) ∷ [])
        0
        quiet).1.redis
      500
      (alert_active account_alerts 6)
    ≡ is_some (health_of health_settings 500 (row broken)).issue
monitor_settles_example =
    monitor_settles print telegram 500 (λ n. up) (row broken)
      (health_of health_settings 500 (row broken)) [] 0 quiet refl refl tt

abbrev table : List MailAccount
table =
    account
    ∷ broken
    ∷ record account { id = 7; auth = record granted { status = disconnected } }
    ∷ []

enqueue_exactly_ready_example :
    let ready = filter_by (λ a. is_due 500 300 a && not (is_blocked empty 500 a)) table in
    IsEnqueued healthy ready (enqueue_due_accounts healthy empty 500 300 table)
enqueue_exactly_ready_example =
    enqueue_exactly_ready healthy empty 500 (λ id. gmail) 300 table (refl, (refl, (refl, tt)))
