-- ===== src/System/Alerts/Monitor.antt =====
-- `monitor_mail_freshness`: after a round, exactly the accounts with an issue have an incident.
use mail_control.Base.{
  ℕ, ◌+◌, ◌≡◌, ◌≢◌, String, Bool, true, ◌&&◌, not, Option, none, some, List, [], ◌∷◌, arith, refl,
  ◌∙◌, if◌then◌else◌, All, count_if, is_some,
}
use mail_control.Mail.Account.{same_status, disconnected}
use mail_control.System.Redis.{alert_active, exists}
use mail_control.System.Freshness.{
  Issue, reauth_required, sync_error, never_synced, stale, push_expired, HealthRow,
  AccountSyncHealth, Settings, account_health_rows, row_issue,
}
use mail_control.System.Alerts.{
  AlertSettings, AlertState, Network, Fingerprint, account_issue, account_recovered, configured,
}
use mail_control.System.Alerts.Incidents.{same_channel_self}

abbrev pub issue_text : Issue → String
issue_text reauth_required = "El proveedor solicita volver a autorizar esta cuenta en el panel."
issue_text sync_error =
    "La última sincronización falló. Revisa el estado de esta cuenta en el panel."
issue_text never_synced = "La primera sincronización no terminó dentro del tiempo previsto."
issue_text stale = "La cuenta lleva demasiado tiempo sin completar una sincronización."
issue_text push_expired =
    "La notificación de nuevos correos caducó. El sondeo de respaldo sigue activo."

module _ (print : Fingerprint) (alert_settings : AlertSettings) (now : ℕ) (net : ℕ → Network) where
  report : ℕ → Option Issue → AlertState → AlertState
  report account none s = account_recovered print alert_settings now account (net account) s
  report account (some i) s =
      account_issue print alert_settings now account (issue_text i) (net account) s

  -- The loop of the monitor over the health rows, with its counter.
  pub monitor_rows : List (HealthRow × AccountSyncHealth) → ℕ → AlertState → ℕ × AlertState
  unfolding report
  monitor_rows [] issues s = (issues, s)
  monitor_rows ((row, health) ∷ rest) issues s =
      monitor_rows rest (if is_some health.issue then issues + 1 else issues)
        (report row.account.id health.issue s)

  pub monitor_mail_freshness : Settings → List HealthRow → AlertState → ℕ × AlertState
  unfolding monitor_rows
  monitor_mail_freshness settings rows s =
      monitor_rows (account_health_rows settings now none rows) 0 s

  monitor_rows_count :
      (rows : List (HealthRow × AccountSyncHealth)) (n : ℕ) (s : AlertState)
      → (monitor_rows rows n s).0 ≡ n + count_if (λ r. is_some r.1.issue) rows
  unfolding monitor_rows
  monitor_rows_count [] n s = omega arith
  monitor_rows_count ((row, health) ∷ rest) n s = ground (
    arith,
    monitor_rows_count rest (if is_some health.issue then n + 1 else n)
        (report row.account.id health.issue s),
  )

  attention_count :
      (settings : Settings) (rows : List HealthRow)
      → count_if (λ r. is_some r.1.issue) (account_health_rows settings now none rows)
        ≡ count_if
            (λ row.
              not (same_status row.account.status disconnected)
              && is_some (row_issue settings now row))
            rows
  unfolding account_health_rows
  attention_count settings [] = refl
  attention_count settings (row ∷ rest) = ground (arith, attention_count settings rest)

  -- The answer is the number of connected accounts that have an issue.
  monitor_counts :
      (settings : Settings) (rows : List HealthRow) (s : AlertState)
      → (monitor_mail_freshness settings rows s).0
        ≡ count_if
            (λ row.
              not (same_status row.account.status disconnected)
              && is_some (row_issue settings now row))
            rows
  unfolding monitor_mail_freshness
  monitor_counts settings rows s =
      monitor_rows_count (account_health_rows settings now none rows) 0 s
      ∙ omega (arith, attention_count settings rows)

  report_elsewhere :
      (a b : ℕ) (i : Option Issue) (s : AlertState)
      → b ≢ a
      → (report b i s).redis.entry (alert_active alert_settings.channel a)
        ≡ s.redis.entry (alert_active alert_settings.channel a)
  unfolding report account_issue account_recovered
  report_elsewhere a b none s h = ground arith
  report_elsewhere a b (some i) s h = ground arith

  monitor_rows_elsewhere :
      (a : ℕ) (rows : List (HealthRow × AccountSyncHealth)) (n : ℕ) (s : AlertState)
      → All (λ r. r.0.account.id ≢ a) rows
      → (monitor_rows rows n s).1.redis.entry (alert_active alert_settings.channel a)
        ≡ s.redis.entry (alert_active alert_settings.channel a)
  unfolding monitor_rows
  monitor_rows_elsewhere a [] n s h = refl
  monitor_rows_elsewhere a ((row, health) ∷ rest) n s h =
      monitor_rows_elsewhere a rest (if is_some health.issue then n + 1 else n)
        (report row.account.id health.issue s) h.1
      ∙ report_elsewhere a row.account.id health.issue s h.0

  -- Redis, Telegram and the deletion of keys all work.
  abbrev pub works : Network → Bool
  works n = n.claim_works && n.dedupe_works && n.send_works && n.delete_works

  report_settles :
      (a : ℕ) (i : Option Issue) (s : AlertState)
      → configured print alert_settings now ≡ true
      → works (net a) ≡ true
      → exists (report a i s).redis now (alert_active alert_settings.channel a) ≡ is_some i
  unfolding report account_issue account_recovered
  report_settles a none s c w = ground (arith, same_channel_self alert_settings.channel)
  report_settles a (some i) s c w = ground (arith, same_channel_self alert_settings.channel)

  -- When a round with a working network is over, an account that no later row repeats has an open
  -- incident exactly when its row has an issue, whatever incidents there were before.
  pub monitor_settles :
      (row : HealthRow) (health : AccountSyncHealth) (rest : List (HealthRow × AccountSyncHealth))
      (n : ℕ) (s : AlertState)
      → configured print alert_settings now ≡ true
      → works (net row.account.id) ≡ true
      → All (λ r. r.0.account.id ≢ row.account.id) rest
      → exists
          (monitor_rows ((row, health) ∷ rest) n s).1.redis
          now
          (alert_active alert_settings.channel row.account.id)
        ≡ is_some health.issue
  unfolding monitor_rows
  monitor_settles row health rest n s c w h =
      rw
        (monitor_rows_elsewhere row.account.id rest (if is_some health.issue then n + 1 else n)
          (report row.account.id health.issue s) h)
        (report_settles row.account.id health.issue s c w)
