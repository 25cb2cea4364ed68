-- ===== src/System/Freshness.antt =====
-- modules/system/mail_freshness.py: which accounts need attention.
use mail_control.Base.{
  ℕ, ◌-◌, Bool, true, false, ◌&&◌, Option, none, some, List, ◌==◌, ltb, leb, not, if◌then◌else◌,
  is_some, or_else, filter_by, map,
}
use mail_control.Mail.Account.{
  MailAccount, AccountStatus, MailProvider, gmail, microsoft, error, disconnected, same_status,
}

pub data Issue : Type 0 where
  reauth_required sync_error never_synced stale push_expired : Issue

abbrev expired : ℕ → Option ℕ → Bool
expired now none = false
expired now (some t) = leb t now

-- The checks of `sync_issue` after those of the status.
unfoldable pub timed_issue : MailAccount → ℕ → ℕ → Bool → Option ℕ → Option Issue
timed_issue account now threshold push_enabled push_expires_at =
    let reference = or_else account.last_synced_at account.created_at in
    if ltb threshold (now - reference)
    then some (if is_some account.last_synced_at then stale else never_synced)
    else if push_enabled && expired now push_expires_at
    then some push_expired
    else none

unfoldable pub sync_issue : MailAccount → ℕ → ℕ → Bool → Option ℕ → Option Issue
unfolding timed_issue
sync_issue account now threshold push_enabled push_expires_at =
    if same_status account.status disconnected
    then none
    else if same_status account.status AccountStatus.reauth_required
    then some reauth_required
    else if same_status account.status error
    then some sync_error
    else timed_issue account now threshold push_enabled push_expires_at

pub record Settings : Type 0 where
  pub mail_sync_stale_after_seconds : ℕ
  pub gmail_push_enabled : Bool
  pub microsoft_graph_webhook_enabled : Bool

-- A row of the query: the account, with the expiry of its Gmail watch and of its Graph
-- subscription, where it has one.
pub record HealthRow : Type 0 where
  pub account : MailAccount
  pub gmail_expiry : Option ℕ
  pub microsoft_expiry : Option ℕ

pub record AccountSyncHealth : Type 0 where
  pub account_id : ℕ
  pub provider : MailProvider
  pub status : AccountStatus
  pub last_synced_at : Option ℕ
  pub seconds_since_sync : Option ℕ
  pub issue : Option Issue

abbrev push_enabled_for : Settings → MailProvider → Bool
push_enabled_for settings gmail = settings.gmail_push_enabled
push_enabled_for settings microsoft = settings.microsoft_graph_webhook_enabled

abbrev expiry_for : HealthRow → MailProvider → Option ℕ
expiry_for row gmail = row.gmail_expiry
expiry_for row microsoft = row.microsoft_expiry

-- `max(0, int((now - last_synced_at).total_seconds()))`
abbrev seconds_since : ℕ → Option ℕ → Option ℕ
seconds_since now none = none
seconds_since now (some t) = some (now - t)

abbrev pub row_issue : Settings → ℕ → HealthRow → Option Issue
row_issue settings now row =
    sync_issue row.account now settings.mail_sync_stale_after_seconds
      (push_enabled_for settings row.account.provider) (expiry_for row row.account.provider)

pub health_of : Settings → ℕ → HealthRow → AccountSyncHealth
health_of settings now row = record {
  account_id = row.account.id;
  provider = row.account.provider;
  status = row.account.status;
  last_synced_at = row.account.last_synced_at;
  seconds_since_sync = seconds_since now row.account.last_synced_at;
  issue = row_issue settings now row;
}

abbrev in_tenant : Option ℕ → MailAccount → Bool
in_tenant none a = true
in_tenant (some t) a = a.tenant_id == t

-- `rows` is the join of the tables, in the order of the accounts' ids.
unfoldable pub account_health_rows :
    Settings → ℕ → Option ℕ → List HealthRow → List (HealthRow × AccountSyncHealth)
unfolding health_of
account_health_rows settings now tenant_id rows =
    map (λ row. (row, health_of settings now row))
      (filter_by
        (λ row.
          not (same_status row.account.status disconnected) && in_tenant tenant_id row.account)
        rows)
