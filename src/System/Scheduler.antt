-- ===== src/System/Scheduler.antt =====
-- sync_scheduler.py: which accounts are queued for synchronization.
pub mod Ready
use mail_control.Base.{
  ℕ, suc, ◌+◌, ◌≡◌, String, Bool, true, false, ◌&&◌, ◌||◌, not, Option, none, some, List, [], ◌∷◌,
  ◌==◌, leb, max, if◌then◌else◌, any, filter_by, map, length, is_some,
}
use mail_control.Mail.Account.{
  MailAccount, MailProvider, gmail, microsoft, AccountStatus, connected, syncing, error,
  reauth_required, disconnected,
}
use mail_control.System.Redis.{Redis, exists, sync_lock, cooldown}

pub data RoutingKey : Type 0 where
  mail_sync_gmail mail_sync_microsoft : RoutingKey

-- A persistent message of the default exchange.
pub record Delivery : Type 0 where
  pub routing_key : RoutingKey
  pub tenant_id : ℕ
  pub mail_account_id : ℕ

-- `interval_seconds`, of the value of the environment variable or its default.
abbrev pub interval_seconds : Option ℕ → ℕ
interval_seconds none = max 60 300
interval_seconds (some value) = max 60 value

abbrev pub can_sync : AccountStatus → Bool
can_sync connected = true
can_sync error = true
can_sync syncing = true
can_sync reauth_required = false
can_sync disconnected = false

abbrev never_or_before : ℕ → ℕ → Option ℕ → Bool
never_or_before now interval none = true
never_or_before now interval (some t) = leb (t + interval) now

-- The WHERE clause: `last_synced_at IS NULL OR last_synced_at <= now - interval`.
abbrev pub is_due : ℕ → ℕ → MailAccount → Bool
is_due now interval a = can_sync a.status && never_or_before now interval a.last_synced_at

-- A value came back from MGET of the account's lock key, of its cooldown key.
abbrev pub is_busy : Redis → ℕ → MailAccount → Bool
is_busy r now a = exists r now (sync_lock a.provider a.id)

abbrev pub is_cooling_down : Redis → ℕ → MailAccount → Bool
is_cooling_down r now a = exists r now (cooldown a.provider a.id)

-- `account[0] in skipped_accounts`, the set of the ids of busy and cooling accounts.
abbrev pub is_skipped : Redis → ℕ → List MailAccount → MailAccount → Bool
is_skipped r now accounts a =
    any (λ b. is_busy r now b && b.id == a.id) accounts
    || any (λ b. is_cooling_down r now b && b.id == a.id) accounts

abbrev pub delivery : MailAccount → Delivery
delivery a = record {
  routing_key = elim a.provider [ gmail ↦ mail_sync_gmail | microsoft ↦ mail_sync_microsoft ];
  tenant_id = a.tenant_id;
  mail_account_id = a.id;
}

-- What fails: either MGET, the opening of the channel, the publishing of the n-th message.
pub record Broker : Type 0 where
  pub mget_fails : Bool
  pub channel_fails : Bool
  pub takes : ℕ → Bool

abbrev is_empty : {A : Type 0} → List A → Bool
is_empty [] = true
is_empty (x ∷ xs) = false

-- The messages that are published, and whether all are.
publish_all : (ℕ → Bool) → ℕ → List Delivery → List Delivery × Bool
publish_all takes n [] = ([], true)
publish_all takes n (d ∷ ds) =
    let (sent, complete) = publish_all takes (suc n) ds in
    if takes n then (d ∷ sent, complete) else ([], false)

-- From `if not ready_accounts` on.
publish_ready : Broker → List MailAccount → List Delivery × Option ℕ
unfolding publish_all
publish_ready b ready =
    let (sent, complete) = publish_all b.takes 0 (map delivery ready) in
    if is_empty ready
    then ([], some 0)
    else if b.channel_fails
    then ([], none)
    else (sent, if complete then some (length ready) else none)

-- The published messages, and the count that is returned, `none` when the function raises.
unfoldable pub enqueue_due_accounts :
    Broker → Redis → ℕ → ℕ → List MailAccount → List Delivery × Option ℕ
unfolding publish_ready
enqueue_due_accounts b r now interval table =
    let accounts = filter_by (is_due now interval) table in
    let ready = filter_by (λ a. not (is_skipped r now accounts a)) accounts in
    if is_empty accounts
    then ([], some 0)
    else if b.mget_fails
    then ([], none)
    else publish_ready b ready
