-- ===== src/Mail/Push/Gmail.antt =====
-- `enqueue_from_push` of modules/mail/gmail_push.py.
pub mod Delivery
pub mod Retry
use mail_control.Base.{
  ℕ, String, Bool, true, false, ◌&&◌, ◌||◌, List, [], ◌∷◌, not, map, same, filter_by, if◌then◌else◌,
}
use mail_control.Base.Exec.{Result, ok, err}
use mail_control.Mail.Account.{
  MailAccount, MailProvider, gmail, microsoft, AccountStatus, connected, error, syncing,
  reauth_required, disconnected,
}
use mail_control.Mail.Push.Dedupe.{
  DedupeKey, gmail_push, SyncJob, PushState, Services, claim_key, delete_key, publish,
}

abbrev is_gmail : MailProvider → Bool
is_gmail gmail = true
is_gmail microsoft = false

abbrev is_reachable : AccountStatus → Bool
is_reachable connected = true
is_reachable error = true
is_reachable syncing = true
is_reachable reauth_required = false
is_reachable disconnected = false

-- A row of the table, with its `provider_account_id`.
abbrev is_pushed : String → String × MailAccount → Bool
is_pushed address (provider_account_id, a) =
    is_gmail a.provider && same provider_account_id address && is_reachable a.status

-- The accounts of the SELECT.
abbrev pub pushed_accounts :
    (String → String) → String → List (String × MailAccount) → List MailAccount
pushed_accounts casefold email rows =
    map (λ row. row.1) (filter_by (is_pushed (casefold email)) rows)

abbrev pub job_of : MailAccount → SyncJob
job_of a = record { tenant_id = a.tenant_id; mail_account_id = a.id }

pub data PushError : Type 0 where
  broker_error : PushError

module _ (env : Services) (history_id : String) where
  abbrev pub key_of : MailAccount → DedupeKey
  key_of a = gmail_push a.id history_id

  -- One round of the loop: whether a job was published.
  unfoldable pub push_account : MailAccount → PushState → Result PushError Bool × PushState
  push_account a s =
      let (claimed, s') = claim_key env (key_of a) s in
      if not claimed
      then (ok false, s')
      else if env.broker_takes (job_of a)
      then (ok true, publish (job_of a) s')
      else (err broker_error, delete_key (key_of a) s')

  -- The loop over the accounts.
  unfoldable pub push_all : List MailAccount → Bool → PushState → Result PushError Bool × PushState
  unfolding push_account
  push_all [] queued s = (ok queued, s)
  push_all (a ∷ rest) queued s =
      let (r, s') = push_account a s in
      elim r [ err e ↦ (err e, s') | ok b ↦ push_all rest (queued || b) s' ]

  -- `enqueue_from_push`
  unfoldable pub enqueue_from_push :
      (String → String)
      → List (String × MailAccount)
      → String
      → PushState
      → Result PushError Bool × PushState
  unfolding push_all
  enqueue_from_push casefold rows email s = push_all (pushed_accounts casefold email rows) false s
