-- ===== src/Mail/Gmail/Client.antt =====
-- What `GmailSyncService` asks of `GmailClient`, and what it keeps: the provider is a function of
-- the number of the call, so that its mailbox may change at any time.
use mail_control.Base.{ℕ, String, Option, List}
use mail_control.Base.Exec.{Result, Exec}
use mail_control.Mail.Account.{MailAccount, ProviderError, Store}
use mail_control.Mail.Messages.{MailDb}
use mail_control.Mail.TokenManager.{Renewal}
use mail_control.Mail.Gmail.Values.{GmailMessage, HeaderOps}

pub record Page : Type 0 where
  pub message_ids : List String
  pub next_page_token : Option String

-- A record of `history`, with the ids of the messages that its four kinds of event name.
pub record HistoryRecord : Type 0 where
  pub messages_added : List String
  pub messages_deleted : List String
  pub labels_added : List String
  pub labels_removed : List String

pub record HistoryPage : Type 0 where
  pub history : List HistoryRecord
  pub next_page_token : Option String
  pub history_id : Option String

-- The classes of exception that a call of the client may raise; `gmail_error` is a plain GmailError
-- or GmailImapError, `other_fault` an exception of none of these classes, and `superseded` the
-- `AccountAuthorizationChanged` of a token refresh.
pub data FaultKind : Type 0 where
  history_expired message_not_found gmail_error reauth transient superseded other_fault : FaultKind

pub record Fault : Type 0 where
  pub kind : FaultKind
  pub error : ProviderError
  -- `retry_at` of a GmailTransientError.
  pub retry_at : Option ℕ

pub record GmailClient : Type 0 where
  pub profile : ℕ → Result Fault (Option String)
  pub list_messages : ℕ → Option String → Result Fault Page
  pub get_message : ℕ → String → Result Fault GmailMessage
  pub history : ℕ → String → Option String → Result Fault HistoryPage

-- `world n` is what other transactions did to the account's row before the n-th call, `renewal n`
-- whether the client then asked its callback for a new token, which refreshes and writes the
-- session's account, and `clock n` the time after the call. The answers are any, so that they may be
-- the error that the callback raises.
pub record Env : Type 0 where
  pub ops : HeaderOps
  pub client : GmailClient
  pub world : ℕ → MailAccount → MailAccount
  pub renewal : ℕ → Option (Renewal Fault)
  pub clock : ℕ → ℕ

pub data SyncKind : Type 0 where
  initial incremental : SyncKind

pub data SyncStatus : Type 0 where
  running succeeded failed : SyncStatus

pub record SyncRun : Type 0 where
  pub tenant_id : ℕ
  pub mail_account_id : ℕ
  pub kind : SyncKind
  pub status : SyncStatus
  pub started_at : ℕ
  pub finished_at : Option ℕ
  pub messages_seen : ℕ
  pub messages_created : ℕ
  pub messages_updated : ℕ
  pub error : Option String

-- `out_of_fuel` stands for a loop over pages that has not ended.
pub data SyncError : Type 0 where
  fault : Fault → SyncError
  authorization_changed : String → SyncError
  transient_error : String → SyncError
  runtime_error : String → SyncError
  out_of_fuel : SyncError

pub record SyncState : Type 0 where
  pub db : MailDb
  pub store : Store
  pub run : SyncRun
  pub calls : ℕ

abbrev pub Sync : Type 0 → Type 0
Sync A = Exec SyncError SyncState A
