-- ===== src/Mail/Messages.antt =====
-- Stored messages, sync cursors and the analysis outbox: modules/mail/models.py and the queries of
-- modules/mail/repository.py. Ids and times are numbers, a payload is its JSON text; the time
-- stamps of `TimestampMixin` are left out.
pub mod Upsert
pub mod Outbox
pub mod Sound
use mail_control.Base.{
  ℕ, ◌+◌, ◌≡◌, String, Bool, true, false, ◌&&◌, Option, none, some, List, [], ◌∷◌, ◌++◌, ◌==◌, same,
  map, if◌then◌else◌, find_first, update_first, update_where, filter_by, is_none, is_some, or_else,
  not,
}

pub data Mailbox : Type 0 where
  inbox sent drafts trash spam archive other : Mailbox

pub record EmailMessage : Type 0 where
  pub id : ℕ
  pub tenant_id : ℕ
  pub mail_account_id : ℕ
  pub provider_message_id : String
  pub thread_id : Option String
  pub history_id : Option String
  pub internet_message_id : Option String
  pub sender : Option String
  pub recipients : List String
  pub subject : Option String
  pub snippet : Option String
  pub received_at : Option ℕ
  pub internal_date_ms : Option ℕ
  pub size_estimate : Option ℕ
  pub label_ids : List String
  pub payload : String
  pub deleted_at : Option ℕ
  pub is_read : Bool
  pub is_starred : Bool
  pub mailbox : Mailbox
  pub provider_is_read : Bool
  pub provider_is_starred : Bool
  pub provider_mailbox : Mailbox
  pub provider_folder_id : Option String
  pub local_is_read : Option Bool
  pub local_is_starred : Option Bool
  pub local_mailbox : Option Mailbox

-- The dictionary that `message_values` builds; its keys `deleted_at` (None), `is_read`,
-- `is_starred` and `mailbox` repeat other entries.
pub record MessageValues : Type 0 where
  pub tenant : ℕ
  pub account : ℕ
  pub message_id : String
  pub thread : Option String
  pub history : Option String
  pub internet_id : Option String
  pub from : Option String
  pub to : List String
  pub title : Option String
  pub preview : Option String
  pub received : Option ℕ
  pub internal_date : Option ℕ
  pub size : Option ℕ
  pub labels : List String
  pub raw : String
  pub read : Bool
  pub starred : Bool
  pub box : Mailbox
  pub folder : Option String

pub data OutboxStatus : Type 0 where
  pending processing processed failed : OutboxStatus

-- The dedupe key `email-analysis:{id}` is the aggregate id.
pub record OutboxEvent : Type 0 where
  pub aggregate_id : ℕ
  pub tenant_id : ℕ
  pub status : OutboxStatus
  pub attempts : ℕ
  pub available_at : ℕ
  pub processed_at : Option ℕ
  pub last_error : Option String

-- The text of a cursor: the JSON of an import checkpoint, or any other text.
pub data CursorText : Type 0 where
  checkpoint : String → Bool → CursorText
  text : String → CursorText

pub record MailSyncCursor : Type 0 where
  pub tenant_id : ℕ
  pub mail_account_id : ℕ
  pub resource_key : String
  pub cursor : CursorText

pub record MailDb : Type 0 where
  pub messages : List EmailMessage
  pub outbox : List OutboxEvent
  pub cursors : List MailSyncCursor
  pub next_id : ℕ

abbrev pub is_message : ℕ → String → EmailMessage → Bool
is_message account_id message_id m =
    m.mail_account_id == account_id && same m.provider_message_id message_id

-- The row that INSERT writes.
abbrev pub inserted : ℕ → MessageValues → EmailMessage
inserted id v = record {
  id = id;
  tenant_id = v.tenant;
  mail_account_id = v.account;
  provider_message_id = v.message_id;
  thread_id = v.thread;
  history_id = v.history;
  internet_message_id = v.internet_id;
  sender = v.from;
  recipients = v.to;
  subject = v.title;
  snippet = v.preview;
  received_at = v.received;
  internal_date_ms = v.internal_date;
  size_estimate = v.size;
  label_ids = v.labels;
  payload = v.raw;
  deleted_at = none;
  is_read = v.read;
  is_starred = v.starred;
  mailbox = v.box;
  provider_is_read = v.read;
  provider_is_starred = v.starred;
  provider_mailbox = v.box;
  provider_folder_id = v.folder;
  local_is_read = none;
  local_is_starred = none;
  local_mailbox = none;
}

-- ON CONFLICT DO UPDATE: a local choice goes before the provider's state.
abbrev pub merged : MessageValues → EmailMessage → EmailMessage
merged v m = record m {
  thread_id = v.thread;
  history_id = v.history;
  label_ids = v.labels;
  payload = v.raw;
  snippet = v.preview;
  deleted_at = none;
  provider_folder_id = v.folder;
  provider_is_read = v.read;
  is_read = or_else m.local_is_read v.read;
  provider_is_starred = v.starred;
  is_starred = or_else m.local_is_starred v.starred;
  provider_mailbox = v.box;
  mailbox = or_else m.local_mailbox v.box;
  sender = v.from;
  recipients = v.to;
  subject = v.title;
  received_at = v.received;
  internet_message_id = v.internet_id;
}

-- The database, and whether the row is new.
unfoldable pub upsert_message : MessageValues → MailDb → MailDb × Bool
upsert_message v db =
    if is_some (find_first (is_message v.account v.message_id) db.messages)
    then (
      record db {
        messages = update_first (is_message v.account v.message_id) (merged v) db.messages;
      },
      false,
    )
    else (
      record db { messages = db.messages ++ inserted db.next_id v ∷ []; next_id = db.next_id + 1 },
      true,
    )

unfoldable pub mark_deleted : ℕ → String → ℕ → MailDb → MailDb
mark_deleted account_id message_id now db = record db {
  messages =
      update_where (is_message account_id message_id) (λ m. record m { deleted_at = some now })
        db.messages;
}

unfoldable pub active_provider_message_ids : ℕ → MailDb → List String
active_provider_message_ids account_id db =
    map (λ m. m.provider_message_id)
      (filter_by (λ m. m.mail_account_id == account_id && is_none m.deleted_at) db.messages)

abbrev pub is_event : ℕ → OutboxEvent → Bool
is_event id e = e.aggregate_id == id

abbrev pub new_event : ℕ → ℕ → ℕ → OutboxEvent
new_event id tenant_id now = record {
  aggregate_id = id;
  tenant_id = tenant_id;
  status = pending;
  attempts = 0;
  available_at = now;
  processed_at = none;
  last_error = none;
}

-- INSERT … ON CONFLICT DO NOTHING
abbrev pub insert_event : OutboxEvent → List OutboxEvent → List OutboxEvent
insert_event e events =
    if is_some (find_first (is_event e.aggregate_id) events) then events else events ++ e ∷ []

queue_for : Option EmailMessage → ℕ → ℕ → MailDb → Option MailDb
queue_for none tenant_id now db = none
queue_for (some m) tenant_id now db =
    some (record db { outbox = insert_event (new_event m.id tenant_id now) db.outbox })

-- `none` is the RuntimeError of a message that is not there.
unfoldable pub queue_analysis : ℕ → String → ℕ → ℕ → MailDb → Option MailDb
unfolding queue_for
queue_analysis account_id message_id tenant_id now db =
    queue_for (find_first (is_message account_id message_id) db.messages) tenant_id now db

abbrev pub is_cursor : ℕ → ℕ → String → MailSyncCursor → Bool
is_cursor tenant_id account_id key c =
    c.tenant_id == tenant_id && c.mail_account_id == account_id && same c.resource_key key

unfoldable pub cursor : ℕ → ℕ → String → MailDb → Option MailSyncCursor
cursor tenant_id account_id key db = find_first (is_cursor tenant_id account_id key) db.cursors

-- Adding a cursor, or writing to the one that was read.
unfoldable pub put_cursor : MailSyncCursor → MailDb → MailDb
put_cursor c db =
    let is_it = is_cursor c.tenant_id c.mail_account_id c.resource_key in
    record db {
      cursors =
          if is_some (find_first is_it db.cursors)
          then update_first is_it (λ old. record old { cursor = c.cursor }) db.cursors
          else db.cursors ++ c ∷ [];
    }

unfoldable pub delete_cursor : ℕ → ℕ → String → MailDb → MailDb
delete_cursor tenant_id account_id key db = record db {
  cursors = filter_by (λ c. not (is_cursor tenant_id account_id key c)) db.cursors;
}
