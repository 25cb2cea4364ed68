-- ===== src/Mail/Gmail/Values.antt =====
-- `message_values` of modules/mail/sync.py: a Gmail message as a row.
use mail_control.Base.{
  ℕ, String, Bool, not, Option, none, some, List, [], ◌∷◌, ◌++◌, same, any, if◌then◌else◌, truthy,
  is_some,
}
use mail_control.Mail.Account.{MailAccount}
use mail_control.Mail.Messages.{MessageValues, Mailbox, inbox, sent, drafts, trash, spam, archive}

-- The keys of the JSON message that are read; `payload` is the whole text.
pub record GmailMessage : Type 0 where
  pub id : String
  pub thread_id : Option String
  pub history_id : Option String
  pub headers : List (String × String)
  pub internal_date : Option ℕ
  pub label_ids : List String
  pub snippet : Option String
  pub size_estimate : Option ℕ
  pub payload : String

-- `str.casefold`, and `parsedate_to_datetime` with its errors caught.
pub record HeaderOps : Type 0 where
  pub casefold : String → String
  pub parse_date : String → Option ℕ

-- Of headers of one name the last stays in the dictionary.
abbrev pub header : HeaderOps → String → List (String × String) → Option String
header ops name [] = none
header ops name ((key, value) ∷ rest) =
    let found = header ops name rest in
    if is_some found then found else if same (ops.casefold key) name then some value else none

abbrev has_label : String → List String → Bool
has_label label labels = any (λ l. same l label) labels

-- The first of the five labels that the message has names its box.
abbrev pub mailbox_of : List String → Mailbox
mailbox_of labels =
    if has_label "TRASH" labels
    then trash
    else if has_label "SPAM" labels
    then spam
    else if has_label "DRAFT" labels
    then drafts
    else if has_label "INBOX" labels
    then inbox
    else if has_label "SENT" labels
    then sent
    else archive

abbrev present : Option String → List String
present none = []
present (some value) = if truthy value then value ∷ [] else []

-- `parsedate_to_datetime(headers["date"])` where that is not empty, and None where it fails.
abbrev received_time : HeaderOps → Option String → Option ℕ
received_time ops none = none
received_time ops (some value) = if truthy value then ops.parse_date value else none

unfoldable pub message_values : HeaderOps → MailAccount → GmailMessage → MessageValues
message_values ops account m = record {
  tenant = account.tenant_id;
  account = account.id;
  message_id = m.id;
  thread = m.thread_id;
  history = m.history_id;
  internet_id = header ops "message-id" m.headers;
  from = header ops "from" m.headers;
  to =
      present (header ops "to" m.headers)
      ++ (present (header ops "cc" m.headers) ++ present (header ops "bcc" m.headers));
  title = header ops "subject" m.headers;
  preview = m.snippet;
  received = received_time ops (header ops "date" m.headers);
  internal_date = m.internal_date;
  size = m.size_estimate;
  labels = m.label_ids;
  raw = m.payload;
  read = not (has_label "UNREAD" m.label_ids);
  starred = has_label "STARRED" m.label_ids;
  box = mailbox_of m.label_ids;
  folder = none;
}
