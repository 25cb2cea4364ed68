-- ===== src/Mail/Microsoft/Values.antt =====
-- `microsoft_message_values` of modules/mail/microsoft_sync.py: a Graph message as a row. A null is
-- a key that is missing.
use mail_control.Base.{
  ℕ, String, Bool, false, Option, none, some, List, [], ◌∷◌, ◌++◌, same, if◌then◌else◌, truthy,
  or_else,
}
use mail_control.Mail.Account.{MailAccount}
use mail_control.Mail.Messages.{MessageValues, Mailbox, drafts, other}

-- The keys of the JSON message that are read; a recipient is its address, `payload` the whole text.
pub record GraphMessage : Type 0 where
  pub id : String
  pub is_removed : Bool
  pub conversation_id : Option String
  pub internet_message_id : Option String
  pub sender_address : Option String
  pub to_recipients : List (Option String)
  pub cc_recipients : List (Option String)
  pub bcc_recipients : List (Option String)
  pub subject : Option String
  pub body_preview : Option String
  pub received_date_time : Option String
  pub parent_folder_id : Option String
  pub is_draft : Bool
  pub is_read : Bool
  pub flag_status : Option String
  pub payload : String

-- The inner loop of `recipient_addresses`.
abbrev addresses : List (Option String) → List String
addresses [] = []
addresses (none ∷ rest) = addresses rest
addresses (some address ∷ rest) =
    if truthy address then address ∷ addresses rest else addresses rest

abbrev pub recipient_addresses : GraphMessage → List String
recipient_addresses m =
    addresses m.to_recipients ++ addresses m.cc_recipients ++ addresses m.bcc_recipients

-- `folder_mailboxes.get(folder_id, "other")`; what was written last stands first.
abbrev pub mailbox_at : List (String × Mailbox) → String → Mailbox
mailbox_at [] folder_id = other
mailbox_at ((id, mailbox) ∷ rest) folder_id =
    let later = mailbox_at rest folder_id in if same id folder_id then mailbox else later

-- `str(x or "")`
abbrev folder_of : GraphMessage → String
folder_of m = or_else m.parent_folder_id String.[]

abbrev received_time : (String → ℕ) → Option String → Option ℕ
received_time from_iso none = none
received_time from_iso (some value) = if truthy value then some (from_iso value) else none

abbrev is_flagged : Option String → Bool
is_flagged none = false
is_flagged (some status) = same status "flagged"

-- `from_iso` is `datetime.fromisoformat`, after the suffix "Z" is replaced.
unfoldable pub microsoft_message_values :
    (String → ℕ) → MailAccount → GraphMessage → List (String × Mailbox) → MessageValues
microsoft_message_values from_iso account m folder_mailboxes =
    let folder_id = folder_of m in
    record {
      tenant = account.tenant_id;
      account = account.id;
      message_id = m.id;
      thread = m.conversation_id;
      history = none;
      internet_id = m.internet_message_id;
      from = m.sender_address;
      to = recipient_addresses m;
      title = m.subject;
      preview = m.body_preview;
      received = received_time from_iso m.received_date_time;
      internal_date = none;
      size = none;
      labels = or_else m.parent_folder_id String.[] ∷ [];
      raw = m.payload;
      read = m.is_read;
      starred = is_flagged m.flag_status;
      box = if m.is_draft then drafts else mailbox_at folder_mailboxes folder_id;
      folder = if truthy folder_id then some folder_id else none;
    }
