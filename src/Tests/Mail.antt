-- ===== src/Tests/Mail.antt =====
-- An account, messages and provider requests at concrete inputs.
use mail_control.Base.{
  ℕ, ◌+◌, ◌≡◌, ◌≤◌, inl, true, false, none, some, List, [], ◌∷◌, refl, find_first, length,
}
use mail_control.Base.Exec.{ok, err}
use mail_control.Mail.Account.{
  AuthState, MailAccount, gmail, connected, syncing, disconnected, Values, no_values, Tracked,
  Store,
}
use mail_control.Mail.Account.Fence.{state, reauth, perform_all, perform_all_superseded}
use mail_control.Mail.Http.{
  bounded_body, bounded_body_exact, joined, max_provider_response_bytes, exceeds_limit,
}
use mail_control.Mail.Messages.{MessageValues, inbox, MailDb, is_message, inserted, upsert_message}
use mail_control.Mail.Messages.Upsert.{find-upsert, upserted}

abbrev pub granted : AuthState
granted = record {
  encrypted_refresh_token = "grant";
  encrypted_access_token = some "access";
  access_token_expires_at = some 900;
  status = connected;
  last_error = none;
  last_synced_at = none;
  history_cursor = none;
}

abbrev pub account : MailAccount
account = record {
  id = 5;
  tenant_id = 3;
  provider = gmail;
  email = "ana@example.com";
  granted_scopes = [];
  created_at = 100;
  auth = granted;
}

abbrev pub paused : MailAccount
paused = record account { auth = record granted { status = disconnected } }

abbrev pub tracked : Tracked
tracked = record { object = account; loaded = granted }

abbrev pub store : Store
store = record { row = account; tracked = tracked }

abbrev synced : Values
synced = record no_values { new_status = some syncing }

perform_all_superseded_example :
    perform_all paused (
      (tracked, state synced none)
      ∷ (tracked, reauth (record { message = "expired"; expected_grant = some "older" }))
      ∷ [])
    ≡ paused
perform_all_superseded_example =
    perform_all_superseded paused
      ((tracked, state synced none)
        ∷ (tracked, reauth (record { message = "expired"; expected_grant = some "older" }))
        ∷ [])
      (inl refl, (inl refl, tt))

abbrev pub values : MessageValues
values = record {
  tenant = 3;
  account = 5;
  message_id = "m1";
  thread = none;
  history = none;
  internet_id = none;
  from = some "bank@example.com";
  to = [];
  title = some "Receipt";
  preview = none;
  received = none;
  internal_date = none;
  size = none;
  labels = "INBOX" ∷ [];
  raw = "{}";
  read = false;
  starred = false;
  box = inbox;
  folder = none;
}

-- The user has marked the stored message as read.
abbrev pub database : MailDb
database = record {
  messages = record (inserted 1 values) { local_is_read = some true; is_read = true } ∷ [];
  outbox = [];
  cursors = [];
  next_id = 2;
}

find-upsert_example :
    let old = find_first (is_message 5 "m1") database.messages in
    (find_first (is_message 5 "m1") (upsert_message values database).0.messages
      ≡ some (upserted values database old))
    × ((upsert_message values database).1 ≡ false)
find-upsert_example = find-upsert values database 5 "m1"

abbrev chunks : List (List ℕ)
chunks = (1 ∷ 2 ∷ []) ∷ (3 ∷ []) ∷ []

bounded_body_exact_example :
    (length (joined chunks) ≤ max_provider_response_bytes
      → bounded_body chunks ≡ ok (joined chunks))
    × (max_provider_response_bytes + 1 ≤ length (joined chunks)
        → bounded_body chunks ≡ err exceeds_limit)
bounded_body_exact_example = bounded_body_exact chunks
