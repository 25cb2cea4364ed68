-- ===== src/Mail/Gmail/Sync/Sound.antt =====
-- What every step of `GmailSyncService` keeps of the tables and of the run's counters.
use mail_control.Base.{ℕ, ◌+◌, ◌≡◌, Bool, List, arith, All}
use mail_control.Mail.Messages.{
  EmailMessage, OutboxEvent, upsert_message, mark_deleted, put_cursor, delete_cursor,
}
use mail_control.Mail.Messages.Upsert.{
  MessagesAreUnique, IsConsistent, mark_deleted-MessagesAreUnique, mark_deleted-IsConsistent,
}
use mail_control.Mail.Messages.Outbox.{EventsAreUnique}
use mail_control.Mail.Messages.Sound.{stored_sound}
use mail_control.Mail.Gmail.Values.{GmailMessage, message_values}
use mail_control.Mail.Gmail.Client.{Env, SyncRun, SyncState}
use mail_control.Mail.Gmail.Sync.{count_stored, queued, store_message, commit}
use mail_control.Mail.Gmail.Sync.Keeps.{IsKept}

-- Each message has one row, and each row one event at most; what the user sees respects the local
-- choices; and every message that the run has seen is counted as created or as updated.
pub record IsSound (messages : List EmailMessage) (outbox : List OutboxEvent)
    (seen created updated : ℕ) : Type 0 where
  pub unique : MessagesAreUnique messages
  pub consistent : All IsConsistent messages
  pub queued_once : EventsAreUnique outbox
  pub counted : seen ≡ created + updated

abbrev pub HasSoundState : SyncState → Type 0
HasSoundState s =
    IsSound s.db.messages s.db.outbox s.run.messages_seen s.run.messages_created
      s.run.messages_updated

count_stored-counted :
    (created : Bool) (run : SyncRun)
    → run.messages_seen ≡ run.messages_created + run.messages_updated
    → let run' = count_stored created (record run { messages_seen = run.messages_seen + 1 }) in
      run'.messages_seen ≡ run'.messages_created + run'.messages_updated
unfolding count_stored
count_stored-counted created run h = ground arith

module _ (env : Env) where
  store_message_sound :
      (m : GmailMessage) (s : SyncState) → HasSoundState s → HasSoundState (store_message env m s).1
  unfolding store_message queued message_values
  store_message_sound m s h =
      let account = s.store.object in
      let v = message_values env.ops account m in
      let now = env.clock s.calls in
      let (db', e, k) =
        stored_sound v account.tenant_id now s.db
          (record { unique = h.unique; consistent = h.consistent; queued_once = h.queued_once }) in
      rw (e, store_message)
        (record {
          unique = k.unique;
          consistent = k.consistent;
          queued_once = k.queued_once;
          counted = count_stored-counted (upsert_message v s.db).1 s.run h.counted;
        })

  pub sound_kept : IsKept env HasSoundState
  unfolding mark_deleted put_cursor delete_cursor commit
  sound_kept = record {
    asked = λ s h. h;
    stored = store_message_sound;
    deleted = λ account id now s h. record {
      unique = mark_deleted-MessagesAreUnique account id now s.db h.unique;
      consistent = mark_deleted-IsConsistent account id now s.db h.consistent;
      queued_once = h.queued_once;
      counted = h.counted;
    };
    committed = λ s h. h;
    cursor_put = λ c s h. h;
    cursor_deleted = λ t a k s h. h;
    advanced = λ cursor s h. h;
  }
