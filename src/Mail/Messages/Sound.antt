-- ===== src/Mail/Messages/Sound.antt =====
-- What storing a message keeps of the tables: the upsert, and the event that is queued for it.
use mail_control.Base.{
  ℕ, ◌≡◌, String, some, arith, find_first, Option-cases, inl, inr, All, ==_self, same_self,
}
use mail_control.Mail.Messages.{
  MessageValues, MailDb, is_message, upsert_message, mark_deleted, queue_analysis, insert_event,
  new_event,
}
use mail_control.Mail.Messages.Upsert.{
  MessagesAreUnique, IsConsistent, upsert-MessagesAreUnique, upsert-IsConsistent,
  mark_deleted-MessagesAreUnique, mark_deleted-IsConsistent, find-upsert, upserted,
}
use mail_control.Mail.Messages.Outbox.{EventsAreUnique, queue_once}

-- Each message has one row, and each row one event at most; what the user sees respects the local
-- choices.
pub record HasSoundTables (db : MailDb) : Type 0 where
  pub unique : MessagesAreUnique db.messages
  pub consistent : All IsConsistent db.messages
  pub queued_once : EventsAreUnique db.outbox

queue_messages :
    (account : ℕ) (id : String) (tenant now : ℕ) (db db' : MailDb)
    → queue_analysis account id tenant now db ≡ some db'
    → db'.messages ≡ db.messages
unfolding queue_analysis
queue_messages account id tenant now db db' h =
    elim (Option-cases (find_first (is_message account id) db.messages)) [
      | inl missing ↦ absurd (ground (arith, missing, h))
      | inr (m, e) ↦ ground (arith, e, h)
    ]

upsert_outbox : (v : MessageValues) (db : MailDb) → (upsert_message v db).0.outbox ≡ db.outbox
unfolding upsert_message
upsert_outbox v db = ground arith

-- The row that an upsert wrote is found, so the queue accepts it.
queue_accepts :
    (v : MessageValues) (tenant now : ℕ) (db : MailDb)
    → (db' : MailDb) × (queue_analysis v.account v.message_id tenant now (upsert_message v db).0
        ≡ some db')
unfolding queue_analysis
queue_accepts v tenant now db =
    let (f, g) = find-upsert v db v.account v.message_id in
    let old = find_first (is_message v.account v.message_id) db.messages in
    let db1 = (upsert_message v db).0 in
    (
      record db1 { outbox = insert_event (new_event (upserted v db old).id tenant now) db1.outbox },
      rw (f, ==_self v.account, same_self v.message_id),
    )

-- A message that is stored is queued, and the tables stay sound.
pub stored_sound :
    (v : MessageValues) (tenant now : ℕ) (db : MailDb)
    → HasSoundTables db
    → (db' : MailDb) × (queue_analysis v.account v.message_id tenant now (upsert_message v db).0
        ≡ some db')
      × HasSoundTables db'
stored_sound v tenant now db h =
    let db1 = (upsert_message v db).0 in
    let (db', e) = queue_accepts v tenant now db in
    let q =
      queue_once v.account v.message_id tenant now now db1 db' (rw upsert_outbox h.queued_once) e in
    let kept = queue_messages v.account v.message_id tenant now db1 db' e in
    let u = upsert-MessagesAreUnique v db h.unique in
    let c = upsert-IsConsistent v db h.consistent in
    (db', e, record { unique = rw kept u; consistent = rw kept c; queued_once = q.0 })

pub deleted_sound :
    (account : ℕ) (id : String) (now : ℕ) (db : MailDb)
    → HasSoundTables db
    → HasSoundTables (mark_deleted account id now db)
unfolding mark_deleted
deleted_sound account id now db h = record {
  unique = mark_deleted-MessagesAreUnique account id now db h.unique;
  consistent = mark_deleted-IsConsistent account id now db h.consistent;
  queued_once = h.queued_once;
}
