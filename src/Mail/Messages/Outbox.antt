-- ===== src/Mail/Messages/Outbox.antt =====
-- A message is queued for analysis once.
use mail_control.Base.{
  ℕ, ◌≤◌, ◌≡◌, String, some, List, [], ◌∷◌, ◌++◌, arith, true, count_if, count_if-append,
  count_if-find_first, is_some, find_first, Option-cases, inl, inr, ==_self,
}
use mail_control.Mail.Messages.{
  MailDb, OutboxEvent, is_event, is_message, new_event, insert_event, queue_analysis,
}

abbrev pub EventsAreUnique : List OutboxEvent → Type 0
EventsAreUnique es = (id : ℕ) → count_if (is_event id) es ≤ 1

insert_event-EventsAreUnique :
    (e : OutboxEvent) (es : List OutboxEvent)
    → EventsAreUnique es
    → EventsAreUnique (insert_event e es)
insert_event-EventsAreUnique e es h id = ground (
  arith,
  h id,
  count_if-append (is_event id) es (e ∷ []),
  count_if-find_first (is_event e.aggregate_id) es,
)

find_queued :
    (e : OutboxEvent) (es : List OutboxEvent)
    → is_some (find_first (is_event e.aggregate_id) (es ++ e ∷ [])) ≡ true
find_queued e [] = ground (arith, ==_self e.aggregate_id)
find_queued e (x ∷ es) = ground (arith, find_queued e es)

insert_event_twice :
    (e f : OutboxEvent) (es : List OutboxEvent)
    → f.aggregate_id ≡ e.aggregate_id
    → insert_event f (insert_event e es) ≡ insert_event e es
insert_event_twice e f es h = ground (arith, find_queued e es)

-- Queueing keeps one event for each message, and queueing a message again, at whatever time,
-- changes nothing: neither a second event nor a reset of the first.
pub queue_once :
    (account : ℕ) (id : String) (tenant now now' : ℕ) (db : MailDb) (db' : MailDb)
    → EventsAreUnique db.outbox
    → queue_analysis account id tenant now db ≡ some db'
    → EventsAreUnique db'.outbox × (queue_analysis account id tenant now' db' ≡ some db')
unfolding queue_analysis
queue_once account id tenant now now' db db' u h =
    elim (Option-cases (find_first (is_message account id) db.messages)) [
      | inl missing ↦ absurd (ground (arith, missing, h))
      | inr (m, e) ↦ (
        λ k.
            ground
              (arith, e, h, insert_event-EventsAreUnique (new_event m.id tenant now) db.outbox u k),
        ground (
          arith,
          e,
          h,
          insert_event_twice (new_event m.id tenant now) (new_event m.id tenant now') db.outbox,
        ),
      )
    ]
