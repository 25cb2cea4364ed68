-- ===== src/Analysis/Outbox.antt =====
-- The outbox queries of modules/analysis/repository.py. An event is found by its aggregate id,
-- which its unique dedupe key holds; the list stands in the order of `created_at`.
pub mod Rows
use mail_control.Base.{
  ℕ, zero, suc, ◌+◌, ◌*◌, String, Bool, true, false, ◌&&◌, Option, none, some, List, min, ltb, leb,
  find_first, update_first, clip, if◌then◌else◌,
}
use mail_control.Mail.Messages.{
  MailDb, OutboxEvent, OutboxStatus, pending, processing, processed, failed, is_event,
}
use mail_control.Analysis.Models.{AnalysisDb}

-- `status IN (pending, failed)`
abbrev pub may_claim : OutboxStatus → Bool
may_claim pending = true
may_claim failed = true
may_claim processing = false
may_claim processed = false

-- attempts < 8
abbrev pub max_attempts : ℕ
max_attempts = 8

abbrev pub is_available : ℕ → OutboxEvent → Bool
is_available now e = may_claim e.status && leb e.available_at now && ltb e.attempts max_attempts

abbrev pub with_events : List OutboxEvent → AnalysisDb → AnalysisDb
with_events events db = record db { mail = record db.mail { outbox = events } }

abbrev pub change_event : ℕ → (OutboxEvent → OutboxEvent) → AnalysisDb → AnalysisDb
change_event id f db = with_events (update_first (is_event id) f db.mail.outbox) db

abbrev pub claimed : OutboxEvent → OutboxEvent
claimed e = record e { status = processing; attempts = e.attempts + 1 }

-- The oldest event that is available, as it stands in the table then.
unfoldable pub claim : ℕ → AnalysisDb → Option OutboxEvent × AnalysisDb
claim now db = elim (find_first (is_available now) db.mail.outbox) [
  | none ↦ (none, db)
  | some e ↦ (some (claimed e), change_event e.aggregate_id claimed db)
]

abbrev pub completed : ℕ → OutboxEvent → OutboxEvent
completed now e = record e { status = processed; processed_at = some now; last_error = none }

unfoldable pub complete : OutboxEvent → ℕ → AnalysisDb → AnalysisDb
complete event now db = change_event event.aggregate_id (completed now) db

-- 2 ** n
abbrev pub power_of_two : ℕ → ℕ
power_of_two zero = 1
power_of_two (suc n) = 2 * power_of_two n

-- `min(3600, 2**attempts * 15)` seconds
abbrev pub backoff : ℕ → ℕ
backoff attempts = min 3600 (power_of_two attempts * 15)

abbrev pub refused : ℕ → ℕ → String → OutboxEvent → OutboxEvent
refused attempts now error e = record e {
  status = failed;
  last_error = some (clip 2000 error);
  available_at = now + backoff attempts;
}

-- `db` is what the transaction began with: `fail` rolls back before it writes.
unfoldable pub fail : OutboxEvent → String → ℕ → AnalysisDb → AnalysisDb
fail event error now db = change_event event.aggregate_id (refused event.attempts now error) db
