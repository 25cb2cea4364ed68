-- ===== src/Analysis/Worker.antt =====
-- analysis_worker.py: one round of its loop.
pub mod Settles
pub mod Rounds
pub mod Interrupted
use mail_control.Base.{
  ℕ, ◌+◌, if◌then◌else◌, String, Bool, true, false, ◌&&◌, Option, none, some, List, [], ◌∷◌, ◌==◌,
  find_first,
}
use mail_control.Base.Exec.{Result, ok, err}
use mail_control.Mail.Messages.{EmailMessage, OutboxEvent}
use mail_control.Analysis.Models.{AnalysisDb}
use mail_control.Analysis.Outbox.{claim, complete, fail}
use mail_control.Analysis.Service.{Analyst, process}

-- `repository.message`
abbrev pub find_message : ℕ → ℕ → AnalysisDb → Option EmailMessage
find_message tenant id db = find_first (λ m. m.tenant_id == tenant && m.id == id) db.mail.messages

module _ (w : Analyst) (now : ℕ) where
  settle : OutboxEvent → AnalysisDb → Result String AnalysisDb → AnalysisDb
  settle event db (ok db') = db'
  settle event db (err e) = fail event e now db

  on_message : OutboxEvent → Option EmailMessage → AnalysisDb → AnalysisDb
  unfolding settle
  on_message event none db = complete event now db
  on_message event (some m) db = settle event db (process w event m now db)

  on_claim : Option OutboxEvent × AnalysisDb → Bool × AnalysisDb
  unfolding on_message
  on_claim (none, db) = (false, db)
  on_claim (some e, db) = (true, on_message e (find_message e.tenant_id e.aggregate_id db) db)

  -- Whether an event was claimed, and the tables. `claim` commits, so that a failure rolls back to
  -- the claimed event.
  unfoldable pub round : AnalysisDb → Bool × AnalysisDb
  unfolding on_claim
  round db = on_claim (claim now db)

-- Rounds at the times of a list, one after the other: how many events they claim, and the tables.
module _ (w : Analyst) where
  unfoldable pub rounds : List ℕ → AnalysisDb → ℕ × AnalysisDb
  unfolding round
  rounds [] db = (0, db)
  rounds (now ∷ later) db =
      let (claimed, db') = round w now db in
      let (claims, db'') = rounds later db' in ((if claimed then 1 else 0) + claims, db'')
