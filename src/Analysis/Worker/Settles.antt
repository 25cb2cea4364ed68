-- ===== src/Analysis/Worker/Settles.antt =====
-- What one round of the worker does to the event that it claims: analysis_worker.py.
use mail_control.Base.{
  ℕ, ◌+◌, ◌≡◌, refl, String, true, false, Option, none, some, List, ◌∙◌, sym, ap, subst, find_first,
  update_first,
}
use mail_control.Base.Exec.{Result, ok, err}
use mail_control.Mail.Messages.{EmailMessage, OutboxEvent, is_event}
use mail_control.Analysis.Models.{AnalysisDb, EmailAnalysis}
use mail_control.Analysis.Outbox.{
  is_available, claimed, claim, change_event, completed, complete, refused, fail,
}
use mail_control.Analysis.Outbox.Rows.{update_twice}
use mail_control.Analysis.Service.{Analyst, analysed, process}
use mail_control.Analysis.Service.Outcome.{IsOutcome, analysed-IsOutcome}
use mail_control.Analysis.Worker.{find_message, settle, on_message, on_claim, round}

-- What becomes of a claimed event: its last write, and the analyses that the round leaves.
pub data Settled (now : ℕ) (x : OutboxEvent) (db : AnalysisDb)
    : (OutboxEvent → OutboxEvent) → List EmailAnalysis → Type 0 where
  -- the message is not there any more
  lost :
      find_message x.tenant_id x.aggregate_id db ≡ none
      → Settled now x db (completed now) db.analyses
  -- the message has its analysis, old or new
  done :
      (m : EmailMessage) (db' : AnalysisDb)
      → find_message x.tenant_id x.aggregate_id db ≡ some m
      → IsOutcome m db db'
      → Settled now x db (completed now) db'.analyses
  -- an error: the event waits for its next attempt
  delayed : (e : String) → Settled now x db (refused (x.attempts + 1) now e) db.analyses

pub record Settling (now : ℕ) (x : OutboxEvent) (db db' : AnalysisDb) : Type 0 where
  pub last : OutboxEvent → OutboxEvent
  pub settled : Settled now x (change_event x.aggregate_id claimed db) last db'.analyses
  pub same_messages : db'.mail.messages ≡ db.mail.messages
  pub row :
      db'.mail.outbox
      ≡ update_first (is_event x.aggregate_id) (λ e. last (claimed e)) db.mail.outbox

module _ (w : Analyst) (now : ℕ) where
  settle-Settling :
      (x : OutboxEvent) (m : EmailMessage) (db : AnalysisDb) (r : Result String AnalysisDb)
      → let start = change_event x.aggregate_id claimed db in
        find_message x.tenant_id x.aggregate_id start ≡ some m
        → ((db' : AnalysisDb) → r ≡ ok db' → IsOutcome m start db')
        → Settling now x db (
            settle w now
              (claimed x)
              start
              (elim r [ err e ↦ err e | ok db' ↦ ok (complete (claimed x) now db') ]))
  unfolding settle complete fail
  settle-Settling x m db (err e) there out = record {
    last = refused (x.attempts + 1) now e;
    settled = Settled.delayed e;
    same_messages = refl;
    row = update_twice x.aggregate_id claimed _ db.mail.outbox (λ y. refl);
  }
  settle-Settling x m db (ok db') there out =
      let k = out db' refl in
      record {
        last = completed now;
        settled = Settled.done m db' there k;
        same_messages = ap (λ d. d.messages) k.same_mail;
        row =
            ap (λ d. update_first (is_event x.aggregate_id) (completed now) d.outbox) k.same_mail
            ∙ update_twice x.aggregate_id claimed (completed now) db.mail.outbox (λ y. refl);
      }

  on_message-Settling :
      (x : OutboxEvent) (o : Option EmailMessage) (db : AnalysisDb)
      → let start = change_event x.aggregate_id claimed db in
        find_message x.tenant_id x.aggregate_id start ≡ o
        → Settling now x db (on_message w now (claimed x) o start)
  unfolding on_message process complete
  on_message-Settling x none db h = record {
    last = completed now;
    settled = Settled.lost h;
    same_messages = refl;
    row = update_twice x.aggregate_id claimed (completed now) db.mail.outbox (λ y. refl);
  }
  on_message-Settling x (some m) db h =
      let start = change_event x.aggregate_id claimed db in
      settle-Settling x m db (analysed w m start) h (λ db' e. analysed-IsOutcome w m start db' e)

  claim_found :
      (x : OutboxEvent) (db : AnalysisDb)
      → find_first (is_available now) db.mail.outbox ≡ some x
      → claim now db ≡ (some (claimed x), change_event x.aggregate_id claimed db)
  unfolding claim
  claim_found x db h = rw (claim, h) refl

  claim-none :
      (db : AnalysisDb)
      → find_first (is_available now) db.mail.outbox ≡ none
      → claim now db ≡ (none, db)
  unfolding claim
  claim-none db h = rw (claim, h) refl

  pub round-Settling :
      (x : OutboxEvent) (db : AnalysisDb)
      → find_first (is_available now) db.mail.outbox ≡ some x
      → ((round w now db).0 ≡ true) × Settling now x db (round w now db).1
  unfolding round on_claim
  round-Settling x db h =
      let e = claim_found x db h in
      (
        ap (λ c. (on_claim w now c).0) e,
        subst (λ c. Settling now x db (on_claim w now c).1) (sym e)
            (on_message-Settling x _ db refl),
      )

  pub round_idle :
      (db : AnalysisDb)
      → find_first (is_available now) db.mail.outbox ≡ none
      → round w now db ≡ (false, db)
  unfolding round on_claim
  round_idle db h = ap (on_claim w now) (claim-none db h)
