-- ===== src/Analysis/Worker/Interrupted.antt =====
-- An event whose worker ended between `claim` and the end of its round.
use mail_control.Base.{
  ℕ, ◌≡◌, ◌≢◌, refl, some, List, [], ◌∷◌, arith, ◌∙◌, sym, ap, subst, find_first, update_first,
  find_first_passes, Option-cases, inl, inr,
}
use mail_control.Mail.Messages.{OutboxEvent, processing, is_event}
use mail_control.Analysis.Models.{AnalysisDb}
use mail_control.Analysis.Outbox.{is_available, claimed}
use mail_control.Analysis.Outbox.Rows.{find_by_id}
use mail_control.Analysis.Service.{Analyst}
use mail_control.Analysis.Worker.{round, rounds}
use mail_control.Analysis.Worker.Settles.{round-Settling, round_idle}
use mail_control.Analysis.Worker.Rounds.{IsOrderly, settled_fields, round-IsOrderly}

find_elsewhere :
    (id own : ℕ) (f : OutboxEvent → OutboxEvent) (es : List OutboxEvent)
    → id ≢ own
    → ((e : OutboxEvent) → (f e).aggregate_id ≡ e.aggregate_id)
    → find_first (is_event id) (update_first (is_event own) f es) ≡ find_first (is_event id) es
find_elsewhere id own f [] h keep = refl
find_elsewhere id own f (e ∷ es) h keep =
    ground (arith, h, keep e, find_elsewhere id own f es h keep)

module _ (w : Analyst) (id : ℕ) (e : OutboxEvent) where
  other_id :
      (now : ℕ) (x : OutboxEvent) (db : AnalysisDb)
      → IsOrderly db
      → find_first (is_event id) db.mail.outbox ≡ some e
      → e.status ≡ processing
      → find_first (is_available now) db.mail.outbox ≡ some x
      → id ≢ x.aggregate_id
  other_id now x db o h p found own =
      let same : find_first (is_event id) db.mail.outbox ≡ some x =
        subst (λ i. find_first (is_event i) db.mail.outbox ≡ some x) (sym own)
          (find_by_id (is_available now) x db.mail.outbox o.events found) in
      ground (arith, h, same, p, find_first_passes (is_available now) x db.mail.outbox found)

  round_passes_over :
      (now : ℕ) (db : AnalysisDb)
      → IsOrderly db
      → find_first (is_event id) db.mail.outbox ≡ some e
      → e.status ≡ processing
      → find_first (is_event id) (round w now db).1.mail.outbox ≡ some e
  round_passes_over now db o h p =
      elim (Option-cases (find_first (is_available now) db.mail.outbox)) [
        | inl idle ↦ rw (round_idle w now db idle) h
        | inr (x, found) ↦
            (let k = (round-Settling w now x db found).1 in
              ap (find_first (is_event id)) k.row
              ∙ find_elsewhere id x.aggregate_id (λ y. k.last (claimed y)) db.mail.outbox
                  (other_id now x db o h p found) (λ y. (settled_fields k.settled (claimed y)).0)
              ∙ h)
      ]

  -- An event that stands as `processing` when the worker starts is never claimed again: after any
  -- number of rounds its row is as it was.
  pub rounds_pass_over :
      (times : List ℕ) (db : AnalysisDb)
      → IsOrderly db
      → find_first (is_event id) db.mail.outbox ≡ some e
      → e.status ≡ processing
      → find_first (is_event id) (rounds w times db).1.mail.outbox ≡ some e
  unfolding rounds
  rounds_pass_over [] db o h p = h
  rounds_pass_over (now ∷ later) db o h p =
      rounds_pass_over later (round w now db).1 (round-IsOrderly w now db o)
        (round_passes_over now db o h p) p
