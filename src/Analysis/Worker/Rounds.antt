-- ===== src/Analysis/Worker/Rounds.antt =====
-- What any number of rounds of the worker does.
use mail_control.Base.{
  ℕ, ◌+◌, ◌≤◌, ◌≡◌, refl, ◌==◌, ◌&&◌, ◌⊎◌, inl, inr, Bool, true, none, some, List, [], ◌∷◌, arith,
  ◌∙◌, sym, ap, subst, find_first, find_first_passes, Option-cases, All, All-update_found,
  if◌then◌else◌, is_some,
}
use mail_control.Mail.Messages.{OutboxEvent, processed, is_event}
use mail_control.Mail.Messages.Outbox.{EventsAreUnique}
use mail_control.Analysis.Models.{AnalysisDb, EmailAnalysis}
use mail_control.Analysis.Outbox.{is_available, claimed, change_event, max_attempts}
use mail_control.Analysis.Outbox.Rows.{find_by_id, count_kept, budget, budget-update_found}
use mail_control.Analysis.Service.{Analyst, is_analysed, has_analysis}
use mail_control.Analysis.Service.Outcome.{
  outcome_keeps, outcome_analysed, AnalysesAreUnique, outcome-AnalysesAreUnique,
}
use mail_control.Analysis.Worker.{find_message, round, rounds}
use mail_control.Analysis.Worker.Settles.{
  Settled, lost, done, delayed, Settling, round-Settling, round_idle,
}

-- A processed event's message is analysed, or is not there any more.
abbrev pub IsHandled : AnalysisDb → OutboxEvent → Type 0
IsHandled db e =
    e.status ≡ processed
    → (find_message e.tenant_id e.aggregate_id db ≡ none) ⊎ (is_analysed e.aggregate_id db ≡ true)

pub record IsOrderly (db : AnalysisDb) : Type 0 where
  pub events : EventsAreUnique db.mail.outbox
  pub attempts : All (λ e. e.attempts ≤ max_attempts) db.mail.outbox
  pub analyses : AnalysesAreUnique db.analyses
  pub handled : All (IsHandled db) db.mail.outbox

pub settled_fields :
    {now : ℕ} {x : OutboxEvent} {db : AnalysisDb} {last : OutboxEvent → OutboxEvent}
    {rows : List EmailAnalysis}
    → Settled now x db last rows
    → (e : OutboxEvent)
    → ((last e).aggregate_id ≡ e.aggregate_id)
      × ((last e).attempts ≡ e.attempts)
      × ((last e).tenant_id ≡ e.tenant_id)
settled_fields (lost h) e = (refl, refl, refl)
settled_fields (done m db' h k) e = (refl, refl, refl)
settled_fields (delayed error) e = (refl, refl, refl)

settled-AnalysesAreUnique :
    {now : ℕ} {x : OutboxEvent} {db : AnalysisDb} {last : OutboxEvent → OutboxEvent}
    {rows : List EmailAnalysis}
    → Settled now x db last rows
    → AnalysesAreUnique db.analyses
    → AnalysesAreUnique rows
settled-AnalysesAreUnique (lost h) u = u
settled-AnalysesAreUnique {db = db} (done m db' h k) u = outcome-AnalysesAreUnique m db db' k u
settled-AnalysesAreUnique (delayed error) u = u

abbrev HasAnalysis : ℕ → List EmailAnalysis → Type 0
HasAnalysis id rows = is_some (find_first (has_analysis id) rows) ≡ true

settled_keeps :
    {now : ℕ} {x : OutboxEvent} {db : AnalysisDb} {last : OutboxEvent → OutboxEvent}
    {rows : List EmailAnalysis}
    → Settled now x db last rows
    → (id : ℕ) → HasAnalysis id db.analyses
    → HasAnalysis id rows
settled_keeps (lost h) id a = a
settled_keeps {db = db} (done m db' h k) id a = outcome_keeps id m db db' k a
settled_keeps (delayed error) id a = a

-- The event of the round, if it is processed then, is handled.
settled_own :
    {now : ℕ} {x : OutboxEvent} {db : AnalysisDb} {last : OutboxEvent → OutboxEvent}
    {rows : List EmailAnalysis}
    → Settled now x db last rows
    → (e : OutboxEvent) → (last e).status ≡ processed
    → (find_message x.tenant_id x.aggregate_id db ≡ none) ⊎ HasAnalysis x.aggregate_id rows
settled_own (lost h) e p = inl h
settled_own {x = x} {db = db} (done m db' h k) e p =
    let found = find_first_passes _ m db.mail.messages h in
    let own : m.id ≡ x.aggregate_id = ground (arith, found) in
    inr (subst (λ id. HasAnalysis id db'.analyses) own (outcome_analysed m db db' k))
settled_own (delayed error) e p = absurd (ground (arith, p))

-- The messages are the same before and after.
carried :
    (tenant id : ℕ) (db db' : AnalysisDb)
    → db'.mail.messages ≡ db.mail.messages
    → (find_message tenant id db ≡ none) ⊎ HasAnalysis id db'.analyses
    → (find_message tenant id db' ≡ none) ⊎ HasAnalysis id db'.analyses
carried tenant id db db' same (inl h) =
    inl (ap (find_first (λ m. m.tenant_id == tenant && m.id == id)) same ∙ h)
carried tenant id db db' same (inr h) = inr h

earlier :
    {now : ℕ} {x : OutboxEvent} {start : AnalysisDb} {last : OutboxEvent → OutboxEvent}
    {rows : List EmailAnalysis} (db : AnalysisDb) (tenant id : ℕ)
    → Settled now x start last rows
    → (find_message tenant id db ≡ none) ⊎ HasAnalysis id start.analyses
    → (find_message tenant id db ≡ none) ⊎ HasAnalysis id rows
earlier db tenant id k (inl h) = inl h
earlier db tenant id k (inr h) = inr (settled_keeps k id h)

module _ (w : Analyst) (now : ℕ) where
  Settling-IsOrderly :
      (x : OutboxEvent) (db db' : AnalysisDb)
      → find_first (is_available now) db.mail.outbox ≡ some x
      → Settling now x db db'
      → IsOrderly db
      → IsOrderly db'
  Settling-IsOrderly x db db' h k o =
      let start = change_event x.aggregate_id claimed db in
      let found = find_by_id (is_available now) x db.mail.outbox o.events h in
      let messages = k.same_messages in
      let write : OutboxEvent → OutboxEvent = λ e. k.last (claimed e) in
      record {
        events = λ id. ground (
          arith,
          o.events id,
          k.row,
          count_kept x.aggregate_id id write db.mail.outbox
              (λ e. (settled_fields k.settled (claimed e)).0),
        );
        attempts = subst (All (λ e. e.attempts ≤ max_attempts)) (sym k.row) (
            All-update_found (λ e. e.attempts ≤ max_attempts) _ (is_event x.aggregate_id) write x
              db.mail.outbox found (λ e a. a)
              (λ a. ground (
                arith,
                find_first_passes (is_available now) x db.mail.outbox h,
                settled_fields k.settled (claimed x),
              ))
              o.attempts);
        analyses = settled-AnalysesAreUnique k.settled o.analyses;
        handled = subst (All (IsHandled db')) (sym k.row) (
            All-update_found (IsHandled db) (IsHandled db') (is_event x.aggregate_id) write x
              db.mail.outbox found
              (λ e a p.
                carried e.tenant_id e.aggregate_id db db' messages
                  (earlier db e.tenant_id e.aggregate_id k.settled (a p)))
              (λ a p.
                let fields = settled_fields k.settled (claimed x) in
                rw (fields.0, fields.2)
                  (carried x.tenant_id x.aggregate_id db db' messages
                    (settled_own k.settled (claimed x) p)))
              o.handled);
      }

  pub round-IsOrderly : (db : AnalysisDb) → IsOrderly db → IsOrderly (round w now db).1
  round-IsOrderly db o = elim (Option-cases (find_first (is_available now) db.mail.outbox)) [
    | inl idle ↦ rw (round_idle w now db idle) o
    | inr (x, h) ↦ Settling-IsOrderly x db _ h (round-Settling w now x db h).1 o
  ]

  Settling-budget :
      (x : OutboxEvent) (db : AnalysisDb) (r : Bool × AnalysisDb)
      → find_first (is_available now) db.mail.outbox ≡ some x
      → (r.0 ≡ true) × Settling now x db r.1
      → IsOrderly db
      → (if r.0 then 1 else 0) + budget r.1.mail.outbox ≡ budget db.mail.outbox
  Settling-budget x db r h (claims, k) o =
      let write : OutboxEvent → OutboxEvent = λ e. k.last (claimed e) in
      ground (
        arith,
        claims,
        k.row,
        budget-update_found (is_event x.aggregate_id) write x db.mail.outbox
            (find_by_id (is_available now) x db.mail.outbox o.events h),
        find_first_passes (is_available now) x db.mail.outbox h,
        settled_fields k.settled (claimed x),
      )

  -- A claim costs the budget one.
  round-budget :
      (db : AnalysisDb)
      → IsOrderly db
      → (if (round w now db).0 then 1 else 0) + budget (round w now db).1.mail.outbox
        ≡ budget db.mail.outbox
  round-budget db o = elim (Option-cases (find_first (is_available now) db.mail.outbox)) [
    | inl idle ↦ rw (round_idle w now db idle) (omega arith)
    | inr (x, h) ↦ Settling-budget x db _ h (round-Settling w now x db h) o
  ]

module _ (w : Analyst) where
  -- Events stay unique and are tried eight times at most, a message is analysed once at most, and an
  -- event is processed only when its message is analysed or is gone, whatever the messages hold,
  -- whatever the model answers or raises, and however many rounds the worker makes.
  pub rounds-IsOrderly :
      (times : List ℕ) (db : AnalysisDb) → IsOrderly db → IsOrderly (rounds w times db).1
  unfolding rounds
  rounds-IsOrderly [] db o = o
  rounds-IsOrderly (now ∷ later) db o =
      rounds-IsOrderly later (round w now db).1 (round-IsOrderly w now db o)

  -- However long the worker runs, it claims events as often as they have attempts left before, and no
  -- more: the claims and the attempts left after them are together the attempts left before.
  pub rounds-budget :
      (times : List ℕ) (db : AnalysisDb)
      → IsOrderly db
      → (rounds w times db).0 + budget (rounds w times db).1.mail.outbox ≡ budget db.mail.outbox
  unfolding rounds
  rounds-budget [] db o = omega arith
  rounds-budget (now ∷ later) db o = omega (
    arith,
    rounds-budget later (round w now db).1 (round-IsOrderly w now db o),
    round-budget w now db o,
  )
