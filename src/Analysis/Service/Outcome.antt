-- ===== src/Analysis/Service/Outcome.antt =====
-- What `AnalysisService.process` leaves in the tables: modules/analysis/service.py.
use mail_control.Base.{
  ℕ, ◌+◌, ◌≡◌, refl, ◌⊎◌, inl, inr, String, Bool, true, false, Option, List, [], ◌∷◌, ◌++◌, arith,
  ◌∙◌, subst, Bool-cases, ◌≤◌, is_some, find_first, count_if, count_if-append, count_if-find_first,
}
use mail_control.Base.Exec.{Result, ok, err}
use mail_control.Mail.Messages.{EmailMessage}
use mail_control.Analysis.Models.{
  AnalysisDb, AnalysisResult, EmailAnalysis, AlertType, IncidentType, active, resolved,
}
use mail_control.Analysis.Transition.{
  EmailData, suppress_confirmed_payment_alerts, deduplicate_alert_types, incident_transition,
}
use mail_control.Analysis.Incidents.{event_time, events_of, reconcile_incidents}
use mail_control.Analysis.Incidents.Beside.{IsBeside, reconcile_all-IsBeside}
use mail_control.Analysis.Service.{
  Analyst, add_alerts, has_analysis, is_analysed, record_result, with_result, with_body, analysed,
  new_analysis,
}

add_alerts-IsBeside :
    (m : EmailMessage) (analysis_id : ℕ) (r : AnalysisResult) (ts : List AlertType)
    (db : AnalysisDb)
    → IsBeside db (add_alerts m analysis_id r ts db)
unfolding add_alerts
add_alerts-IsBeside m analysis_id r [] db = record { mail = refl; analyses = refl }
add_alerts-IsBeside m analysis_id r (t ∷ ts) db =
    let k = add_alerts-IsBeside m analysis_id r ts _ in
    record { mail = k.mail; analyses = k.analyses }

-- The message was analysed before, or its one new analysis stands at the end of the table.
pub record IsOutcome (m : EmailMessage) (db db' : AnalysisDb) : Type 0 where
  pub same_mail : db'.mail ≡ db.mail
  pub analysis :
      ((db'.analyses ≡ db.analyses) × (is_analysed m.id db ≡ true))
      ⊎ ((is_analysed m.id db ≡ false)
          × (a : EmailAnalysis) × (a.email_message_id ≡ m.id)
          × (db'.analyses ≡ db.analyses ++ a ∷ []))

module _ (w : Analyst) where
  reconcile-IsBeside :
      (m : EmailMessage) (a : EmailAnalysis) (key : String) (opened closed : List IncidentType)
      (db : AnalysisDb)
      → IsBeside db (reconcile_incidents w.sql_key w.created_at m a key opened closed db)
  unfolding reconcile_incidents
  reconcile-IsBeside m a key opened closed db =
      let at = event_time w.sql_key w.created_at m in
      reconcile_all-IsBeside w.sql_key w.created_at
        (events_of m a key at active opened ++ events_of m a key at resolved closed) db

  record_result-IsOutcome :
      (m : EmailMessage) (d : EmailData) (raw : AnalysisResult) (db : AnalysisDb)
      → is_analysed m.id db ≡ false
      → IsOutcome m db (record_result w m d raw db)
  unfolding record_result
  record_result-IsOutcome m d raw db h =
      let r = deduplicate_alert_types (suppress_confirmed_payment_alerts w.ops raw d).1 in
      let a = new_analysis db.next_id m r w.model w.prompt_version in
      let db1 : AnalysisDb = record db {
        analyses = db.analyses ++ a ∷ [];
        next_id = db.next_id + 1;
      } in
      let l = add_alerts-IsBeside m a.id r r.alert_types db1 in
      let (opened, closed, key) = incident_transition w.ops w.ascii r d in
      let k = reconcile-IsBeside m a key opened closed (add_alerts m a.id r r.alert_types db1) in
      record { same_mail = k.mail ∙ l.mail; analysis = inr (h, a, refl, k.analyses ∙ l.analyses) }

  with_result-IsOutcome :
      (m : EmailMessage) (d : EmailData) (r : Result String AnalysisResult) (db db' : AnalysisDb)
      → is_analysed m.id db ≡ false
      → with_result w m d r db ≡ ok db'
      → IsOutcome m db db'
  unfolding with_result
  with_result-IsOutcome m d (err e) db db' new h = absurd (ground (arith, h))
  with_result-IsOutcome m d (ok raw) db db' new h =
      let e : record_result w m d raw db ≡ db' = ground (arith, h) in
      subst (IsOutcome m db) e (record_result-IsOutcome m d raw db new)

  with_body-IsOutcome :
      (m : EmailMessage) (b : Result String (Option String)) (db db' : AnalysisDb)
      → is_analysed m.id db ≡ false
      → with_body w m b db ≡ ok db'
      → IsOutcome m db db'
  unfolding with_body
  with_body-IsOutcome m (err e) db db' new h = absurd (ground (arith, h))
  with_body-IsOutcome m (ok body) db db' new h =
      with_result-IsOutcome m _ (w.analyze m) db db' new h

  pub analysed-IsOutcome :
      (m : EmailMessage) (db db' : AnalysisDb) → analysed w m db ≡ ok db' → IsOutcome m db db'
  unfolding analysed
  analysed-IsOutcome m db db' h = elim (Bool-cases (is_analysed m.id db)) [
    | inl before ↦
        (let e : db ≡ db' = ground (arith, h, before) in
          subst (IsOutcome m db) e (record { same_mail = refl; analysis = inl (refl, before) }))
    | inr new ↦ with_body-IsOutcome m (w.message_body m) db db' new (ground (arith, h, new))
  ]

-- What an outcome says of the table of analyses.
find_more :
    (p : EmailAnalysis → Bool) (xs ys : List EmailAnalysis)
    → is_some (find_first p xs) ≡ true
    → is_some (find_first p (xs ++ ys)) ≡ true
find_more p [] ys h = absurd (ground (arith, h))
find_more p (x ∷ xs) ys h = ground (arith, find_more p xs ys)

find_last :
    (p : EmailAnalysis → Bool) (a : EmailAnalysis) (xs : List EmailAnalysis)
    → p a ≡ true
    → is_some (find_first p (xs ++ a ∷ [])) ≡ true
find_last p a [] h = rw h refl
find_last p a (x ∷ xs) h = ground (arith, find_last p a xs)

pub outcome_keeps :
    (id : ℕ) (m : EmailMessage) (db db' : AnalysisDb)
    → IsOutcome m db db'
    → is_analysed id db ≡ true
    → is_analysed id db' ≡ true
outcome_keeps id m db db' k h = elim k.analysis [
  | inl (same, before) ↦ rw same h
  | inr (new, a, own, e) ↦ rw e (find_more (has_analysis id) db.analyses (a ∷ []) h)
]

pub outcome_analysed :
    (m : EmailMessage) (db db' : AnalysisDb) → IsOutcome m db db' → is_analysed m.id db' ≡ true
outcome_analysed m db db' k = elim k.analysis [
  | inl (same, before) ↦ rw same before
  | inr (new, a, own, e) ↦ rw e (find_last (has_analysis m.id) a db.analyses (ground (arith, own)))
]

-- One analysis for each message.
abbrev pub AnalysesAreUnique : List EmailAnalysis → Type 0
AnalysesAreUnique rows = (id : ℕ) → count_if (has_analysis id) rows ≤ 1

pub outcome-AnalysesAreUnique :
    (m : EmailMessage) (db db' : AnalysisDb)
    → IsOutcome m db db'
    → AnalysesAreUnique db.analyses
    → AnalysesAreUnique db'.analyses
outcome-AnalysesAreUnique m db db' k u id = elim k.analysis [
  | inl (same, before) ↦ rw same (u id)
  | inr (new, a, own, e) ↦ rw e (
      ground (
        arith,
        own,
        u id,
        count_if-append (has_analysis id) db.analyses (a ∷ []),
        count_if-find_first (has_analysis m.id) db.analyses,
      ))
]
