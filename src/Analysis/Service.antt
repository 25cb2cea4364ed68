-- ===== src/Analysis/Service.antt =====
-- `AnalysisService.process` of modules/analysis/service.py.
pub mod Outcome
use mail_control.Base.{
  ℕ, ◌+◌, String, Bool, true, false, Option, none, some, List, [], ◌∷◌, ◌++◌, ◌==◌, if◌then◌else◌,
  find_first, is_some, clip, truthy,
}
use mail_control.Base.Exec.{Result, ok, err}
use mail_control.Identity.Models.{TextOps}
use mail_control.Identity.Tokens.{append_text}
use mail_control.Mail.Messages.{EmailMessage, OutboxEvent}
use mail_control.Analysis.Models.{
  AnalysisDb, AnalysisResult, EmailAnalysis, Alert, AlertType, alert_value, category_value,
  RiskLevel,
}
use mail_control.Analysis.Transition.{
  EmailData, suppress_confirmed_payment_alerts, deduplicate_alert_types, incident_transition,
}
use mail_control.Analysis.Incidents.{reconcile_incidents}
use mail_control.Analysis.Outbox.{complete}

-- What a run of the service is given: `message_body` of a message, which may raise, the answer of
-- the external model, the library's text functions and the clock.
pub record Analyst : Type 0 where
  pub ops : TextOps
  pub ascii : String → String
  pub sql_key : String → String
  pub created_at : ℕ → ℕ
  pub message_body : EmailMessage → Result String (Option String)
  pub analyze : EmailMessage → Result String AnalysisResult
  pub model : String
  pub prompt_version : String

-- `body[:12000] if body else None`
abbrev clipped : Option String → Option String
clipped none = none
clipped (some s) = if truthy s then some (clip 12000 s) else none

abbrev pub analysis_input : EmailMessage → Option String → EmailData
analysis_input m body = record { subject = m.subject; snippet = m.snippet; body = clipped body }

abbrev pub new_analysis : ℕ → EmailMessage → AnalysisResult → String → String → EmailAnalysis
new_analysis id m r model prompt_version = record {
  id = id;
  tenant_id = m.tenant_id;
  email_message_id = m.id;
  result = r;
  model = model;
  prompt_version = prompt_version;
}

abbrev pub new_alert : ℕ → EmailMessage → ℕ → AnalysisResult → AlertType → Alert
new_alert id m analysis_id r t = record {
  id = id;
  tenant_id = m.tenant_id;
  email_message_id = m.id;
  analysis_id = analysis_id;
  alert_type = t;
  title = append_text (category_value r.category) (String.◌∷◌ ":" (String.◌∷◌ " " (alert_value t)));
  detail = r.action_required;
  risk_level = r.risk_level;
  resolved_at = none;
}

-- The loop that adds the alerts.
pub add_alerts : EmailMessage → ℕ → AnalysisResult → List AlertType → AnalysisDb → AnalysisDb
add_alerts m analysis_id r [] db = db
add_alerts m analysis_id r (t ∷ ts) db = add_alerts m analysis_id r ts (record db {
  alerts = db.alerts ++ new_alert db.next_id m analysis_id r t ∷ [];
  next_id = db.next_id + 1;
})

abbrev pub has_analysis : ℕ → EmailAnalysis → Bool
has_analysis message_id a = a.email_message_id == message_id

abbrev pub is_analysed : ℕ → AnalysisDb → Bool
is_analysed message_id db = is_some (find_first (has_analysis message_id) db.analyses)

module _ (w : Analyst) where
  -- After `client.analyze`: everything that the transaction writes.
  pub record_result : EmailMessage → EmailData → AnalysisResult → AnalysisDb → AnalysisDb
  unfolding add_alerts
  record_result m d raw db =
      let r = deduplicate_alert_types (suppress_confirmed_payment_alerts w.ops raw d).1 in
      let a = new_analysis db.next_id m r w.model w.prompt_version in
      let db1 = record db { analyses = db.analyses ++ a ∷ []; next_id = db.next_id + 1 } in
      let db2 = add_alerts m a.id r r.alert_types db1 in
      let (opened, closed, service_key) = incident_transition w.ops w.ascii r d in
      reconcile_incidents w.sql_key w.created_at m a service_key opened closed db2

  with_result :
      EmailMessage
      → EmailData
      → Result String AnalysisResult
      → AnalysisDb
      → Result String AnalysisDb
  unfolding record_result
  with_result m d (err e) db = err e
  with_result m d (ok raw) db = ok (record_result m d raw db)

  with_body : EmailMessage → Result String (Option String) → AnalysisDb → Result String AnalysisDb
  unfolding with_result
  with_body m (err e) db = err e
  with_body m (ok body) db = with_result m (analysis_input m body) (w.analyze m) db

  -- The tables at the end of the work, before `complete`; an error rolls them back.
  pub analysed : EmailMessage → AnalysisDb → Result String AnalysisDb
  unfolding with_body
  analysed m db = if is_analysed m.id db then ok db else with_body m (w.message_body m) db

  unfoldable pub process : OutboxEvent → EmailMessage → ℕ → AnalysisDb → Result String AnalysisDb
  unfolding analysed
  process event m now db = elim (analysed m db) [
    | err e ↦ err e
    | ok db' ↦ ok (complete event now db')
  ]
