-- ===== src/Analysis/Incidents.antt =====
-- `reconcile_incidents` of modules/analysis/repository.py: an incident follows the newest event.
pub mod Beside
pub mod Ages
pub mod Newest
use mail_control.Base.{
  ℕ, ◌+◌, String, Bool, true, false, ◌&&◌, ◌||◌, not, Option, none, some, List, [], ◌∷◌, ◌++◌, ◌==◌,
  same, ltb, leb, if◌then◌else◌, find_first, update_first, update_where, is_none, is_some, or_else,
  any,
}
use mail_control.Mail.Messages.{EmailMessage}
use mail_control.Analysis.Models.{
  AnalysisDb, AnalysisIncident, IncidentKey, same_incident_key, IncidentStatus, active, resolved,
  is_resolved, IncidentType, alert_of, same_alert, AlertType, Alert, EmailAnalysis, category_value,
}

-- An event about an incident: the values of the INSERT.
pub record IncidentEvent : Type 0 where
  pub key : IncidentKey
  pub status : IncidentStatus
  pub analysis_id : ℕ
  pub message_id : ℕ
  pub reason : String
  pub event_at : ℕ

abbrev only_if : Bool → ℕ → Option ℕ
only_if b t = if b then some t else none

-- `insert(AnalysisIncident).values(**values)`
abbrev pub incident_row : IncidentEvent → AnalysisIncident
incident_row e = record {
  key = e.key;
  status = e.status;
  current_analysis_id = e.analysis_id;
  current_message_id = e.message_id;
  opened_at = only_if (not (is_resolved e.status)) e.event_at;
  resolved_at = only_if (is_resolved e.status) e.event_at;
  resolution_reason = if is_resolved e.status then some e.reason else none;
  last_event_received_at = e.event_at;
}

-- The WHERE clause of ON CONFLICT DO UPDATE.
abbrev pub supersedes : IncidentEvent → AnalysisIncident → Bool
supersedes e row =
    ltb row.last_event_received_at e.event_at
    || (row.last_event_received_at == e.event_at && is_resolved e.status)

abbrev pub has_key : IncidentKey → AnalysisIncident → Bool
has_key k row = same_incident_key row.key k

abbrev upsert_found :
    Option AnalysisIncident → IncidentEvent → List AnalysisIncident → List AnalysisIncident × Bool
upsert_found none e rows = (rows ++ incident_row e ∷ [], true)
upsert_found (some row) e rows =
    if supersedes e row
    then (update_first (has_key e.key) (λ old. incident_row e) rows, true)
    else (rows, false)

-- `_upsert_incident`: the table, and whether a row came back.
unfoldable pub upsert_incident :
    IncidentEvent → List AnalysisIncident → List AnalysisIncident × Bool
upsert_incident e rows = upsert_found (find_first (has_key e.key) rows) e rows

-- The SQL text key of an analysis: COALESCE of the columns, LOWER, and all but [a-z0-9] deleted.
-- `created_at` is the time stamp of a message's row.
module _ (sql_key : String → String) (created_at : ℕ → ℕ) where
  abbrev pub row_key : EmailAnalysis → String
  row_key a =
      sql_key
        (or_else a.result.platform (or_else a.result.service (category_value a.result.category)))

  -- `message.received_at or message.created_at`
  abbrev pub event_time : EmailMessage → ℕ
  event_time m = or_else m.received_at (created_at m.id)

  abbrev analysis_matches : Option EmailAnalysis → String → Bool
  analysis_matches none service_key = false
  analysis_matches (some a) service_key = same (row_key a) service_key

  abbrev message_matches : Option EmailMessage → ℕ → ℕ → Bool
  message_matches none account event_at = false
  message_matches (some m) account event_at =
      m.mail_account_id == account && leb (event_time m) event_at

  -- The WHERE clause of `matching`, with its two joins.
  abbrev pub is_matching : AnalysisDb → IncidentEvent → AlertType → Alert → Bool
  is_matching db e t a =
      a.tenant_id == e.key.tenant
      && same_alert a.alert_type t
      && is_none a.resolved_at
      && message_matches (find_first (λ m. m.id == a.email_message_id) db.mail.messages)
          e.key.account e.event_at
      && analysis_matches (find_first (λ n. n.id == a.analysis_id) db.analyses) e.key.service_key

  abbrev resolve_at : ℕ → Alert → Alert
  resolve_at t a = record a { resolved_at = some t }

  resolve_matching_of : Option AlertType → IncidentEvent → Bool → AnalysisDb → AnalysisDb
  resolve_matching_of none e exclude_current db = db
  resolve_matching_of (some t) e exclude_current db = record db {
    alerts =
        update_where
          (λ a. is_matching db e t a && not (exclude_current && a.analysis_id == e.analysis_id))
          (resolve_at e.event_at) db.alerts;
  }

  -- `_resolve_matching_alerts`
  pub resolve_matching_alerts : IncidentEvent → Bool → AnalysisDb → AnalysisDb
  unfolding resolve_matching_of
  resolve_matching_alerts e exclude_current db =
      resolve_matching_of (alert_of e.key.incident_type) e exclude_current db

  resolve_rejected_of :
      Option AlertType → Option AnalysisIncident → IncidentEvent → AnalysisDb → AnalysisDb
  resolve_rejected_of (some t) (some row) e db = record db {
    alerts =
        update_where
          (λ a.
            a.tenant_id == e.key.tenant
            && a.analysis_id == e.analysis_id
            && same_alert a.alert_type t
            && is_none a.resolved_at)
          (resolve_at row.last_event_received_at) db.alerts;
  }
  resolve_rejected_of _ _ e db = db

  -- `_resolve_rejected_backfill_alert`
  pub resolve_rejected_backfill_alert : IncidentEvent → AnalysisDb → AnalysisDb
  unfolding resolve_rejected_of
  resolve_rejected_backfill_alert e db =
      resolve_rejected_of (alert_of e.key.incident_type) (find_first (has_key e.key) db.incidents) e
        db

  -- One round of the loops over `opened` and `resolved`.
  pub reconcile_event : IncidentEvent → AnalysisDb → AnalysisDb
  unfolding resolve_matching_alerts resolve_rejected_backfill_alert
  reconcile_event e db =
      let (incidents, changed) = upsert_incident e db.incidents in
      let db' = record db { incidents = incidents } in
      if changed
      then resolve_matching_alerts e (not (is_resolved e.status)) db'
      else if is_resolved e.status
      then db'
      else resolve_rejected_backfill_alert e db'

  unfoldable pub reconcile_all : List IncidentEvent → AnalysisDb → AnalysisDb
  reconcile_all [] db = db
  reconcile_all (e ∷ es) db = reconcile_all es (reconcile_event e db)

abbrev pub incident_event :
    EmailMessage → EmailAnalysis → String → ℕ → IncidentStatus → IncidentType → IncidentEvent
incident_event m a service_key event_at status type = record {
  key = record {
    tenant = m.tenant_id;
    account = m.mail_account_id;
    service_key = service_key;
    incident_type = type;
  };
  status = status;
  analysis_id = a.id;
  message_id = m.id;
  reason = a.result.email_type;
  event_at = event_at;
}

abbrev pub events_of :
    EmailMessage
    → EmailAnalysis
    → String
    → ℕ
    → IncidentStatus
    → List IncidentType
    → List IncidentEvent
events_of m a service_key event_at status [] = []
events_of m a service_key event_at status (t ∷ ts) =
    incident_event m a service_key event_at status t ∷ events_of m a service_key event_at status ts

-- `reconcile_incidents`: with no types nothing is done.
module _ (sql_key : String → String) (created_at : ℕ → ℕ) where
  unfoldable pub reconcile_incidents :
      EmailMessage
      → EmailAnalysis
      → String
      → List IncidentType
      → List IncidentType
      → AnalysisDb
      → AnalysisDb
  unfolding reconcile_all
  reconcile_incidents m a service_key opened closed db =
      let at = event_time sql_key created_at m in
      reconcile_all sql_key created_at
        (events_of m a service_key at active opened ++ events_of m a service_key at resolved closed)
        db
