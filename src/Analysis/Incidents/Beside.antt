-- ===== src/Analysis/Incidents/Beside.antt =====
-- What reconciling incidents leaves alone: modules/analysis/repository.py.
use mail_control.Base.{
  ℕ, ◌≡◌, refl, String, Bool, not, List, [], ◌∷◌, ◌∙◌, find_first, Bool-cases, Option-cases, inl,
  inr,
}
use mail_control.Analysis.Models.{AnalysisDb, is_resolved, alert_of}
use mail_control.Analysis.Incidents.{
  IncidentEvent, upsert_incident, has_key, resolve_matching_alerts, resolve_matching_of,
  resolve_rejected_backfill_alert, resolve_rejected_of, reconcile_event, reconcile_all,
}

-- The tables of messages, events, cursors and analyses.
pub record IsBeside (db db' : AnalysisDb) : Type 0 where
  pub mail : db'.mail ≡ db.mail
  pub analyses : db'.analyses ≡ db.analyses

IsBeside-trans : (a b c : AnalysisDb) → IsBeside a b → IsBeside b c → IsBeside a c
IsBeside-trans a b c h k = record { mail = k.mail ∙ h.mail; analyses = k.analyses ∙ h.analyses }

-- All tables but that of the alerts.
pub record IsAroundAlerts (db db' : AnalysisDb) : Type 0 where
  pub beside : IsBeside db db'
  pub incidents : db'.incidents ≡ db.incidents

same_tables : (db : AnalysisDb) → IsBeside db db
same_tables db = record { mail = refl; analyses = refl }

module _ (sql_key : String → String) (created_at : ℕ → ℕ) where
  pub resolve_matching-IsAroundAlerts :
      (e : IncidentEvent) (b : Bool) (db : AnalysisDb)
      → IsAroundAlerts db (resolve_matching_alerts sql_key created_at e b db)
  unfolding resolve_matching_alerts resolve_matching_of
  resolve_matching-IsAroundAlerts e b db = elim (Option-cases (alert_of e.key.incident_type)) [
    | inl absent ↦ rw absent (record { beside = same_tables db; incidents = refl })
    | inr (t, known) ↦
        rw known (record { beside = record { mail = refl; analyses = refl }; incidents = refl })
  ]

  pub resolve_rejected-IsAroundAlerts :
      (e : IncidentEvent) (db : AnalysisDb)
      → IsAroundAlerts db (resolve_rejected_backfill_alert sql_key created_at e db)
  unfolding resolve_rejected_backfill_alert resolve_rejected_of
  resolve_rejected-IsAroundAlerts e db = elim (Option-cases (alert_of e.key.incident_type)) [
    | inl absent ↦ rw absent (record { beside = same_tables db; incidents = refl })
    | inr (t, known) ↦ elim (Option-cases (find_first (has_key e.key) db.incidents)) [
      | inl out ↦ rw (known, out) (record { beside = same_tables db; incidents = refl })
      | inr (row, there) ↦
          rw (known, there)
            (record { beside = record { mail = refl; analyses = refl }; incidents = refl })
    ]
  ]

  reconcile_event-IsBeside :
      (e : IncidentEvent) (db : AnalysisDb) → IsBeside db (reconcile_event sql_key created_at e db)
  unfolding reconcile_event
  reconcile_event-IsBeside e db =
      let db1 : AnalysisDb = record db { incidents = (upsert_incident e db.incidents).0 } in
      let start : IsBeside db db1 = record { mail = refl; analyses = refl } in
      elim (Bool-cases (upsert_incident e db.incidents).1) [
        | inl changed ↦ rw changed (
            IsBeside-trans db db1 _ start
              (resolve_matching-IsAroundAlerts e (not (is_resolved e.status)) db1).beside)
        | inr kept ↦ elim (Bool-cases (is_resolved e.status)) [
          | inl closes ↦ rw (kept, closes) start
          | inr opens ↦
              rw (kept, opens)
                (IsBeside-trans db db1 _ start (resolve_rejected-IsAroundAlerts e db1).beside)
        ]
      ]

  pub reconcile_all-IsBeside :
      (es : List IncidentEvent) (db : AnalysisDb)
      → IsBeside db (reconcile_all sql_key created_at es db)
  unfolding reconcile_all
  reconcile_all-IsBeside [] db = same_tables db
  reconcile_all-IsBeside (e ∷ es) db =
      IsBeside-trans db (reconcile_event sql_key created_at e db) _ (reconcile_event-IsBeside e db)
        (reconcile_all-IsBeside es (reconcile_event sql_key created_at e db))
