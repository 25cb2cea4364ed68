-- ===== src/Analysis/Incidents/Newest.antt =====
-- An incident follows the newest of its events, in whatever order the worker meets them.
use mathlib.Core.List.{Perm, Permᴰ}
use mathlib.Core.Path.{Path}
use mathlib.Core.Quot
use mathlib.Core.Quot.{Quot}
use mathlib.Core.Logic.{∥∥₁_elim}
use native.Mathlib.Nat.{ℕ_set}
use mail_control.Base.{
  ℕ, max, ◌≡◌, refl, String, Option, none, some, List, [], ◌∷◌, arith, not, if◌then◌else◌,
  find_first, Bool-cases, inl, inr, ◌∙◌, sym, ap,
}
use mail_control.Analysis.Models.{
  AnalysisDb, AnalysisIncident, IncidentKey, same_incident_key, IncidentStatus, is_resolved, active,
  resolved,
}
use mail_control.Analysis.Incidents.{
  IncidentEvent, has_key, upsert_incident, reconcile_event, reconcile_all,
}
use mail_control.Analysis.Incidents.Beside.{
  resolve_matching-IsAroundAlerts, resolve_rejected-IsAroundAlerts,
}
use mail_control.Analysis.Incidents.Ages.{rows_age, age, row_age, state_age, upsert_age}

-- The newest of a list's events about one incident.
abbrev pub newest : IncidentKey → List IncidentEvent → ℕ
newest k [] = 0
newest k (e ∷ es) =
    max (if same_incident_key e.key k then age e.status e.event_at else 0) (newest k es)

module _ (sql_key : String → String) (created_at : ℕ → ℕ) where
  reconciled_incidents :
      (e : IncidentEvent) (db : AnalysisDb)
      → (reconcile_event sql_key created_at e db).incidents ≡ (upsert_incident e db.incidents).0
  unfolding reconcile_event
  reconciled_incidents e db = elim (Bool-cases (upsert_incident e db.incidents).1) [
    | inl changed ↦
        rw changed
          (resolve_matching-IsAroundAlerts sql_key created_at e (not (is_resolved e.status))
            _).incidents
    | inr kept ↦ elim (Bool-cases (is_resolved e.status)) [
      | inl closes ↦ rw (kept, closes) refl
      | inr opens ↦
          rw (kept, opens) (resolve_rejected-IsAroundAlerts sql_key created_at e _).incidents
    ]
  ]

  reconcile_age :
      (es : List IncidentEvent) (k : IncidentKey) (db : AnalysisDb)
      → state_age k (reconcile_all sql_key created_at es db) ≡ max (state_age k db) (newest k es)
  unfolding reconcile_all
  reconcile_age [] k db = omega arith
  reconcile_age (e ∷ es) k db =
      let next = reconcile_event sql_key created_at e db in
      omega (
        arith,
        reconcile_age es k next,
        ap (rows_age k) (reconciled_incidents e db),
        upsert_age e k db.incidents,
      )

abbrev pub newest_reordered :
    (k : IncidentKey) {es es' : List IncidentEvent} → Permᴰ es es' → newest k es ≡ newest k es'
newest_reordered k Permᴰ.nil = refl
newest_reordered k (Permᴰ.cons e p) = rw (e, newest_reordered k p) refl
newest_reordered k (Permᴰ.swap e e') = rw (e, e') (omega arith)
newest_reordered k (Permᴰ.trans p q) = newest_reordered k p ∙ newest_reordered k q

-- Events without their order, which is how the providers and the workers may shuffle them.
abbrev pub Events : Type 0
Events = Quot (Perm {A = IncidentEvent})

-- The state that events say an incident has: that of the newest, and resolved at a tie.
unfoldable pub current : IncidentKey → Events → ℕ
current k =
    Quot.lift ℕ_set (newest k) (λ es es' p. ∥∥₁_elim p (ℕ_set _ _) (λ q. newest_reordered k q))

-- From the tables `db`, and whatever events are reconciled, an incident's state is the newer one of
-- its state before and of the state that its events say it has, which does not depend on the
-- order of the events. The newer of two states is the later one, or at one time the resolved one.
pub reconcile-current :
    (sql_key : String → String) (created_at : ℕ → ℕ) (es : List IncidentEvent) (k : IncidentKey)
    (db : AnalysisDb)
    → state_age k (reconcile_all sql_key created_at es db)
      ≡ max (state_age k db) (current k (Quot.mk es))
unfolding current
reconcile-current sql_key created_at es k db = reconcile_age sql_key created_at es k db

-- What a reader of the table learns of an incident: its status and the time of its state.
abbrev pub view : Option AnalysisIncident → Option (IncidentStatus × ℕ)
view none = none
view (some row) = some (row.status, row.last_event_received_at)

same_state :
    (a b : IncidentStatus) (t u : ℕ) → age a t ≡ age b u → Path (IncidentStatus × ℕ) (a, t) (b, u)
same_state active active t u h = let e : t ≡ u = omega (arith, h) in rw e refl
same_state active resolved t u h = absurd (omega (arith, h))
same_state resolved active t u h = absurd (omega (arith, h))
same_state resolved resolved t u h = let e : t ≡ u = omega (arith, h) in rw e refl

view-age : (o p : Option AnalysisIncident) → row_age o ≡ row_age p → view o ≡ view p
view-age none none h = refl
view-age none (some b) h = absurd (omega (arith, h))
view-age (some a) none h = absurd (omega (arith, h))
view-age (some a) (some b) h =
    ap some (same_state a.status b.status a.last_event_received_at b.last_event_received_at h)

-- Reconciling the same events in two orders leaves each incident, open or resolved, in the same
-- status, with the same time.
pub reconcile_reordered :
    (sql_key : String → String) (created_at : ℕ → ℕ) (es es' : List IncidentEvent) (k : IncidentKey)
    (db : AnalysisDb)
    → Perm es es'
    → view (find_first (has_key k) (reconcile_all sql_key created_at es db).incidents)
      ≡ view (find_first (has_key k) (reconcile_all sql_key created_at es' db).incidents)
unfolding current
reconcile_reordered sql_key created_at es es' k db p = view-age _ _ (
    reconcile-current sql_key created_at es k db
    ∙ ap (λ c. max (state_age k db) (current k c)) (Quot.sound p)
    ∙ sym (reconcile-current sql_key created_at es' k db))
