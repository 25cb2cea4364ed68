-- ===== src/Analysis/Incidents/Ages.antt =====
-- How new the state of an incident is, and what one event does to that.
use mail_control.Base.{
  ℕ, ◌+◌, ◌*◌, max, ◌≡◌, refl, true, false, Option, none, some, List, [], ◌∷◌, ◌++◌, arith, eq_iff,
  indicator, if◌then◌else◌, find_first, update_first, Option-cases, Bool-cases, inl, inr, ◌∙◌, sym,
  ap, find_first-update_first,
}
use mail_control.Analysis.Models.{
  AnalysisDb, AnalysisIncident, IncidentKey, same_incident_key, same_incident, IncidentStatus,
  is_resolved,
}
use mail_control.Analysis.Incidents.{
  IncidentEvent, incident_row, supersedes, has_key, upsert_incident,
}

-- How new a state is: its time, and a resolution after an opening at one time. 0 is no state.
abbrev pub age : IncidentStatus → ℕ → ℕ
age status at = 1 + 2 * at + indicator (is_resolved status)

abbrev pub row_age : Option AnalysisIncident → ℕ
row_age none = 0
row_age (some row) = age row.status row.last_event_received_at

abbrev pub state_age : IncidentKey → AnalysisDb → ℕ
state_age k db = row_age (find_first (has_key k) db.incidents)

same_key_trans :
    (a b c : IncidentKey)
    → same_incident_key a b ≡ true
    → same_incident_key a c ≡ same_incident_key b c
unfolding same_incident_key same_incident
same_key_trans a b c h = ground (
  arith,
  eq_iff a.service_key b.service_key,
  eq_iff a.service_key c.service_key,
  eq_iff b.service_key c.service_key,
)

pub same_key_self : (k : IncidentKey) → same_incident_key k k ≡ true
unfolding same_incident_key same_incident
same_key_self k = ground (arith, eq_iff k.service_key k.service_key)

same_key_right :
    (a b c : IncidentKey)
    → same_incident_key a b ≡ true
    → same_incident_key c a ≡ same_incident_key c b
unfolding same_incident_key same_incident
same_key_right a b c h = ground (
  arith,
  eq_iff a.service_key b.service_key,
  eq_iff c.service_key a.service_key,
  eq_iff c.service_key b.service_key,
)

find_updated :
    (e : IncidentEvent) (k : IncidentKey) (rows : List AnalysisIncident)
    → same_incident_key e.key k ≡ false
    → find_first (has_key k) (update_first (has_key e.key) (λ old. incident_row e) rows)
      ≡ find_first (has_key k) rows
find_updated e k [] h = refl
find_updated e k (row ∷ rows) h = elim (Bool-cases (has_key e.key row)) [
  | inl own ↦ rw (own, same_key_trans row.key e.key k own, h) refl
  | inr other ↦ rw (other, find_updated e k rows h) refl
]

find_appended :
    (e : IncidentEvent) (k : IncidentKey) (rows : List AnalysisIncident)
    → same_incident_key e.key k ≡ false
    → find_first (has_key k) (rows ++ incident_row e ∷ []) ≡ find_first (has_key k) rows
find_appended e k [] h = rw h refl
find_appended e k (row ∷ rows) h = rw (find_appended e k rows h) refl

find_new :
    (e : IncidentEvent) (rows : List AnalysisIncident)
    → find_first (has_key e.key) rows ≡ none
    → find_first (has_key e.key) (rows ++ incident_row e ∷ []) ≡ some (incident_row e)
find_new e [] h = rw (same_key_self e.key) refl
find_new e (row ∷ rows) h = elim (Bool-cases (has_key e.key row)) [
  | inl own ↦ absurd (ground (arith, h, own))
  | inr other ↦ rw other (find_new e rows (ground (arith, h, other)))
]

find_same :
    (a b : IncidentKey) (rows : List AnalysisIncident)
    → same_incident_key a b ≡ true
    → find_first (has_key a) rows ≡ find_first (has_key b) rows
find_same a b [] h = refl
find_same a b (row ∷ rows) h = rw (same_key_right a b row.key h, find_same a b rows h) refl

-- The guard of the write takes the newer of the two states.
superseded_age :
    (e : IncidentEvent) (row : AnalysisIncident)
    → (if supersedes e row then age e.status e.event_at else row_age (some row))
      ≡ max (row_age (some row)) (age e.status e.event_at)
superseded_age e row = ground arith

abbrev pub rows_age : IncidentKey → List AnalysisIncident → ℕ
rows_age k rows = row_age (find_first (has_key k) rows)

abbrev event_age : IncidentKey → IncidentEvent → ℕ
event_age k e = if same_incident_key e.key k then age e.status e.event_at else 0

upsert_age_own :
    (e : IncidentEvent) (rows : List AnalysisIncident)
    → rows_age e.key (upsert_incident e rows).0
      ≡ max (rows_age e.key rows) (age e.status e.event_at)
unfolding upsert_incident
upsert_age_own e rows = elim (Option-cases (find_first (has_key e.key) rows)) [
  | inl new ↦ rw new (rw (find_new e rows new) (omega arith))
  | inr (row, old) ↦ elim (Bool-cases (supersedes e row)) [
    | inl newer ↦
        rw (old, newer)
          (rw
            (find_first-update_first (has_key e.key) (λ o. incident_row e) row rows old
              (same_key_self e.key))
            (ground (arith, superseded_age e row, newer)))
    | inr older ↦ rw (old, older) (rw old (ground (arith, superseded_age e row, older)))
  ]
]

upsert_age_other :
    (e : IncidentEvent) (k : IncidentKey) (rows : List AnalysisIncident)
    → same_incident_key e.key k ≡ false
    → find_first (has_key k) (upsert_incident e rows).0 ≡ find_first (has_key k) rows
unfolding upsert_incident
upsert_age_other e k rows h = elim (Option-cases (find_first (has_key e.key) rows)) [
  | inl new ↦ rw new (find_appended e k rows h)
  | inr (row, old) ↦ elim (Bool-cases (supersedes e row)) [
    | inl newer ↦ rw (old, newer) (find_updated e k rows h)
    | inr older ↦ rw (old, older) refl
  ]
]

pub upsert_age :
    (e : IncidentEvent) (k : IncidentKey) (rows : List AnalysisIncident)
    → rows_age k (upsert_incident e rows).0 ≡ max (rows_age k rows) (event_age k e)
upsert_age e k rows = elim (Bool-cases (same_incident_key e.key k)) [
  | inl own ↦ rw own (
      ap row_age (sym (find_same e.key k (upsert_incident e rows).0 own))
      ∙ upsert_age_own e rows
      ∙ ap (λ r. max (row_age r) (age e.status e.event_at)) (find_same e.key k rows own))
  | inr other ↦ rw (other, upsert_age_other e k rows other) (omega arith)
]
