-- ===== src/Analysis/Transition/Laws.antt =====
-- What the rules about alerts and incidents guarantee: modules/analysis/service.py.
use mail_control.Base.{
  ◌≡◌, refl, ap, ◌∙◌, is_some, Bool, true, false, ◌||◌, not, List, [], ◌∷◌, arith, any, any-append,
  count_if, indicator, if◌then◌else◌, filter_by, length, ◌==◌, ==_iff, Bool-cases, Option-cases,
  inl, inr,
}
use mail_control.Identity.Models.{TextOps}
use mail_control.Analysis.Models.{
  AlertType, alert_code, same_alert, incident_of, IncidentType, rejected_payment, expired_method,
  due_renewal, account_suspended, same_incident, alert_of, AnalysisResult,
}
use mail_control.Analysis.Transition.{
  EmailData, is_payment_alert, add_incident, opened_by, add_opened, says_confirmed, says_failed,
  confirms_payment, confirms_renewal, confirms_reactivation, reports_suspension, opened_types,
  resolved_types, suppress_confirmed_payment_alerts, first_of_each, deduplicate_alert_types,
}

same_alert_trans : (a b c : AlertType) → same_alert a b ≡ true → same_alert b c ≡ same_alert a c
unfolding same_alert
same_alert_trans a b c h =
    let e : alert_code a ≡ alert_code b = (==_iff (alert_code a) (alert_code b)).0 h in rw e refl

any_same :
    (a b : AlertType) (ts : List AlertType)
    → same_alert a b ≡ true
    → any (same_alert b) ts ≡ any (same_alert a) ts
any_same a b [] h = refl
any_same a b (t ∷ ts) h = rw (same_alert_trans a b t h, any_same a b ts h) refl

first_of_each_count :
    (a : AlertType) (seen ts : List AlertType)
    → count_if (same_alert a) (first_of_each seen ts)
      ≡ (if any (same_alert a) seen then 0 else indicator (any (same_alert a) ts))
first_of_each_count a seen [] = ground arith
first_of_each_count a seen (t ∷ ts) = elim (Bool-cases (same_alert a t)) [
  | inl own ↦ ground (arith, own, any_same a t seen own, first_of_each_count a (t ∷ seen) ts)
  | inr other ↦ ground (arith, other, first_of_each_count a (t ∷ seen) ts)
]

-- After the duplicates are dropped, each type of alert that the result had stands once, and no
-- other type stands.
deduplicate_once :
    (r : AnalysisResult) (a : AlertType)
    → count_if (same_alert a) (deduplicate_alert_types r).alert_types
      ≡ indicator (any (same_alert a) r.alert_types)
unfolding deduplicate_alert_types
deduplicate_once r a = first_of_each_count a [] r.alert_types

other_alerts :
    (ts : List AlertType)
    → any is_payment_alert (filter_by (λ a. not (is_payment_alert a)) ts) ≡ false
other_alerts [] = refl
other_alerts (t ∷ ts) = ground (arith, other_alerts ts)

opened_by_others :
    (ts : List AlertType) (is : List IncidentType)
    → any is_payment_alert ts ≡ false
    → opened_by ts is ≡ is
opened_by_others [] is h = refl
opened_by_others (t ∷ ts) is h = elim (Option-cases (incident_of t)) [
  | inl other ↦ rw (opened_by, add_opened, other) (opened_by_others ts is (ground (arith, h)))
  | inr (i, payment) ↦ absurd (ground (arith, h, payment))
]

suppress_changes :
    (ops : TextOps) (r : AnalysisResult) (d : EmailData)
    → (suppress_confirmed_payment_alerts ops r d).0 ≡ true
    → let r' = (suppress_confirmed_payment_alerts ops r d).1 in
      (r'.alert_types ≡ filter_by (λ a. not (is_payment_alert a)) r.alert_types)
      × (says_confirmed ops d ≡ true)
      × (says_failed ops d ≡ false)
unfolding suppress_confirmed_payment_alerts
suppress_changes ops r d h = elim (Bool-cases (not (says_confirmed ops d) || says_failed ops d)) [
  | inl stops ↦ absurd (ground (arith, h, stops))
  | inr goes ↦
      (let rest = filter_by (λ a. not (is_payment_alert a)) r.alert_types in
        elim (Bool-cases (length rest == length r.alert_types)) [
          | inl nothing_goes ↦ absurd (ground (arith, h, goes, nothing_goes))
          | inr some_go ↦ elim (Bool-cases (length rest == 0)) [
            | inl all_go ↦
                rw (goes, some_go, all_go) (refl, ground (arith, goes), ground (arith, goes))
            | inr some_stay ↦
                rw (goes, some_go, some_stay) (refl, ground (arith, goes), ground (arith, goes))
          ]
        ])
]

confirms :
    (ops : TextOps) (r : AnalysisResult) (d : EmailData)
    → says_confirmed ops d ≡ true
    → says_failed ops d ≡ false
    → confirms_payment ops r d ≡ true
unfolding confirms_payment
confirms ops r d h k = ground (arith, h, k)

any-add :
    (p : IncidentType → Bool) (i : IncidentType) (is : List IncidentType)
    → any p is ≡ true
    → any p (add_incident i is) ≡ true
any-add p i is h = ground (arith, h, any-append p is (i ∷ []))

pays :
    (i : IncidentType)
    → is_some (alert_of i) ≡ true
    → any (same_incident i) (rejected_payment ∷ expired_method ∷ due_renewal ∷ []) ≡ true
unfolding same_incident
pays rejected_payment h = refl
pays expired_method h = refl
pays due_renewal h = refl
pays account_suspended h = absurd (ground (arith, h))

resolves_payments :
    (ops : TextOps) (r : AnalysisResult) (d : EmailData) (i : IncidentType)
    → confirms_payment ops r d ≡ true
    → is_some (alert_of i) ≡ true
    → any (same_incident i) (resolved_types ops r d) ≡ true
unfolding resolved_types
resolves_payments ops r d i h a =
    let paid = rejected_payment ∷ expired_method ∷ due_renewal ∷ [] in
    let q = same_incident i in
    elim (Bool-cases (confirms_renewal ops r d)) [
      | inl renews ↦ elim (Bool-cases (confirms_reactivation ops r d)) [
        | inl wakes ↦
            rw (h, renews, wakes)
              (any-add q account_suspended _ (any-add q due_renewal paid (pays i a)))
        | inr sleeps ↦ rw (h, renews, sleeps) (any-add q due_renewal paid (pays i a))
      ]
      | inr stays ↦ elim (Bool-cases (confirms_reactivation ops r d)) [
        | inl wakes ↦ rw (h, stays, wakes) (any-add q account_suspended paid (pays i a))
        | inr sleeps ↦ rw (h, stays, sleeps) (pays i a)
      ]
    ]

not_suspended :
    (i : IncidentType)
    → is_some (alert_of i) ≡ true
    → any (same_incident i) (add_incident account_suspended []) ≡ false
unfolding same_incident
not_suspended rejected_payment h = refl
not_suspended expired_method h = refl
not_suspended due_renewal h = refl
not_suspended account_suspended h = absurd (ground (arith, h))

opens_no_payment :
    (ops : TextOps) (r : AnalysisResult) (i : IncidentType)
    → any is_payment_alert r.alert_types ≡ false
    → is_some (alert_of i) ≡ true
    → any (same_incident i) (opened_types ops r) ≡ false
unfolding opened_types
opens_no_payment ops r i h a = elim (Bool-cases (reports_suspension ops r)) [
  | inl suspended ↦ rw (suspended, opened_by_others r.alert_types [] h) (not_suspended i a)
  | inr fine ↦ rw (fine, opened_by_others r.alert_types [] h) refl
]

-- When a message that confirms a payment changes the result, no payment alert is left, no incident
-- of a payment is opened by it, and the open ones of each of the three types are resolved.
suppressed_resolves :
    (ops : TextOps) (r : AnalysisResult) (d : EmailData)
    → (suppress_confirmed_payment_alerts ops r d).0 ≡ true
    → let r' = (suppress_confirmed_payment_alerts ops r d).1 in
      (any is_payment_alert r'.alert_types ≡ false)
      × ((i : IncidentType)
          → is_some (alert_of i) ≡ true
          → (any (same_incident i) (opened_types ops r') ≡ false)
            × (any (same_incident i) (resolved_types ops r' d) ≡ true))
suppressed_resolves ops r d h =
    let r' = (suppress_confirmed_payment_alerts ops r d).1 in
    let (rest, said, no_failure) = suppress_changes ops r d h in
    let left : any is_payment_alert r'.alert_types ≡ false =
      ap (any is_payment_alert) rest ∙ other_alerts r.alert_types in
    (
      left,
      λ i a. (
        opens_no_payment ops r' i left a,
        resolves_payments ops r' d i (confirms ops r' d said no_failure) a,
      ),
    )
