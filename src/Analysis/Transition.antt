-- ===== src/Analysis/Transition.antt =====
-- modules/analysis/service.py: what one analysed message means for alerts and incidents. A set of
-- types is a list without repetitions, in the order in which it is iterated.
pub mod Laws
use Prim.Native.Char.{code}
use mail_control.Base.{
  ℕ, String, Bool, true, false, ◌&&◌, ◌||◌, not, Option, none, some, List, [], ◌∷◌, ◌++◌, ◌==◌, any,
  leb, length, same, if◌then◌else◌, or_else, truthy, truthy_opt, filter_by, is_some, is_none, clip,
}
use mail_control.Identity.Models.{TextOps}
use mail_control.Identity.Tokens.{append_text}
use mail_control.Analysis.Models.{
  AlertType, payment_rejected, payment_method_expired, renewal_due, same_alert, incident_of,
  IncidentType, rejected_payment, expired_method, due_renewal, account_suspended, same_incident,
  RiskLevel, low, AnalysisResult, category_value,
}
use mail_control.Analysis.Texts.{
  includes, includes_any, underscored, confirmed_payment_markers, payment_failure_markers,
  renewal_confirmed_markers, account_reactivated_markers,
}

-- The fields of `analysis_input` that the tests read.
pub record EmailData : Type 0 where
  pub subject : Option String
  pub snippet : Option String
  pub body : Option String

-- `item in PAYMENT_ALERT_VALUES`
abbrev pub is_payment_alert : AlertType → Bool
is_payment_alert a = is_some (incident_of a)

-- `str(value or "")`
abbrev or_empty : Option String → String
or_empty none = String.[]
or_empty (some s) = s

-- `" ".join(…)` of the three fields.
abbrev joined_text : EmailData → String
joined_text d =
    append_text (or_empty d.subject)
      (String.◌∷◌ " " (append_text (or_empty d.snippet) (String.◌∷◌ " " (or_empty d.body))))

-- `set.add`, on a list without repetitions.
abbrev pub add_incident : IncidentType → List IncidentType → List IncidentType
add_incident i is = if any (same_incident i) is then is else is ++ i ∷ []

abbrev add_opened : AlertType → List IncidentType → List IncidentType
add_opened a is = elim (incident_of a) [ none ↦ is | some i ↦ add_incident i is ]

abbrev pub opened_by : List AlertType → List IncidentType → List IncidentType
opened_by [] is = is
opened_by (a ∷ rest) is = opened_by rest (add_opened a is)

-- `email_type in {…}`
abbrev one_of : List String → String → Bool
one_of names s = any (λ name. same s name) names

-- `re.sub(r"[^a-z0-9]+", "", s)`
abbrev is_kept : ℕ → Bool
is_kept c = (leb b'a' c && leb c b'z') || (leb b'0' c && leb c b'9')

pub only_alnum : String → String
only_alnum String.[] = String.[]
only_alnum (String.◌∷◌ c s) =
    let rest = only_alnum s in if is_kept (code c) then String.◌∷◌ c rest else rest

-- `a or b` of two texts that may be None.
abbrev pub or_text : Option String → String → String
or_text none b = b
or_text (some a) b = if truthy a then a else b

-- `ascii` drops the accents and what is not ASCII (`unicodedata.normalize` and `encode`).
pub normalized_service_key : TextOps → (String → String) → AnalysisResult → String
unfolding only_alnum
normalized_service_key ops ascii r =
    let value = or_text r.platform (or_text r.service (category_value r.category)) in
    let key = only_alnum (ops.casefold (ascii value)) in if truthy key then key else "unknown"

module _ (ops : TextOps) where
  pub folded_text : EmailData → String
  folded_text d = ops.casefold (joined_text d)

  pub folded_type : AnalysisResult → String
  unfolding underscored
  folded_type r = underscored (ops.casefold r.email_type)

  -- `any(marker in text for marker in CONFIRMED_PAYMENT_MARKERS)`
  pub says_confirmed : EmailData → Bool
  unfolding includes_any folded_text
  says_confirmed d = includes_any confirmed_payment_markers (folded_text d)

  -- `any(marker in text for marker in PAYMENT_FAILURE_MARKERS)`
  pub says_failed : EmailData → Bool
  unfolding includes_any folded_text
  says_failed d = includes_any payment_failure_markers (folded_text d)

  -- `payment_confirmed and not any(… in PAYMENT_FAILURE_MARKERS)`
  pub confirms_payment : AnalysisResult → EmailData → Bool
  unfolding says_confirmed says_failed folded_type
  confirms_payment r d =
      (one_of
          ("payment_updated" ∷ "payment_update_notice" ∷ "payment_approved" ∷ "payment_accepted"
            ∷ "payment_successful" ∷ [])
          (folded_type r)
        || says_confirmed d)
      && not (says_failed d)

  pub confirms_renewal : AnalysisResult → EmailData → Bool
  unfolding includes_any folded_text folded_type
  confirms_renewal r d =
      one_of ("renewed" ∷ "renewal_completed" ∷ "subscription_renewed" ∷ []) (folded_type r)
      || includes_any renewal_confirmed_markers (folded_text d)

  pub confirms_reactivation : AnalysisResult → EmailData → Bool
  unfolding includes_any folded_text folded_type
  confirms_reactivation r d =
      one_of ("account_reactivated" ∷ "account_active" ∷ []) (folded_type r)
      || includes_any account_reactivated_markers (folded_text d)

  pub reports_suspension : AnalysisResult → Bool
  unfolding includes folded_type
  reports_suspension r =
      includes "account_suspended" (folded_type r) || includes "account_disabled" (folded_type r)

  pub opened_types : AnalysisResult → List IncidentType
  unfolding reports_suspension
  opened_types r =
      let opened = opened_by r.alert_types [] in
      if reports_suspension r then add_incident account_suspended opened else opened

  pub resolved_types : AnalysisResult → EmailData → List IncidentType
  unfolding confirms_payment confirms_renewal confirms_reactivation
  resolved_types r d =
      let paid =
        if confirms_payment r d then rejected_payment ∷ expired_method ∷ due_renewal ∷ [] else [] in
      let renewed = if confirms_renewal r d then add_incident due_renewal paid else paid in
      if confirms_reactivation r d then add_incident account_suspended renewed else renewed

  -- `incident_transition`
  unfoldable pub incident_transition :
      (String → String)
      → AnalysisResult
      → EmailData
      → List IncidentType × List IncidentType × String
  unfolding opened_types resolved_types normalized_service_key
  incident_transition ascii r d =
      (opened_types r, resolved_types r d, normalized_service_key ops ascii r)

  -- `suppress_confirmed_payment_alerts`: whether it changed the result, and the result.
  unfoldable pub suppress_confirmed_payment_alerts :
      AnalysisResult → EmailData → Bool × AnalysisResult
  unfolding says_confirmed says_failed
  suppress_confirmed_payment_alerts r d =
      let remaining = filter_by (λ a. not (is_payment_alert a)) r.alert_types in
      let changed : AnalysisResult = record r {
        alert_types = remaining;
        action_required = none;
        email_type = "payment_updated";
      } in
      if not (says_confirmed d) || says_failed d
      then (false, r)
      else if length remaining == length r.alert_types
      then (false, r)
      else if length remaining == 0
      then (true, record changed { priority = "baja"; risk_level = low })
      else (true, changed)

-- `list(dict.fromkeys(…))`: the first of each type stays, in order.
abbrev pub first_of_each : List AlertType → List AlertType → List AlertType
first_of_each seen [] = []
first_of_each seen (a ∷ rest) =
    let later = first_of_each (a ∷ seen) rest in
    if any (same_alert a) seen then later else a ∷ later

unfoldable pub deduplicate_alert_types : AnalysisResult → AnalysisResult
deduplicate_alert_types r = record r { alert_types = first_of_each [] r.alert_types }
