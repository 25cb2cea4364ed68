-- ===== src/Tests/Analysis.antt =====
-- The worker of the analysis, and the incidents, at concrete inputs.
use mathlib.Core.List.Perm
use mathlib.Core.Quot
use mail_control.Base.{ℕ, ◌+◌, ◌≡◌, refl, max, String, none, some, [], ◌∷◌, arith, find_first}
use mail_control.Base.Exec.{ok}
use mail_control.Mail.Messages.{
  EmailMessage, OutboxEvent, inserted, new_event, processing, is_event,
}
use mail_control.Analysis.Models.{
  AnalysisDb, AnalysisResult, payment_rejected, security, same_alert, high, netflix,
  rejected_payment, IncidentKey, active, resolved,
}
use mail_control.Analysis.Transition.{deduplicate_alert_types}
use mail_control.Analysis.Incidents.{IncidentEvent, has_key, reconcile_all}
use mail_control.Analysis.Incidents.Ages.{state_age}
use mail_control.Analysis.Incidents.Newest.{current, view, reconcile-current, reconcile_reordered}
use mail_control.Analysis.Outbox.Rows.{budget}
use mail_control.Analysis.Service.{Analyst}
use mail_control.Analysis.Worker.{rounds}
use mail_control.Analysis.Worker.Rounds.{IsOrderly, rounds-IsOrderly, rounds-budget}
use mail_control.Analysis.Worker.Interrupted.{rounds_pass_over}
use mail_control.Tests.Identity.{text}
use mail_control.Tests.Mail.{values}

abbrev declined : AnalysisResult
declined = record {
  service = some "Netflix";
  platform = none;
  amount = none;
  currency = none;
  country = none;
  language = "es";
  priority = "alta";
  email_type = "payment_declined";
  category = netflix;
  action_required = some "pay";
  risk_level = high;
  alert_types = payment_rejected ∷ security ∷ payment_rejected ∷ [];
}

deduplicated : (deduplicate_alert_types declined).alert_types ≡ payment_rejected ∷ security ∷ []
unfolding deduplicate_alert_types same_alert
deduplicated = refl

abbrev key : IncidentKey
key = record { tenant = 1; account = 2; service_key = "netflix"; incident_type = rejected_payment }

abbrev opens : IncidentEvent
opens = record {
  key = key;
  status = active;
  analysis_id = 5;
  message_id = 6;
  reason = "payment_declined";
  event_at = 100;
}

abbrev closes : IncidentEvent
closes = record opens { status = resolved; event_at = 200 }

abbrev sql_key : String → String
sql_key s = s

abbrev created_at : ℕ → ℕ
created_at id = 0

abbrev message : EmailMessage
message = inserted 6 values

abbrev before : AnalysisDb
before = record {
  mail = record {
    messages = message ∷ [];
    outbox = new_event 6 message.tenant_id 10 ∷ new_event 7 1 10 ∷ [];
    cursors = [];
    next_id = 8;
  };
  analyses = [];
  alerts = [];
  incidents = [];
  next_id = 20;
}

reconcile-current_example :
    state_age key (reconcile_all sql_key created_at (closes ∷ opens ∷ []) before)
    ≡ max (state_age key before) (current key (Quot.mk (closes ∷ opens ∷ [])))
reconcile-current_example = reconcile-current sql_key created_at (closes ∷ opens ∷ []) key before

reconcile_reordered_example :
    view (
      find_first
        (has_key key)
        (reconcile_all sql_key created_at (closes ∷ opens ∷ []) before).incidents)
    ≡ view (
        find_first
          (has_key key)
          (reconcile_all sql_key created_at (opens ∷ closes ∷ []) before).incidents)
reconcile_reordered_example =
    reconcile_reordered sql_key created_at (closes ∷ opens ∷ []) (opens ∷ closes ∷ []) key before
      (Perm.swap opens closes [])

-- The model declines the first message; the second is not there.
abbrev analyst : Analyst
analyst = record {
  ops = text;
  ascii = λ s. s;
  sql_key = sql_key;
  created_at = created_at;
  message_body = λ m. ok none;
  analyze = λ m. ok declined;
  model = "model";
  prompt_version = "v1";
}

before-IsOrderly : IsOrderly before
before-IsOrderly = record {
  events = λ id. ground arith;
  attempts = (omega arith, (omega arith, tt));
  analyses = λ id. omega arith;
  handled = (λ p. absurd (ground (arith, p)), (λ p. absurd (ground (arith, p)), tt));
}

rounds-IsOrderly_example : IsOrderly (rounds analyst (11 ∷ 12 ∷ 13 ∷ []) before).1
rounds-IsOrderly_example = rounds-IsOrderly analyst (11 ∷ 12 ∷ 13 ∷ []) before before-IsOrderly

rounds-budget_example :
    (rounds analyst (11 ∷ 12 ∷ 13 ∷ []) before).0
      + budget (rounds analyst (11 ∷ 12 ∷ 13 ∷ []) before).1.mail.outbox
    ≡ budget before.mail.outbox
rounds-budget_example = rounds-budget analyst (11 ∷ 12 ∷ 13 ∷ []) before before-IsOrderly

abbrev stuck : OutboxEvent
stuck = record (new_event 6 1 10) { status = processing; attempts = 1 }

abbrev interrupted : AnalysisDb
interrupted = record before { mail = record before.mail { outbox = stuck ∷ new_event 7 1 10 ∷ [] } }

interrupted-IsOrderly : IsOrderly interrupted
interrupted-IsOrderly = record {
  events = λ id. ground arith;
  attempts = (omega arith, (omega arith, tt));
  analyses = λ id. omega arith;
  handled = (λ p. absurd (ground (arith, p)), (λ p. absurd (ground (arith, p)), tt));
}

rounds_pass_over_example :
    find_first (is_event 6) (rounds analyst (11 ∷ 12 ∷ []) interrupted).1.mail.outbox ≡ some stuck
rounds_pass_over_example =
    rounds_pass_over analyst 6 stuck (11 ∷ 12 ∷ []) interrupted interrupted-IsOrderly refl refl
