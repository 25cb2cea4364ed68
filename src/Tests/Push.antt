-- ===== src/Tests/Push.antt =====
-- Push notifications at concrete inputs.
use mail_control.Base.{
  ℕ, ◌≡◌, refl, subst, Option, if◌then◌else◌, sym, arith, String, true, false, none, some, [], ◌∷◌,
  ◌++◌, map, same, same_opt, find_first, truthy_opt,
}
use mail_control.Base.Exec.{ok, err, is_ok}
use mail_control.Mail.Account.{MailAccount}
use mail_control.Mail.Push.Dedupe.{PushState, Services}
use mail_control.Mail.Push.Gmail.{job_of, push_all}
use mail_control.Mail.Push.Gmail.Delivery.{fresh}
use mail_control.Mail.Push.Gmail.Retry.{recovered, push_again}
use mail_control.Mail.Push.Graph.{
  GraphSubscription, Notification, GraphState, has_id, broker_error,
  enqueue_from_graph_notification,
}
use mail_control.Mail.Push.Graph.Lost.{graph_rejects, graph_lost}
use mail_control.Mail.Push.Pubsub.{
  Claims, PushRequest, bearer, verify_pubsub_push_request, token_tail,
}
use mail_control.Mail.Push.Pubsub.Sender.{
  IsVouched, Attempt, request_of, verify_all, verified_sender,
}
use mail_control.Tests.Mail.{account}
use mail_control.Tests.Identity.{text}

-- The broker is down.
abbrev services : Services
services = record { now = 100; ttl = 60; redis_is_up = true; broker_takes = λ j. false }

abbrev nothing : PushState
nothing = record { keys = []; published = [] }

abbrev second : MailAccount
second = record account { id = 6 }

push_again_example :
    (push_all
      (recovered 130 services)
      "42"
      (account ∷ second ∷ [])
      false
      (push_all services "42" (account ∷ second ∷ []) false nothing).1).1.published
    ≡ [] ++ map job_of (fresh services "42" nothing (account ∷ second ∷ []))
push_again_example =
    push_again services "42" 130 refl (omega arith) (account ∷ second ∷ []) nothing
      (refl, (refl, tt)) (refl, (refl, tt)) false false

abbrev subscription : GraphSubscription
subscription = record {
  tenant_id = 3;
  mail_account_id = 5;
  subscription_id = some "s1";
  resource = "me/messages";
  client_state = "secret";
  expiration_at = some 90;
  renewed_at = none;
  last_notification_at = none;
  status = "active";
  last_error = none;
}

abbrev notification : Notification
notification = record {
  subscription_id = some "s1";
  client_state = some "secret";
  resource_data = some (some "m1", none);
  id = none;
  resource = none;
  lifecycle_event = none;
  text = "{}";
}

abbrev known : GraphState
known = record { subscriptions = subscription ∷ []; push = nothing }

abbrev forged : Notification
forged = record notification { client_state = some "guess" }

graph_rejects_example : (enqueue_from_graph_notification services forged known).1 ≡ known
graph_rejects_example = graph_rejects services forged known (λ id g given found.
    let i : "s1" ≡ id = ground (arith, given) in
    let e : subscription ≡ g =
      ground
        (arith, (subst (λ j. find_first (has_id j) known.subscriptions ≡ some g) (sym i) found)) in
    subst (λ h. same_opt same (some "guess") (some h.client_state) ≡ false) e refl)

graph_lost_example :
    let (r, s1) = enqueue_from_graph_notification services notification known in
    let (r', s2) = enqueue_from_graph_notification (recovered 130 services) notification s1 in
    (r ≡ err broker_error) × (r' ≡ ok false) × (s2.push.published ≡ [])
graph_lost_example =
    graph_lost services 130 notification known "s1" subscription refl (omega arith)
      (record { given = refl; full = refl; known = refl; secret = refl }) refl refl

-- A forged token that has the last 32 characters of a good one, which was shown before.
abbrev tail : String
tail = "01234567890123456789012345678901"

abbrev good_token : String
good_token = "good-01234567890123456789012345678901"

abbrev good_claims : Claims
good_claims = record {
  email = some "push@example.com";
  email_verified = true;
  audience = none;
  expires_at = 900;
}

abbrev tokeninfo : ℕ → String → Option Claims
tokeninfo now token = if same token good_token then some good_claims else none

abbrev pushed : PushRequest
pushed = record {
  authorization = none;
  verification_token = none;
  provided_token = none;
  expected_service_account = some "push@example.com";
  expected_audience = none;
}

abbrev shown_before : Attempt
shown_before = record {
  at = 100;
  authorization = some "Bearer good-01234567890123456789012345678901";
  provided_token = none;
}

abbrev forged_later : Attempt
forged_later = record {
  at = 130;
  authorization = some "Bearer forged-01234567890123456789012345678901";
  provided_token = none;
}

accepts :
    is_ok
      (verify_pubsub_push_request text
        (tokeninfo 130)
        130
        (request_of text tokeninfo pushed forged_later)
        (verify_all text tokeninfo pushed (shown_before ∷ []) [])).0
    ≡ true
unfolding verify_pubsub_push_request token_tail verify_all
accepts = refl

verified_sender_example :
    (truthy_opt pushed.verification_token ≡ true → none ≡ pushed.verification_token)
    × (truthy_opt pushed.expected_service_account ≡ true
        → (rest : String) × (bearer forged_later.authorization ≡ some rest)
          × IsVouched tokeninfo pushed (token_tail (text.strip rest)))
verified_sender_example =
    verified_sender text tokeninfo pushed (shown_before ∷ []) forged_later accepts
