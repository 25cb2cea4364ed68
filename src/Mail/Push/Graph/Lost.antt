-- ===== src/Mail/Push/Graph/Lost.antt =====
-- What becomes of a Graph notification whose job the broker refuses.
use mail_control.Base.{
  ℕ, ◌+◌, ◌<◌, ◌≡◌, refl, ◌∙◌, String, true, false, some, ◌∷◌, arith, same_self, same, same_opt,
  find_first, Bool-cases, Option-cases, inl, inr, truthy,
}
use mail_control.Base.Exec.{ok, err}
use mail_control.Mail.Push.Dedupe.{
  DedupeKey, microsoft_graph, same_key, PushState, Services, is_held, claim_key,
}
use mail_control.Mail.Push.Gmail.Retry.{recovered}
use mail_control.Mail.Push.Graph.{
  GraphSubscription, Notification, notification_identity, GraphState, broker_error, has_id, deliver,
  on_subscription, on_id, sync_job, enqueue_from_graph_notification,
}

-- A notification without the secret of a subscription that is known enqueues nothing: where its
-- subscription or its client state is not the stored one, no table, key or job changes.
pub graph_rejects :
    (env : Services) (n : Notification) (s : GraphState)
    → ((id : String) (g : GraphSubscription)
        → n.subscription_id ≡ some id
        → find_first (has_id id) s.subscriptions ≡ some g
        → same_opt same n.client_state (some g.client_state) ≡ false)
    → (enqueue_from_graph_notification env n s).1 ≡ s
unfolding enqueue_from_graph_notification on_id on_subscription
graph_rejects env n s h = elim (Option-cases n.subscription_id) [
  | inl missing ↦ rw (enqueue_from_graph_notification, missing) refl
  | inr (id, given) ↦ elim (Bool-cases (truthy id)) [
    | inr empty ↦ rw (enqueue_from_graph_notification, given) (rw (on_id, empty) refl)
    | inl full ↦ elim (Option-cases (find_first (has_id id) s.subscriptions)) [
      | inl unknown ↦ rw (enqueue_from_graph_notification, given) (rw (on_id, full, unknown) refl)
      | inr (g, known) ↦
          rw (enqueue_from_graph_notification, given)
            (rw (on_id, full, known) (rw (on_subscription, h id g given known) refl))
    ]
  ]
]

-- A notification that is known, and is delivered to `deliver`.
pub record IsKnown (n : Notification) (s : GraphState) (id : String) (g : GraphSubscription)
    : Type 0 where
  pub given : n.subscription_id ≡ some id
  pub full : truthy id ≡ true
  pub known : find_first (has_id id) s.subscriptions ≡ some g
  pub secret : same_opt same n.client_state (some g.client_state) ≡ true

enqueue-deliver :
    (env : Services) (n : Notification) (s : GraphState) (id : String) (g : GraphSubscription)
    → IsKnown n s id g
    → enqueue_from_graph_notification env n s ≡ deliver env n id g s
unfolding enqueue_from_graph_notification on_id on_subscription
enqueue-deliver env n s id g h =
    rw (enqueue_from_graph_notification, h.given)
      (rw (on_id, h.full, h.known) (rw (on_subscription, h.secret) refl))

module _ (env : Services) (n : Notification) (up : env.redis_is_up ≡ true) where
  abbrev key_for : String → DedupeKey
  key_for id = microsoft_graph id (notification_identity n)

  deliver_refused :
      (id : String) (g : GraphSubscription) (s : GraphState)
      → is_held env.now (key_for id) s.push ≡ false
      → env.broker_takes (sync_job g) ≡ false
      → deliver env n id g s ≡ (
        err broker_error,
        record s { push = record s.push { keys = (key_for id, env.now + env.ttl) ∷ s.push.keys } },
      )
  unfolding deliver claim_key
  deliver_refused id g s free refuses = rw (deliver, claim_key, up, free, refuses) refl

  deliver_duplicate :
      (id : String) (g : GraphSubscription) (s : GraphState)
      → is_held env.now (key_for id) s.push ≡ true
      → ((deliver env n id g s).0 ≡ ok false)
        × ((deliver env n id g s).1.push.published ≡ s.push.published)
  unfolding deliver claim_key
  deliver_duplicate id g s held = rw (deliver, claim_key, up, held) (refl, refl)

key_held :
    (env : Services) (later : ℕ) (id : String) (n : Notification) (p : PushState)
    → later < env.now + env.ttl
    → let key = microsoft_graph id (notification_identity n) in
      is_held later key (record p { keys = (key, env.now + env.ttl) ∷ p.keys }) ≡ true
unfolding same_key
key_held env later id n p soon =
    ground (arith, soon, same_self id, same_self (notification_identity n))

-- When the broker refuses the job of a notification, the key of the notification stays in Redis: at
-- every time before that ends, the notification is not enqueued when it is delivered again, though
-- the broker takes every job then.
pub graph_lost :
    (env : Services) (later : ℕ) (n : Notification) (s : GraphState) (id : String)
    (g : GraphSubscription)
    → env.redis_is_up ≡ true
    → later < env.now + env.ttl
    → IsKnown n s id g
    → is_held env.now (microsoft_graph id (notification_identity n)) s.push ≡ false
    → env.broker_takes (sync_job g) ≡ false
    → let (r, s1) = enqueue_from_graph_notification env n s in
      let (r', s2) = enqueue_from_graph_notification (recovered later env) n s1 in
      (r ≡ err broker_error) × (r' ≡ ok false) × (s2.push.published ≡ s.push.published)
graph_lost env later n s id g up soon h free refuses =
    let s1 : GraphState = record s {
      push = record s.push {
        keys = (microsoft_graph id (notification_identity n), env.now + env.ttl) ∷ s.push.keys;
      };
    } in
    let first : enqueue_from_graph_notification env n s ≡ (err broker_error, s1) =
      enqueue-deliver env n s id g h ∙ deliver_refused env n up id g s free refuses in
    let again : IsKnown n s1 id g = record {
      given = h.given;
      full = h.full;
      known = h.known;
      secret = h.secret;
    } in
    let second = enqueue-deliver (recovered later env) n s1 id g again in
    let dup =
      deliver_duplicate (recovered later env) n up id g s1 (key_held env later id n s.push soon) in
    rw first (rw second (refl, dup.0, dup.1))
