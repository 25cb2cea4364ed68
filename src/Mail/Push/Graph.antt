-- ===== src/Mail/Push/Graph.antt =====
-- `enqueue_from_graph_notification` of modules/mail/microsoft_push.py.
pub mod Lost
use mail_control.Base.{
  ℕ, String, Bool, true, false, not, Option, none, some, List, [], ◌∷◌, ◌++◌, same, same_opt,
  find_first, update_first, if◌then◌else◌, truthy, truthy_opt, or_else,
}
use mail_control.Base.Exec.{Result, ok, err}
use mail_control.Mail.Push.Dedupe.{
  DedupeKey, microsoft_graph, SyncJob, PushState, Services, claim_key, publish,
}

-- A row of `microsoft_graph_subscriptions`.
pub record GraphSubscription : Type 0 where
  pub tenant_id : ℕ
  pub mail_account_id : ℕ
  pub subscription_id : Option String
  pub resource : String
  pub client_state : String
  pub expiration_at : Option ℕ
  pub renewed_at : Option ℕ
  pub last_notification_at : Option ℕ
  pub status : String
  pub last_error : Option String

-- The keys of the JSON notification that are read; `resource_data` holds `id` and `@odata.id`, and
-- `text` is `json.dumps` of the whole.
pub record Notification : Type 0 where
  pub subscription_id : Option String
  pub client_state : Option String
  pub resource_data : Option (Option String × Option String)
  pub id : Option String
  pub resource : Option String
  pub lifecycle_event : Option String
  pub text : String

-- The first value that is not empty.
abbrev first_truthy : List (Option String) → String → String
first_truthy [] default = default
first_truthy (none ∷ rest) default = first_truthy rest default
first_truthy (some s ∷ rest) default =
    let later = first_truthy rest default in if truthy s then s else later

abbrev data_ids : Option (Option String × Option String) → List (Option String)
data_ids none = []
data_ids (some (id, odata_id)) = id ∷ odata_id ∷ []

unfoldable pub notification_identity : Notification → String
notification_identity n =
    first_truthy (data_ids n.resource_data ++ n.id ∷ n.resource ∷ n.lifecycle_event ∷ []) n.text

pub record GraphState : Type 0 where
  pub subscriptions : List GraphSubscription
  pub push : PushState

pub data NotificationError : Type 0 where
  missing_subscription unexpected_client_state broker_error : NotificationError

abbrev pub has_id : String → GraphSubscription → Bool
has_id id g = same_opt same g.subscription_id (some id)

abbrev pub notified : ℕ → Notification → GraphSubscription → GraphSubscription
notified now n g = record g {
  last_notification_at = some now;
  last_error = none;
  status = if truthy_opt n.lifecycle_event then or_else n.lifecycle_event String.[] else g.status;
}

abbrev pub sync_job : GraphSubscription → SyncJob
sync_job g = record { tenant_id = g.tenant_id; mail_account_id = g.mail_account_id }

module _ (env : Services) (n : Notification) where
  -- After the checks. An error is not committed, but a key in Redis stays.
  deliver : String → GraphSubscription → GraphState → Result NotificationError Bool × GraphState
  deliver id g s =
      let key = microsoft_graph id (notification_identity n) in
      let (claimed, push) = claim_key env key s.push in
      let rows = update_first (has_id id) (notified env.now n) s.subscriptions in
      if not claimed
      then (ok false, record s { subscriptions = rows; push = push })
      else if env.broker_takes (sync_job g)
      then (ok true, record { subscriptions = rows; push = publish (sync_job g) push })
      else (err broker_error, record s { push = push })

  on_subscription :
      String → Option GraphSubscription → GraphState → Result NotificationError Bool × GraphState
  unfolding deliver
  on_subscription id none s = (ok false, s)
  on_subscription id (some g) s =
      if same_opt same n.client_state (some g.client_state)
      then deliver id g s
      else (err unexpected_client_state, s)

  on_id : Option String → GraphState → Result NotificationError Bool × GraphState
  unfolding on_subscription
  on_id none s = (err missing_subscription, s)
  on_id (some id) s =
      if truthy id
      then on_subscription id (find_first (has_id id) s.subscriptions) s
      else (err missing_subscription, s)

  unfoldable pub enqueue_from_graph_notification :
      GraphState → Result NotificationError Bool × GraphState
  unfolding on_id
  enqueue_from_graph_notification s = on_id n.subscription_id s
