-- ===== src/Mail/Push/Subscription.antt =====
-- The renewal of Graph subscriptions: modules/mail/microsoft_push.py. An account stands with its row
-- and the object of the session; the calls of Telegram are listed, not made.
pub mod Renewed
use mail_control.Base.{
  ℕ, ◌+◌, ◌*◌, String, Bool, true, false, ◌&&◌, ◌||◌, not, Option, none, some, List, [], ◌∷◌, ◌++◌,
  ◌==◌, leb, same, is_none, if◌then◌else◌, truthy, truthy_opt, or_else, clip,
}
use mail_control.Base.Exec.{Result, ok, err}
use mail_control.Mail.Account.{
  MailAccount, MailProvider, gmail, microsoft, AccountStatus, connected, error, syncing,
  reauth_required, disconnected, Store, ProviderError, mark_reauth_if_current,
}
use mail_control.Mail.Microsoft.Graph.{
  Fault, FaultKind, http_status, transient, reauth, superseded, other_fault,
}
use mail_control.Mail.Push.Graph.{GraphSubscription}

-- The parts of the answer to a request for a subscription that are read; the time is parsed.
pub record SubscriptionAnswer : Type 0 where
  pub id : Option String
  pub expiration : Option ℕ

-- `client_for` is `graph_client_for_account`, the others are calls of its client, to which the URLs of
-- the settings go; `secret` stands for
-- `secrets.token_urlsafe(32)[:128]`, and `hours` for the settings, in seconds.
pub record Renewal : Type 0 where
  pub now : ℕ
  pub notification_url : String
  pub subscription_seconds : ℕ
  pub renewal_seconds : ℕ
  pub secret : String
  pub client_for : MailAccount → Result Fault (Unit {0})
  pub renew : String → ℕ → Result Fault SubscriptionAnswer
  pub create : GraphSubscription → ℕ → Result Fault SubscriptionAnswer
  pub reauthorize : String → Result Fault (Unit {0})

abbrev pub is_gone : FaultKind → Bool
is_gone (http_status code) = code == 404 || code == 410
is_gone _ = false

abbrev config_error : Fault
config_error = record {
  kind = other_fault;
  error = record {
    message = "Microsoft Graph webhook URL is not configured";
    expected_grant = none;
  };
  retry_at = none;
}

-- A row of the loop, after its round.
pub record Row : Type 0 where
  pub store : Store
  pub state : Option GraphSubscription
  pub alerts : List String
  pub is_renewed : Bool

module _ (env : Renewal) where
  abbrev new_subscription : MailAccount → GraphSubscription
  new_subscription a = record {
    tenant_id = a.tenant_id;
    mail_account_id = a.id;
    subscription_id = none;
    resource = "me/messages";
    client_state = env.secret;
    expiration_at = none;
    renewed_at = none;
    last_notification_at = none;
    status = "pending";
    last_error = none;
  }

  abbrev pub state_for : MailAccount → Option GraphSubscription → GraphSubscription
  state_for a none = new_subscription a
  state_for a (some g) = g

  -- `str(response.get("id") or state.subscription_id)`
  abbrev chosen_id : Option String → Option String → String
  chosen_id answered kept =
      if truthy_opt answered then or_else answered String.[] else or_else kept "None"

  abbrev pub renewed : GraphSubscription → SubscriptionAnswer → GraphSubscription
  renewed g r = record g {
    subscription_id = some (chosen_id r.id g.subscription_id);
    expiration_at = r.expiration;
    renewed_at = some env.now;
    status = "active";
    last_error = none;
  }

  finish :
      GraphSubscription
      → Result Fault SubscriptionAnswer
      → Result Fault (Unit {0}) × GraphSubscription
  finish g (ok r) = (ok tt, renewed g r)
  finish g (err f) = (err f, g)

  abbrev requested : ℕ
  requested = env.now + env.subscription_seconds

  on_renewal :
      GraphSubscription
      → Result Fault SubscriptionAnswer
      → Result Fault (Unit {0}) × GraphSubscription
  unfolding finish
  on_renewal g (ok r) = finish g (ok r)
  on_renewal g (err f) =
      let cleared : GraphSubscription = record g { subscription_id = none } in
      if is_gone f.kind then finish cleared (env.create cleared requested) else (err f, g)

  register : GraphSubscription → Result Fault (Unit {0}) × GraphSubscription
  unfolding on_renewal
  register g =
      if truthy_opt g.subscription_id
      then on_renewal g (env.renew (or_else g.subscription_id String.[]) requested)
      else finish g (env.create g requested)

  with_client :
      GraphSubscription → Result Fault (Unit {0}) → Result Fault (Unit {0}) × GraphSubscription
  unfolding register
  with_client g (ok u) = register g
  with_client g (err f) = (err f, g)

  abbrev is_configured : Bool
  is_configured = truthy env.notification_url

  -- `ensure_graph_subscription`: its result, and the row; the lifecycle URL is the notification URL
  -- where it is empty. A new row is not added when the call raises.
  unfoldable pub ensure_graph_subscription :
      MailAccount → Option GraphSubscription → Result Fault (Unit {0}) × Option GraphSubscription
  unfolding with_client
  ensure_graph_subscription a state =
      if not is_configured
      then (err config_error, state)
      else let (r, g) = with_client (state_for a state) (env.client_for a) in
        elim r [
          | ok u ↦ (ok tt, some g)
          | err f ↦ (err f, elim state [ none ↦ none | some old ↦ some g ])
        ]

  on_reauthorized :
      GraphSubscription → Result Fault (Unit {0}) → Result Fault (Unit {0}) × GraphSubscription
  on_reauthorized g (ok u) = (ok tt, record g { status = "active"; last_error = none })
  on_reauthorized g (err f) = (err f, g)

  reauthorize_with :
      GraphSubscription
      → String
      → Result Fault (Unit {0})
      → Result Fault (Unit {0}) × GraphSubscription
  unfolding on_reauthorized
  reauthorize_with g id (ok u) = on_reauthorized g (env.reauthorize id)
  reauthorize_with g id (err f) = (err f, g)

  -- `reauthorize_subscription`
  pub reauthorize_subscription :
      MailAccount → GraphSubscription → Result Fault (Unit {0}) × GraphSubscription
  unfolding reauthorize_with
  reauthorize_subscription a g =
      if truthy_opt g.subscription_id
      then reauthorize_with g (or_else g.subscription_id String.[]) (env.client_for a)
      else (ok tt, g)

  abbrev is_due_account : MailAccount → Bool
  is_due_account a = elim a.provider [
    | gmail ↦ false
    | microsoft ↦ elim a.status [ connected ↦ true | error ↦ true | _ ↦ false ]
  ]

  abbrev is_due_state : Option GraphSubscription → Bool
  is_due_state none = true
  is_due_state (some g) =
      is_none g.expiration_at
      || leb (or_else g.expiration_at 0) (env.now + env.renewal_seconds)
      || not (same g.status "active")

  -- The WHERE clause.
  abbrev pub is_due : MailAccount → Option GraphSubscription → Bool
  is_due a state = is_due_account a && is_due_state state

  then_ensure :
      MailAccount
      → Result Fault (Unit {0}) × GraphSubscription
      → Result Fault (Unit {0}) × Option GraphSubscription
  unfolding ensure_graph_subscription
  then_ensure a (ok u, g) = ensure_graph_subscription a (some g)
  then_ensure a (err f, g) = (err f, some g)

  -- The `try` block of a row.
  try_renew :
      MailAccount → Option GraphSubscription → Result Fault (Unit {0}) × Option GraphSubscription
  unfolding reauthorize_subscription then_ensure
  try_renew a none = ensure_graph_subscription a none
  try_renew a (some g) =
      if same g.status "reauthorizationRequired"
      then then_ensure a (reauthorize_subscription a g)
      else ensure_graph_subscription a (some g)

  abbrev marked : String → String → Option GraphSubscription → Option GraphSubscription
  marked status message none = none
  marked status message (some g) = some (record g { status = status; last_error = some message })

  -- The `except` clauses.
  on_fault : Fault → Store → Option GraphSubscription → Row
  on_fault f store state = elim f.kind [
    | superseded ↦ record { store = store; state = state; alerts = []; is_renewed = false }
    | reauth ↦
        let (store', applied) = mark_reauth_if_current store f.error in
        if applied
        then record {
          store = store';
          state = marked "reauth_required" f.error.message state;
          alerts = f.error.message ∷ [];
          is_renewed = false;
        }
        else record { store = store'; state = state; alerts = []; is_renewed = false }
    | transient ↦ record {
      store = store;
      state = marked "transient_error" f.error.message state;
      alerts = [];
      is_renewed = false;
    }
    | _ ↦ record {
      store = store;
      state = marked "error" (clip 2000 f.error.message) state;
      alerts = [];
      is_renewed = false;
    }
  ]

  -- One round of the loop.
  unfoldable pub renew_row : Store → Option GraphSubscription → Row
  unfolding try_renew on_fault
  renew_row store state =
      let (r, state') = try_renew store.object state in
      elim r [
        | ok u ↦ record { store = store; state = state'; alerts = []; is_renewed = true }
        | err f ↦ on_fault f store state'
      ]

  abbrev pub count_renewed : List Row → ℕ
  count_renewed [] = 0
  count_renewed (r ∷ rs) = (if r.is_renewed then 1 else 0) + count_renewed rs

  -- `renew_due_microsoft_graph_subscriptions`, where it is enabled: the rows that are due, after
  -- their rounds.
  pub renew_due : List (Store × Option GraphSubscription) → List Row
  unfolding renew_row
  renew_due [] = []
  renew_due ((store, state) ∷ rest) =
      let later = renew_due rest in
      if is_due store.object state then renew_row store state ∷ later else later
