-- ===== src/Mail/Push/Subscription/Renewed.antt =====
-- What a renewal of a Graph subscription leaves.
use mail_control.Base.{
  ◌≡◌, refl, String, true, false, Option, none, some, [], arith, is_some, Bool-cases, inl, inr,
  truthy_opt, or_else,
}
use mail_control.Base.Exec.{Result, ok, err, Result-cases, is_ok}
use mail_control.Mail.Account.{MailAccount, Store, disconnected}
use mail_control.Mail.Account.Fence.{mark_paused}
use mail_control.Mail.Microsoft.Graph.{Fault, FaultKind, reauth}
use mail_control.Mail.Push.Graph.{GraphSubscription}
use mail_control.Mail.Push.Subscription.{
  Renewal, SubscriptionAnswer, is_gone, state_for, finish, on_renewal, register, with_client,
  ensure_graph_subscription, is_configured, requested, on_fault, try_renew, renew_row,
}

-- The row stands for the account, is active with an id, shows no error, and says when it was renewed.
pub record IsRenewed (env : Renewal) (before after : GraphSubscription) : Type 0 where
  pub tenant : after.tenant_id ≡ before.tenant_id
  pub account : after.mail_account_id ≡ before.mail_account_id
  pub secret : after.client_state ≡ before.client_state
  pub has_id : is_some after.subscription_id ≡ true
  pub status : after.status ≡ "active"
  pub no_error : after.last_error ≡ none
  pub time : after.renewed_at ≡ some env.now

module _ (env : Renewal) where
  abbrev Leaves : GraphSubscription → Result Fault (Unit {0}) × GraphSubscription → Type 0
  Leaves g (r, after) = is_ok r ≡ true → IsRenewed env g after

  finish-Leaves :
      (g h : GraphSubscription) (r : Result Fault SubscriptionAnswer)
      → h.tenant_id ≡ g.tenant_id
      → h.mail_account_id ≡ g.mail_account_id
      → h.client_state ≡ g.client_state
      → Leaves g (finish env h r)
  unfolding finish
  finish-Leaves g h (ok r) t a c k = record {
    tenant = t;
    account = a;
    secret = c;
    has_id = refl;
    status = refl;
    no_error = refl;
    time = refl;
  }
  finish-Leaves g h (err f) t a c k = absurd (ground (arith, k))

  on_renewal-Leaves :
      (g : GraphSubscription) (r : Result Fault SubscriptionAnswer) → Leaves g (on_renewal env g r)
  unfolding on_renewal
  on_renewal-Leaves g (ok r) k = finish-Leaves g g (ok r) refl refl refl k
  on_renewal-Leaves g (err f) k = elim (Bool-cases (is_gone f.kind)) [
    | inl gone ↦
        rw (on_renewal, gone)
          (finish-Leaves g (record g { subscription_id = none })
            (env.create (record g { subscription_id = none }) (requested env)) refl refl refl
            (rw (on_renewal, gone) at k))
    | inr other ↦ absurd (ground (arith, (rw (on_renewal, other) at k)))
  ]

  register-Leaves : (g : GraphSubscription) → Leaves g (register env g)
  unfolding register
  register-Leaves g k = elim (Bool-cases (truthy_opt g.subscription_id)) [
    | inl old ↦
        rw (register, old)
          (on_renewal-Leaves g (env.renew (or_else g.subscription_id String.[]) (requested env))
            (rw (register, old) at k))
    | inr new ↦
        rw (register, new)
          (finish-Leaves g g (env.create g (requested env)) refl refl refl
            (rw (register, new) at k))
  ]

  with_client-Leaves :
      (g : GraphSubscription) (r : Result Fault (Unit {0})) → Leaves g (with_client env g r)
  unfolding with_client
  with_client-Leaves g (ok u) k = register-Leaves g k
  with_client-Leaves g (err f) k = absurd (ground (arith, k))

  ensure_parts :
      (a : MailAccount) (state : Option GraphSubscription)
      (r : Result Fault (Unit {0}) × GraphSubscription)
      → Leaves (state_for env a state) r
      → let (q, after) : Result Fault (Unit {0}) × Option GraphSubscription = elim r.0 [
        | ok u ↦ (ok tt, some r.1)
        | err f ↦ (err f, elim state [ none ↦ none | some old ↦ some r.1 ])
      ] in
        (is_ok q ≡ true
          → (g : GraphSubscription) × (after ≡ some g) × IsRenewed env (state_for env a state) g)
        × (state ≡ none → is_ok q ≡ false → after ≡ none)
  ensure_parts a state (ok u, g) h = (λ k. (g, refl, h refl), λ s k. absurd (ground (arith, k)))
  ensure_parts a state (err f, g) h = (λ k. absurd (ground (arith, k)), λ s k. rw s refl)

  -- A subscription that is made or renewed is active, has an id, shows no error and stands for its
  -- account, also when the service had forgotten the one that it renews and a new one is made
  -- instead; a call that raises makes no row for an account that had none.
  ensure-IsRenewed :
      (a : MailAccount) (state : Option GraphSubscription)
      → let (r, after) = ensure_graph_subscription env a state in
        (is_ok r ≡ true
          → (g : GraphSubscription) × (after ≡ some g) × IsRenewed env (state_for env a state) g)
        × (state ≡ none → is_ok r ≡ false → after ≡ none)
  unfolding ensure_graph_subscription
  ensure-IsRenewed a state = elim (Bool-cases (is_configured env)) [
    | inr off ↦ rw (ensure_graph_subscription, off) (λ k. absurd (ground (arith, k)), λ s k. s)
    | inl on ↦
        rw (ensure_graph_subscription, on)
          (ensure_parts a state (with_client env (state_for env a state) (env.client_for a))
            (with_client-Leaves (state_for env a state) (env.client_for a)))
  ]

  on_fault_paused :
      (f : Fault) (store : Store) (state : Option GraphSubscription)
      → store.row.status ≡ disconnected
      → let row = on_fault env f store state in
        (row.store.row ≡ store.row) × (row.alerts ≡ []) × (row.is_renewed ≡ false)
  unfolding on_fault
  on_fault_paused f store state h = go f.kind refl
    where
      go :
          (k : FaultKind)
          → f.kind ≡ k
          → let row = on_fault env f store state in
            (row.store.row ≡ store.row) × (row.alerts ≡ []) × (row.is_renewed ≡ false)
      go reauth e =
          let (same_row, refused) = mark_paused store f.error h in
          rw (on_fault, e) (rw refused (same_row, refl, refl))
      go _ e = rw (on_fault, e) (refl, refl, refl)

  -- The row of an account that was paused meanwhile is not written by a renewal, whatever the service
  -- answers, and nobody is alerted about it.
  renew_paused :
      (store : Store) (state : Option GraphSubscription)
      → store.row.status ≡ disconnected
      → ((renew_row env store state).store.row ≡ store.row)
        × ((renew_row env store state).alerts ≡ [])
  unfolding renew_row
  renew_paused store state h = elim (Result-cases (try_renew env store.object state).0) [
    | inl (u, e) ↦ rw (renew_row, e) (refl, refl)
    | inr (f, e) ↦
        rw (renew_row, e)
          (let k = on_fault_paused f store (try_renew env store.object state).1 h in (k.0, k.1))
  ]
