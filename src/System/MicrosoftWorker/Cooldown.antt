-- ===== src/System/MicrosoftWorker/Cooldown.antt =====
-- The cooldown after a temporary failure of Microsoft Graph, for the worker and the scheduler.
use mail_control.Base.{
  ℕ, ◌+◌, ◌≡◌, Bool, true, false, Option, arith, refl, ◌∙◌, Bool-cases, inl, inr, ==_self, not,
  ◌||◌, ◌&&◌, ltb, ◌<◌, ◌≤◌, ◌⊎◌, none, some,
}
use mail_control.Mail.Account.{microsoft, ProviderError}
use mail_control.Mail.TokenManager.{is_unavailable}
use mail_control.System.Redis.{cooldown, exists}
use mail_control.System.Alerts.{account_issue}
use mail_control.System.Worker.{Message, acked, WorkerState}
use mail_control.System.MicrosoftWorker.{
  Surroundings, cooling, cooldown_seconds, is_addressed, report, start_transient_cooldown,
  on_sync_error, process_message,
}
use mail_control.Base.{
  sym, subst, ◌++◌, any-append, List, [], ◌∷◌, ◌==◌, filter_by, map, any, All, ap,
}
use mail_control.Mail.Account.{MailAccount, MailProvider}
use mail_control.System.Redis.{Redis}
use mail_control.System.Scheduler.{Broker, Delivery, is_due, delivery, enqueue_due_accounts}
use mail_control.System.Scheduler.Ready.{is_blocked, AgreesWith, enqueue_exactly_ready}

-- The cooldown outlasts the report of the failure.
cooled :
    (w : Surroundings) (e : ProviderError) (t : Option ℕ) (s : WorkerState) (now account : ℕ)
    → s.store.object.id ≡ account
    → ltb now (w.failed_at + cooldown_seconds w.failed_at t) ≡ true
    → exists
        (report w e (start_transient_cooldown w t s)).alerts.redis
        now
        (cooldown microsoft account)
      ≡ true
unfolding report start_transient_cooldown account_issue
cooled w e t s now account i h = ground (arith, i, ==_self account)

-- A temporary failure pauses the account for 300 seconds, and until a second after the time that
-- the provider named: a delivery that meets the state left by the handler of the failure is
-- acknowledged and does nothing.
cooling_ignored :
    (w w' : Surroundings) (m m' : Message) (e : ProviderError) (t : Option ℕ) (s : WorkerState)
    → w.faults.set_raises ≡ false
    → m'.reads_tenant ≡ true
    → w'.faults.exists_raises ≡ false
    → s.store.object.id ≡ s.store.row.id
    → ltb w'.now (w.failed_at + cooldown_seconds w.failed_at t) ≡ true
    → let s' = (on_sync_error w m e (cooling t) s).1 in process_message w' m' s' ≡ (acked, s')
unfolding on_sync_error report start_transient_cooldown process_message
cooling_ignored w w' m m' e t s sets reads answers i h =
    let r = s.store.row in
    let c = cooled w e t s w'.now r.id i h in
    let readable : not m'.reads_tenant ≡ false = ground (arith, reads) in
    elim (Bool-cases (not (is_addressed m' r) || is_unavailable r.status)) [
      | inl other ↦ ground (arith, sets, reads, other)
      | inr held ↦ ground (arith, sets, reads, answers, held, c)
    ]

abbrev pub is_for : ℕ → Delivery → Bool
is_for id d = d.mail_account_id == id

-- The scheduler queues no account whose cooldown lasts.
cooling_skipped :
    (r : Redis) (now interval account : ℕ) (provider_of : ℕ → MailProvider)
    → exists r now (cooldown microsoft account) ≡ true
    → provider_of account ≡ microsoft
    → (table : List MailAccount) → All (AgreesWith provider_of) table
    → any
        (is_for account)
        (map delivery (filter_by (λ a. is_due now interval a && not (is_blocked r now a)) table))
      ≡ false
cooling_skipped r now interval account provider_of c p [] h = refl
cooling_skipped r now interval account provider_of c p (a ∷ rest) h =
    elim (Bool-cases (a.id == account)) [
      | inl own ↦
          let id : a.id ≡ account = ground (arith, own) in
          let cools : exists r now (cooldown a.provider a.id) ≡ true =
            rw (h.0 ∙ ap provider_of id ∙ p) (rw id c) in
          ground
            (arith, own, cools, cooling_skipped r now interval account provider_of c p rest h.1)
      | inr other ↦
          ground (arith, other, cooling_skipped r now interval account provider_of c p rest h.1)
    ]

-- A time less than 300 seconds after the failure, or not after the one that the provider named.
abbrev pub IsEarly : ℕ → ℕ → Option ℕ → Type 0
IsEarly failed_at now retry_at =
    (now < failed_at + 300) ⊎ ((r : ℕ) × (retry_at ≡ some r) × (now ≤ r))

early_cools :
    (failed_at now : ℕ) (t : Option ℕ)
    → IsEarly failed_at now t
    → ltb now (failed_at + cooldown_seconds failed_at t) ≡ true
early_cools failed_at now none (inl early) = ground (arith, early)
early_cools failed_at now none (inr (r, named, early)) = absurd (ground (arith, named))
early_cools failed_at now (some u) (inl early) = ground (arith, early)
early_cools failed_at now (some u) (inr (r, named, early)) =
    let e : u ≡ r = ground (arith, named) in ground (arith, e, early)

-- What is not in a list is not in its beginning.
not_begun :
    (q : Delivery → Bool) (sent rest : List Delivery)
    → any q (sent ++ rest) ≡ false
    → any q sent ≡ false
not_begun q sent rest h = ground (arith, h, any-append q sent rest)

-- A temporary failure of Microsoft Graph pauses its account, for 300 seconds and until the time that
-- the provider named has passed: in the state that the handler of the failure leaves, where the
-- cooldown was set, a delivery for the account is acknowledged and does nothing, where its payload
-- can be read and Redis answers, and the scheduler queues none.
pub microsoft_cooling_pauses :
    (w w' : Surroundings) (m m' : Message) (e : ProviderError) (t : Option ℕ) (s : WorkerState)
    (b : Broker) (interval : ℕ) (table : List MailAccount) (provider_of : ℕ → MailProvider)
    → w.faults.set_raises ≡ false
    → m'.reads_tenant ≡ true
    → w'.faults.exists_raises ≡ false
    → s.store.object.id ≡ s.store.row.id
    → provider_of s.store.row.id ≡ microsoft
    → All (AgreesWith provider_of) table
    → IsEarly w.failed_at w'.now t
    → let s' = (on_sync_error w m e (cooling t) s).1 in
      (process_message w' m' s' ≡ (acked, s'))
      × (any
            (is_for s.store.row.id)
            (enqueue_due_accounts b s'.alerts.redis w'.now interval table).0
          ≡ false)
unfolding on_sync_error
microsoft_cooling_pauses w w' m m' e t s b interval table provider_of sets reads answers i p agree
      early =
    let cools = early_cools w.failed_at w'.now t early in
    let account = s.store.row.id in
    let s' : WorkerState = report w e (start_transient_cooldown w t s) in
    let left : (on_sync_error w m e (cooling t) s).1 ≡ s' = ground (arith, sets) in
    let k = enqueue_exactly_ready b s'.alerts.redis w'.now provider_of interval table agree in
    let skipped =
      cooling_skipped s'.alerts.redis w'.now interval account provider_of
        (cooled w e t s w'.now account i cools) p table agree in
    (
      cooling_ignored w w' m m' e t s sets reads answers i cools,
      subst
          (λ (u : WorkerState).
            any (is_for account) (enqueue_due_accounts b u.alerts.redis w'.now interval table).0
            ≡ false)
          (sym left)
          (not_begun (is_for account) _ k.begun.0 (ap (any (is_for account)) k.begun.1 ∙ skipped)),
    )
