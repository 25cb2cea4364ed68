-- ===== src/System/MicrosoftWorker/Deliveries.antt =====
-- The lock and the redelivery of a message for a Microsoft account.
use mail_control.Base.{
  ℕ, ◌+◌, ◌≡◌, true, false, none, some, String, arith, refl, ◌∙◌, Bool-cases, inl, inr, same_self,
  ==_self, not, ◌||◌, ◌&&◌,
}
use mail_control.Base.Exec.{Result, ok, err}
use mail_control.Mail.Account.{
  microsoft, ProviderError, update_account_state, mark_reauth_if_current,
}
use mail_control.Mail.TokenManager.{TokenFault, access_token, is_unavailable}
use mail_control.Mail.Microsoft.Graph.{SyncError}
use mail_control.Mail.Microsoft.Synchronize.{synchronize}
use mail_control.System.Redis.{sync_lock, cooldown, exists, set}
use mail_control.System.Alerts.{account_issue, account_recovered}
use mail_control.System.Worker.{Message, Settled, WorkerState, after_raise, loaded}
use mail_control.System.Worker.Deliveries.{is_requeued}
use mail_control.System.MicrosoftWorker.{
  Surroundings, Failure, ignored, needs_reauth, plain_microsoft, unexpected, cooling, Problem,
  classify, of_token, error_values, is_addressed, report, start_transient_cooldown, commit,
  on_reauth, on_setup_error, on_sync_error, recover, input_of, with_sync, on_sync, on_client,
  synchronize_account, process_message, release, handler,
}

module _ (w : Surroundings) (a : ℕ) where
  -- A step of the handler: it leaves the locks, and requeues no message that was redelivered.
  record IsStep (m : Message) (s : WorkerState) (r : Settled × WorkerState) : Type 0 where
    lock :
        r.1.alerts.redis.entry (sync_lock microsoft a)
        ≡ s.alerts.redis.entry (sync_lock microsoft a)
    once : is_requeued r.0 ≡ true → m.redelivered ≡ false

  report_lock :
      (e : ProviderError) (s : WorkerState)
      → (report w e s).alerts.redis.entry (sync_lock microsoft a)
        ≡ s.alerts.redis.entry (sync_lock microsoft a)
  unfolding report account_issue
  report_lock e s = ground arith

  recover_lock :
      (s : WorkerState)
      → (recover w s).alerts.redis.entry (sync_lock microsoft a)
        ≡ s.alerts.redis.entry (sync_lock microsoft a)
  unfolding recover account_recovered
  recover_lock s = ground arith

  once_after_raise : (m : Message) → is_requeued (after_raise m) ≡ true → m.redelivered ≡ false
  once_after_raise m h = ground arith

  reauth-IsStep : (m : Message) (e : ProviderError) (s : WorkerState) → IsStep m s (on_reauth w e s)
  unfolding on_reauth
  reauth-IsStep m e s =
      let (store, applied) = mark_reauth_if_current s.store e in
      elim (Bool-cases applied) [
        | inl done ↦
            rw (done, on_reauth)
              (record { lock = report_lock e (commit w store s); once = λ h. absurd (cc) })
        | inr refused ↦ rw (refused, on_reauth) (record { lock = refl; once = λ h. absurd (cc) })
      ]

  setup-IsStep :
      (m : Message) (e : ProviderError) (f : Failure) (s : WorkerState)
      → IsStep m s (on_setup_error w m e f s)
  unfolding on_setup_error start_transient_cooldown
  setup-IsStep m e ignored s = record { lock = refl; once = λ h. absurd (cc) }
  setup-IsStep m e unexpected s = record { lock = refl; once = once_after_raise m }
  setup-IsStep m e needs_reauth s = reauth-IsStep m e s
  setup-IsStep m e (cooling t) s =
      let (store, applied) = update_account_state s.store (error_values e) (some e) in
      elim (Bool-cases applied) [
        | inl done ↦ elim (Bool-cases w.faults.set_raises) [
          | inl raises ↦
              rw (done, raises, on_setup_error) (record { lock = refl; once = once_after_raise m })
          | inr sets ↦
              rw (done, sets, on_setup_error)
                (record {
                  lock = report_lock e (start_transient_cooldown w t (commit w store s));
                  once = λ h. absurd (cc);
                })
        ]
        | inr refused ↦
            rw (refused, on_setup_error) (record { lock = refl; once = λ h. absurd (cc) })
      ]
  setup-IsStep m e plain_microsoft s =
      let (store, applied) = update_account_state s.store (error_values e) (some e) in
      elim (Bool-cases applied) [
        | inl done ↦
            rw (done, on_setup_error)
              (record { lock = report_lock e (commit w store s); once = once_after_raise m })
        | inr refused ↦
            rw (refused, on_setup_error) (record { lock = refl; once = λ h. absurd (cc) })
      ]

  sync-IsStep :
      (m : Message) (e : ProviderError) (f : Failure) (s : WorkerState)
      → IsStep m s (on_sync_error w m e f s)
  unfolding on_sync_error start_transient_cooldown
  sync-IsStep m e ignored s = record { lock = refl; once = λ h. absurd (cc) }
  sync-IsStep m e needs_reauth s = reauth-IsStep m e s
  sync-IsStep m e (cooling t) s = elim (Bool-cases w.faults.set_raises) [
    | inl raises ↦ rw (raises, on_sync_error) (record { lock = refl; once = once_after_raise m })
    | inr sets ↦
        rw (sets, on_sync_error)
          (record {
            lock = report_lock e (start_transient_cooldown w t s);
            once = λ h. absurd (cc);
          })
  ]
  sync-IsStep m e plain_microsoft s = record { lock = report_lock e s; once = once_after_raise m }
  sync-IsStep m e unexpected s = record { lock = report_lock e s; once = once_after_raise m }

  on_sync-IsStep :
      (m : Message) (r : Result SyncError (Unit {0})) (s : WorkerState)
      → IsStep m s (on_sync w m r s)
  unfolding on_sync
  on_sync-IsStep m (ok u) s = record { lock = recover_lock s; once = λ h. absurd (cc) }
  on_sync-IsStep m (err e) s = sync-IsStep m (classify e).error (classify e).failure s

  client-IsStep :
      (m : Message) (r : Result (TokenFault Problem) String) (s : WorkerState)
      → IsStep m s (on_client w m r s)
  unfolding on_client with_sync
  client-IsStep m (err e) s = setup-IsStep m (of_token e).error (of_token e).failure s
  client-IsStep m (ok token) s =
      let (r, u) = synchronize w.env w.fuel (input_of w s) in
      let h = on_sync-IsStep m r (with_sync w s u) in record { lock = h.lock; once = h.once }

  process-IsStep : (m : Message) (s : WorkerState) → IsStep m s (process_message w m s)
  unfolding process_message synchronize_account
  process-IsStep m s = elim (Bool-cases m.reads_tenant) [
    | inr bad ↦ rw (bad, process_message) (record { lock = refl; once = once_after_raise m })
    | inl good ↦
        elim (Bool-cases (not (is_addressed m s.store.row) || is_unavailable s.store.row.status)) [
          | inl other ↦
              rw (good, other, process_message) (record { lock = refl; once = λ h. absurd (cc) })
          | inr held ↦ elim (Bool-cases w.faults.exists_raises) [
            | inl raises ↦
                rw (good, held, raises, process_message)
                  (record { lock = refl; once = once_after_raise m })
            | inr answers ↦
                elim (Bool-cases
                  (exists s.alerts.redis w.now (cooldown microsoft s.store.row.id))) [
                    | inl cools ↦
                        rw (good, held, answers, cools, process_message)
                          (record { lock = refl; once = λ h. absurd (cc) })
                    | inr ready ↦
                        let s1 : WorkerState = record s { store = loaded s.store.row } in
                        let (token, store) =
                          access_token w.cipher w.oauth w.oauth_world w.now w.oauth_lock none
                            s1.store in
                        let h = client-IsStep m token (record s1 { store = store }) in
                        rw (good, held, answers, ready, process_message)
                          (record { lock = h.lock; once = h.once })
                  ]
          ]
        ]
  ]

release_frees :
    (w : Surroundings) (a : ℕ) (s : WorkerState) (until : ℕ)
    → w.faults.release_raises ≡ false
    → s.alerts.redis.entry (sync_lock microsoft a)
      ≡ some (record { value = w.lock_token; expires_at = some until })
    → exists (release w a s).alerts.redis w.released_at (sync_lock microsoft a) ≡ false
unfolding release
release_frees w a s until r h = ground (arith, r, h, same_self w.lock_token, ==_self a)

-- The state in which the lock of a message's account has just been taken.
abbrev with_lock : Surroundings → Message → WorkerState → WorkerState
with_lock w m s = record s {
  alerts = record s.alerts {
    redis =
        set s.alerts.redis w.now (sync_lock microsoft m.mail_account_id) w.lock_token (some 7200);
  };
}

-- After a delivery of either kind the account's lock is free where it was free before, when no other
-- process writes to Redis meanwhile; and a message that was delivered before is not requeued,
-- whatever the provider, the account and the networks do. The delivery's account can be read, and
-- Redis answers the calls for the lock and for its release.
pub microsoft_delivery_settles :
    (w : Surroundings) (m : Message) (s : WorkerState)
    → m.reads_account ≡ true
    → w.faults.lock_raises ≡ false
    → w.faults.release_raises ≡ false
    → exists s.alerts.redis w.now (sync_lock microsoft m.mail_account_id) ≡ false
    → let (settled, s') = handler w m s in
      (exists s'.alerts.redis w.released_at (sync_lock microsoft m.mail_account_id) ≡ false)
      × (m.redelivered && is_requeued settled ≡ false)
unfolding handler release
microsoft_delivery_settles w m s reads takes frees h =
    let begins : not m.reads_account || w.faults.lock_raises ≡ false =
      ground (arith, reads, takes) in
    let step = process-IsStep w m.mail_account_id m (with_lock w m s) in
    let (settled, s') = process_message w m (with_lock w m s) in
    rw (begins, h, handler)
      (
        release_frees w m.mail_account_id s' (w.now + 7200) frees
            (step.lock ∙ ground (arith, ==_self m.mail_account_id)),
        elim (Bool-cases (is_requeued settled)) [
          | inl again ↦ ground (arith, step.once again)
          | inr done ↦ ground (arith, done)
        ],
      )
