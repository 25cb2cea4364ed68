-- ===== src/System/Worker/Deliveries.antt =====
-- The lock and the redelivery of a message.
use mail_control.Base.{
  String, Option, some, ℕ, ◌+◌, ◌≡◌, Bool, true, false, none, some, arith, refl, ◌∙◌, Bool-cases,
  inl, inr, same_self, ==_self, not, ◌||◌, any, same,
}
use mail_control.Base.Exec.{Result, ok, err, Result-cases}
use mail_control.Mail.Account.{gmail, update_account_state, mark_reauth_if_current}
use mail_control.Mail.TokenManager.{access_token, is_unavailable}
use mail_control.Mail.Gmail.Client.{SyncError, SyncRun}
use mail_control.Mail.Gmail.Synchronize.{synchronize, provider_error}
use mail_control.Mail.Gmail.Imap
use mail_control.System.Redis.{sync_lock, cooldown, exists, set}
use mail_control.System.Alerts.{account_issue, account_recovered}
use mail_control.System.Worker.{
  Message, Settled, acked, requeued, rejected, unsettled, WorkerState, Surroundings, Failure,
  ignored, needs_reauth, plain_gmail, unexpected, cooling, classify, of_token, error_values,
  is_addressed, loaded, report, cool_down, commit, on_setup_error, on_sync_error, recover, input_of,
  with_sync, finish, over_imap, over_gmail, synchronize_account, process_message, release, handler,
  after_raise,
}

abbrev pub is_requeued : Settled → Bool
is_requeued requeued = true
is_requeued _ = false

abbrev pub is_final : Settled → Bool
is_final acked = true
is_final rejected = true
is_final requeued = false
is_final unsettled = false

abbrev pub is_told : Settled → Bool
is_told unsettled = false
is_told _ = true

told-after_raise : (m : Message) → is_told (after_raise m) ≡ true
told-after_raise m = ground arith

module _ (w : Surroundings) (a : ℕ) where
  -- A step of the handler: it leaves the locks, and requeues no message that was redelivered.
  record IsStep (m : Message) (s : WorkerState) (r : Settled × WorkerState) : Type 0 where
    lock : r.1.alerts.redis.entry (sync_lock gmail a) ≡ s.alerts.redis.entry (sync_lock gmail a)
    once : is_requeued r.0 ≡ true → m.redelivered ≡ false
    told : is_told r.0 ≡ true

  report_lock :
      (e : SyncError) (s : WorkerState)
      → (report w e s).alerts.redis.entry (sync_lock gmail a)
        ≡ s.alerts.redis.entry (sync_lock gmail a)
  unfolding report account_issue
  report_lock e s = ground arith

  recover_lock :
      (s : WorkerState)
      → (recover w s).alerts.redis.entry (sync_lock gmail a)
        ≡ s.alerts.redis.entry (sync_lock gmail a)
  unfolding recover account_recovered
  recover_lock s = ground arith

  once_after_raise : (m : Message) → is_requeued (after_raise m) ≡ true → m.redelivered ≡ false
  once_after_raise m h = ground arith

  setup-IsStep :
      (m : Message) (e : SyncError) (f : Failure) (s : WorkerState)
      → IsStep m s (on_setup_error w m e f s)
  unfolding on_setup_error cool_down
  setup-IsStep m e ignored s = record { lock = refl; once = λ h. absurd (cc); told = refl }
  setup-IsStep m e unexpected s = record {
    lock = refl;
    once = once_after_raise m;
    told = told-after_raise m;
  }
  setup-IsStep m e needs_reauth s =
      let (store, applied) = mark_reauth_if_current s.store (provider_error e) in
      elim (Bool-cases applied) [
        | inl done ↦
            rw (done, on_setup_error)
              (record {
                lock = report_lock e (commit w store s);
                once = λ h. absurd (cc);
                told = refl;
              })
        | inr refused ↦
            rw (refused, on_setup_error)
              (record { lock = refl; once = λ h. absurd (cc); told = refl })
      ]
  setup-IsStep m e (cooling t) s =
      let (store, applied) =
        update_account_state s.store (error_values e) (some (provider_error e)) in
      elim (Bool-cases applied) [
        | inl done ↦ elim (Bool-cases w.faults.set_raises) [
          | inl raises ↦
              rw (done, raises, on_setup_error)
                (record { lock = refl; once = once_after_raise m; told = told-after_raise m })
          | inr sets ↦
              rw (done, sets, on_setup_error)
                (record {
                  lock = report_lock e (cool_down w t (commit w store s));
                  once = λ h. absurd (cc);
                  told = refl;
                })
        ]
        | inr refused ↦
            rw (refused, on_setup_error)
              (record { lock = refl; once = λ h. absurd (cc); told = refl })
      ]
  setup-IsStep m e plain_gmail s =
      let (store, applied) =
        update_account_state s.store (error_values e) (some (provider_error e)) in
      elim (Bool-cases applied) [
        | inl done ↦
            rw (done, on_setup_error)
              (record {
                lock = report_lock e (commit w store s);
                once = once_after_raise m;
                told = told-after_raise m;
              })
        | inr refused ↦
            rw (refused, on_setup_error)
              (record { lock = refl; once = λ h. absurd (cc); told = refl })
      ]

  sync-IsStep :
      (m : Message) (e : SyncError) (f : Failure) (s : WorkerState)
      → IsStep m s (on_sync_error w m e f s)
  unfolding on_sync_error cool_down
  sync-IsStep m e ignored s = record { lock = refl; once = λ h. absurd (cc); told = refl }
  sync-IsStep m e needs_reauth s =
      let (store, applied) = mark_reauth_if_current s.store (provider_error e) in
      elim (Bool-cases applied) [
        | inl done ↦
            rw (done, on_sync_error)
              (record {
                lock = report_lock e (commit w store s);
                once = λ h. absurd (cc);
                told = refl;
              })
        | inr refused ↦
            rw (refused, on_sync_error)
              (record { lock = refl; once = λ h. absurd (cc); told = refl })
      ]
  sync-IsStep m e (cooling t) s = elim (Bool-cases w.faults.set_raises) [
    | inl raises ↦
        rw (raises, on_sync_error)
          (record { lock = refl; once = once_after_raise m; told = told-after_raise m })
    | inr sets ↦
        rw (sets, on_sync_error)
          (record { lock = report_lock e (cool_down w t s); once = λ h. absurd (cc); told = refl })
  ]
  sync-IsStep m e plain_gmail s = record {
    lock = report_lock e s;
    once = once_after_raise m;
    told = told-after_raise m;
  }
  sync-IsStep m e unexpected s = record {
    lock = report_lock e s;
    once = once_after_raise m;
    told = told-after_raise m;
  }

  finish-IsStep :
      (m : Message) (handle : SyncError → WorkerState → Settled × WorkerState)
      → ((e : SyncError) (s : WorkerState) → IsStep m s (handle e s))
      → (r : Result SyncError SyncRun) (s : WorkerState) → IsStep m s (finish w handle r s)
  unfolding finish
  finish-IsStep m handle h (ok run) s = record {
    lock = recover_lock s;
    once = λ k. absurd (cc);
    told = refl;
  }
  finish-IsStep m handle h (err e) s = h e s

  imap-IsStep :
      (m : Message) (password : Option String) (s : WorkerState)
      → IsStep m s (over_imap w m password s)
  unfolding over_imap with_sync
  imap-IsStep m none s = record {
    lock = refl;
    once = once_after_raise m;
    told = told-after_raise m;
  }
  imap-IsStep m (some password) s =
      let (r, t) = Imap.synchronize w.env w.imap (input_of w s) in
      let h =
        finish-IsStep m (λ e. on_setup_error w m e (classify e))
          (λ e u. setup-IsStep m e (classify e) u) r (with_sync w s t) in
      record { lock = h.lock; once = h.once; told = h.told }

  synchronize-IsStep : (m : Message) (s : WorkerState) → IsStep m s (synchronize_account w m s)
  unfolding synchronize_account over_gmail with_sync
  synchronize-IsStep m s =
      let (token, store) =
        access_token w.cipher w.oauth w.oauth_world w.now w.oauth_lock none s.store in
      let s' : WorkerState = record s { store = store } in
      elim (Bool-cases (any (λ scope. same scope "imap") s.store.object.granted_scopes)) [
        | inl imap ↦
            rw (imap, synchronize_account)
              (imap-IsStep m (w.cipher.decrypt s.store.object.encrypted_refresh_token) s)
        | inr oauth ↦ elim (Result-cases token) [
          | inr (e, k) ↦
              let h = setup-IsStep m (of_token e) (classify (of_token e)) s' in
              rw (oauth, k, synchronize_account, over_gmail)
                (record { lock = h.lock; once = h.once; told = h.told })
          | inl (t, k) ↦
              let (r, u) = synchronize w.env w.fuel (input_of w s') in
              let h =
                finish-IsStep m (λ e. on_sync_error w m e (classify e))
                  (λ e v. sync-IsStep m e (classify e) v) r (with_sync w s' u) in
              rw (oauth, k, synchronize_account, over_gmail)
                (record { lock = h.lock; once = h.once; told = h.told })
        ]
      ]

  process-IsStep : (m : Message) (s : WorkerState) → IsStep m s (process_message w m s)
  unfolding process_message
  process-IsStep m s = elim (Bool-cases m.reads_tenant) [
    | inr bad ↦
        rw (bad, process_message)
          (record { lock = refl; once = once_after_raise m; told = told-after_raise m })
    | inl good ↦
        elim (Bool-cases (not (is_addressed m s.store.row) || is_unavailable s.store.row.status)) [
          | inl other ↦
              rw (good, other, process_message)
                (record { lock = refl; once = λ h. absurd (cc); told = refl })
          | inr held ↦ elim (Bool-cases w.faults.exists_raises) [
            | inl raises ↦
                rw (good, held, raises, process_message)
                  (record { lock = refl; once = once_after_raise m; told = told-after_raise m })
            | inr answers ↦
                elim (Bool-cases (exists s.alerts.redis w.now (cooldown gmail s.store.row.id))) [
                  | inl cools ↦
                      rw (good, held, answers, cools, process_message)
                        (record { lock = refl; once = λ h. absurd (cc); told = refl })
                  | inr ready ↦
                      let h = synchronize-IsStep m (record s { store = loaded s.store.row }) in
                      rw (good, held, answers, ready, process_message)
                        (record { lock = h.lock; once = h.once; told = h.told })
                ]
          ]
        ]
  ]

release_frees :
    (w : Surroundings) (a : ℕ) (s : WorkerState) (until : ℕ)
    → w.faults.release_raises ≡ false
    → s.alerts.redis.entry (sync_lock gmail a)
      ≡ some (record { value = w.lock_token; expires_at = some until })
    → exists (release w a s).alerts.redis w.released_at (sync_lock gmail a) ≡ false
unfolding release
release_frees w a s until r h = ground (arith, r, h, same_self w.lock_token, ==_self a)

-- The state in which the lock of a message's account has just been taken.
abbrev with_lock : Surroundings → Message → WorkerState → WorkerState
with_lock w m s = record s {
  alerts = record s.alerts {
    redis = set s.alerts.redis w.now (sync_lock gmail m.mail_account_id) w.lock_token (some 7200);
  };
}

final_if :
    (r : Settled) (again : Bool)
    → again ≡ true
    → (is_requeued r ≡ true → again ≡ false)
    → is_told r ≡ true
    → is_final r ≡ true
final_if acked again h k t = refl
final_if rejected again h k t = refl
final_if requeued again h k t = absurd (ground (arith, h, k refl))
final_if unsettled again h k t = absurd (ground (arith, t))

module _ (w : Surroundings) where
  -- A message that was delivered before is acknowledged or rejected, whatever the providers, the
  -- account and the networks do, and also where its tenant cannot be read or Redis fails after the
  -- lock was taken: where its account can be read and Redis answers the call for the lock.
  pub redelivered_is_settled :
      (m : Message) (s : WorkerState)
      → m.redelivered ≡ true
      → m.reads_account ≡ true
      → w.faults.lock_raises ≡ false
      → is_final (handler w m s).0 ≡ true
  unfolding handler
  redelivered_is_settled m s h reads takes =
      let begins : not m.reads_account || w.faults.lock_raises ≡ false =
        ground (arith, reads, takes) in
      elim (Bool-cases (exists s.alerts.redis w.now (sync_lock gmail m.mail_account_id))) [
        | inl busy ↦ rw (begins, busy, handler) refl
        | inr free ↦
            let step = process-IsStep w m.mail_account_id m (with_lock w m s) in
            rw (begins, free, handler)
              (final_if (process_message w m (with_lock w m s)).0 m.redelivered h step.once
                step.told)
      ]

  -- After a delivery the account's lock is free where it was free before, when no other process
  -- writes to Redis meanwhile: it was released, or it had expired. The delivery's account can be
  -- read, and Redis answers the calls for the lock and for its release.
  pub handler_frees_lock :
      (m : Message) (s : WorkerState)
      → m.reads_account ≡ true
      → w.faults.lock_raises ≡ false
      → w.faults.release_raises ≡ false
      → exists s.alerts.redis w.now (sync_lock gmail m.mail_account_id) ≡ false
      → exists (handler w m s).1.alerts.redis w.released_at (sync_lock gmail m.mail_account_id)
        ≡ false
  unfolding handler release
  handler_frees_lock m s reads takes frees h =
      let begins : not m.reads_account || w.faults.lock_raises ≡ false =
        ground (arith, reads, takes) in
      let step = process-IsStep w m.mail_account_id m (with_lock w m s) in
      let s' = (process_message w m (with_lock w m s)).1 in
      rw (begins, h, handler)
        (release_frees w m.mail_account_id s' (w.now + 7200) frees
          (step.lock ∙ ground (arith, ==_self m.mail_account_id)))
