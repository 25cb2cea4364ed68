-- ===== src/Mail/Microsoft/Synchronize/Outcome.antt =====
-- How a synchronization with Microsoft ends: the run's status and the account's.
use mail_control.Base.{
  ℕ, ◌≡◌, Bool, true, false, none, some, arith, refl, ◌∙◌, ap, subst, sym, ◌≢◌, if◌then◌else◌,
  Bool-cases, inl, inr, is_some,
}
use mail_control.Base.Exec.{Result, err, Result-cases, is_ok, try_except, ◌>>=◌}
use mail_control.Mail.Account.{
  AccountStatus, connected, syncing, reauth_required, error, disconnected, MailAccount,
  update_account_state, flush,
}
use mail_control.Mail.Gmail.Client.{incremental, succeeded, failed, SyncRun, SyncState}
use mail_control.Mail.Gmail.Synchronize.{SyncInput, begun, status_values}
use mail_control.Mail.Account.Fence.{update_row}
use mail_control.Mail.Microsoft.Graph.{
  Env, FaultKind, http_status, transient, reauth, superseded, other_fault, Fault, SyncError, fault,
  delta_expired, authorization_changed, runtime_error, value_error, out_of_fuel, Sync,
  folder_mailboxes,
}
use mail_control.Mail.Microsoft.Sync.{all_folders, sync_folders}
use mail_control.Mail.Microsoft.Synchronize.{
  complete, on_failure, body, attempt, conclude, synchronize, not_microsoft, success_values,
  is_authorization_changed, failure_values, failed_status, resting, provider_error,
}

-- What the account's status is after an error, by the status before the run.
abbrev pub IsAfterFault : AccountStatus → FaultKind → AccountStatus → Type 0
IsAfterFault previous transient status =
    (previous ≢ syncing → status ≡ previous) × (previous ≡ syncing → status ≡ connected)
IsAfterFault previous reauth status = status ≡ reauth_required
IsAfterFault previous _ status = status ≡ error

abbrev pub IsAfter : AccountStatus → SyncError → AccountStatus → Type 0
IsAfter previous (fault f) status = IsAfterFault previous f.kind status
IsAfter previous _ status = status ≡ error

resting_lem :
    (previous : AccountStatus)
    → (previous ≢ syncing → resting previous ≡ previous)
      × (previous ≡ syncing → resting previous ≡ connected)
resting_lem connected = (λ n. refl, λ e. refl)
resting_lem syncing = (λ n. absurd (n refl), λ e. refl)
resting_lem error = (λ n. refl, λ e. absurd (cc))
resting_lem reauth_required = (λ n. refl, λ e. absurd (cc))
resting_lem disconnected = (λ n. refl, λ e. absurd (cc))

after_kind :
    (previous : AccountStatus) (f : Fault) (kind : FaultKind)
    → IsAfterFault previous kind (failed_status previous (fault (record f { kind = kind })))
after_kind previous f transient = resting_lem previous
after_kind previous f reauth = refl
after_kind previous f superseded = refl
after_kind previous f other_fault = refl
after_kind previous f (http_status code) = refl

failed_status-IsAfter :
    (previous : AccountStatus) (e : SyncError) → IsAfter previous e (failed_status previous e)
failed_status-IsAfter previous (fault f) = after_kind previous f f.kind
failed_status-IsAfter previous (delta_expired f) = refl
failed_status-IsAfter previous (authorization_changed m) = refl
failed_status-IsAfter previous (runtime_error m) = refl
failed_status-IsAfter previous (value_error m) = refl
failed_status-IsAfter previous out_of_fuel = refl

-- How a run has ended, and what the account's row then says; `previous` is its status before.
pub record HasEnded {A : Type 0} (previous : AccountStatus) (r : Result SyncError A) (run : SyncRun)
    (row : MailAccount) : Type 0 where
  pub status : run.status ≡ (if is_ok r then succeeded else failed)
  pub connected_row : is_ok r ≡ true → (row.status ≡ connected) × (row.last_error ≡ none)
  pub failed_row :
      (e : SyncError)
      → r ≡ err e
      → is_authorization_changed e ≡ false
      → IsAfter previous e row.status

abbrev IsEnded : AccountStatus → Result SyncError (Unit {0}) × SyncState → Type 0
IsEnded previous (r, s) = HasEnded previous r s.run (flush s.store).row

-- The action ends well where it returns.
record EndsWell (previous : AccountStatus) (m : Sync (Unit {0})) : Type 0 where
  at : (s : SyncState) → is_ok (m s).0 ≡ true → IsEnded previous (m s)

EndsWell-then :
    {A : Type 0} (previous : AccountStatus) (m : Sync A) (k : A → Sync (Unit {0}))
    → ((a : A) → EndsWell previous (k a))
    → EndsWell previous (m >>= k)
EndsWell-then previous m k hk = record {
  at = λ s h. elim (Result-cases (m s).0) [
    | inl (a, e) ↦ rw (e, ◌>>=◌) ((hk a).at (m s).1 (rw (e, ◌>>=◌) at h))
    | inr (x, e) ↦ absurd (ground (arith, (rw (e, ◌>>=◌) at h)))
  ];
}

module _ (env : Env) (previous : AccountStatus) where
  complete-EndsWell : (had : Bool) → EndsWell previous (complete env had)
  unfolding complete
  complete-EndsWell had = record {
    at = λ s h.
        let v = success_values (env.clock s.calls) in
        elim (Bool-cases (update_account_state s.store v none).1) [
          | inr refused ↦ absurd (ground (arith, (rw (complete, refused) at h)))
          | inl applied ↦
              let row = update_row s.store v none applied in
              rw (applied, complete)
                (record {
                  status = refl;
                  connected_row = λ _. (ap (λ a. a.status) row, ap (λ a. a.last_error) row);
                  failed_row = λ e k _. absurd (cc);
                })
        ];
  }

  body-EndsWell : (fuel : ℕ) → EndsWell previous (body env fuel)
  unfolding body
  body-EndsWell fuel = EndsWell-then previous (all_folders env fuel) _ (λ folders.
      EndsWell-then previous (folder_mailboxes env) _ (λ mailboxes.
        EndsWell-then previous (sync_folders env fuel mailboxes folders false) _ complete-EndsWell))

  on_failure_ends : (e : SyncError) (s : SyncState) → IsEnded previous (on_failure env previous e s)
  unfolding on_failure
  on_failure_ends e s =
      let v = failure_values previous e in
      let applied = (update_account_state s.store v (some (provider_error e))).1 in
      elim (Bool-cases (is_authorization_changed e)) [
        | inl changed ↦
            rw (changed, on_failure)
              (record {
                status = refl;
                connected_row = λ k. absurd (cc);
                failed_row = λ x k n. absurd (ground (arith, k, n, changed));
              })
        | inr other ↦ elim (Bool-cases applied) [
          | inl done ↦
              let row = update_row s.store v (some (provider_error e)) done in
              rw (other, done, on_failure)
                (record {
                  status = refl;
                  connected_row = λ k. absurd (cc);
                  failed_row = λ x k n.
                      let same_error : e ≡ x = cc in
                      subst (IsAfter previous x) (sym (ap (λ a. a.status) row ∙ rw same_error))
                        (failed_status-IsAfter previous x);
                })
          | inr refused ↦
              rw (other, refused, on_failure)
                (record {
                  status = refl;
                  connected_row = λ k. absurd (cc);
                  failed_row = λ x k n. absurd (ground (arith, k, n));
                })
        ]
      ]

  attempt_ends : (fuel : ℕ) (s : SyncState) → IsEnded previous (attempt env fuel previous s)
  unfolding attempt
  attempt_ends fuel s = elim (Result-cases (body env fuel s).0) [
    | inl (u, e) ↦
        rw (e, try_except)
          (subst (λ r. IsEnded previous (r, (body env fuel s).1)) e
            ((body-EndsWell fuel).at s (rw e refl)))
    | inr (x, e) ↦ rw (e, try_except) (on_failure_ends x (body env fuel s).1)
  ]

-- A synchronization with Microsoft that has begun ends with a run that has finished: succeeded if it
-- returns, and then the account's row is connected and shows no error, and failed if it raises. The
-- row of a failed one that no newer authorization or pause superseded has the status that it had
-- before, or connected where that was syncing, after a transient error of the service; that the
-- account must be authorized again, where the service says so; and error otherwise.
pub microsoft_outcome :
    (env : Env) (fuel : ℕ) (i : SyncInput)
    → not_microsoft i.store.object.provider ≡ false
    → (update_account_state i.store (status_values syncing) none).1 ≡ true
    → let (r, s) = synchronize env fuel i in
      HasEnded i.store.object.status r s.run s.store.row × (is_some s.run.finished_at ≡ true)
unfolding synchronize begun conclude
microsoft_outcome env fuel i g a =
    let (store, applied) = update_account_state i.store (status_values syncing) none in
    let previous = i.store.object.status in
    let k = attempt_ends env previous fuel (begun i incremental (flush store)) in
    rw (g, a, synchronize)
      (
        record { status = k.status; connected_row = k.connected_row; failed_row = k.failed_row },
        refl,
      )
