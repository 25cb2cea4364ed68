-- ===== src/Mail/Gmail/Synchronize/Outcome.antt =====
-- How a synchronization ends: the run's status and the account's.
use mail_control.Base.{
  ℕ, ◌≡◌, true, false, none, some, arith, refl, ◌∙◌, ap, subst, if◌then◌else◌, Bool-cases, inl, inr,
  is_some,
}
use mail_control.Base.Exec.{Result, err, Result-cases, is_ok, try_except, ◌>>◌, ◌>>=◌}
use mail_control.Mail.Account.Fence.{update_row}
use mail_control.Mail.Account.{
  reauth_required, error, connected, syncing, update_account_state, flush, MailAccount,
}
use mail_control.Mail.Gmail.Client.{
  Env, SyncKind, succeeded, failed, SyncRun, SyncError, SyncState, Sync,
}
use mail_control.Mail.Gmail.Sync.{commit}
use mail_control.Mail.Gmail.Synchronize.{
  SyncInput, kind_of, import_or_replay, complete, on_failure, conclude, attempt, begun, synchronize,
  not_gmail, status_values, is_authorization_changed, success_values, failure_values,
  provider_error, is_reauth,
}

-- How a run has ended, and what the account's row then says.
pub record HasEnded {A : Type 0} (r : Result SyncError A) (run : SyncRun) (row : MailAccount)
    : Type 0 where
  pub status : run.status ≡ (if is_ok r then succeeded else failed)
  pub connected_row : is_ok r ≡ true → (row.status ≡ connected) × (row.last_error ≡ none)
  pub failed_row :
      (e : SyncError)
      → r ≡ err e
      → is_authorization_changed e ≡ false
      → row.status ≡ (if is_reauth e then reauth_required else error)

abbrev IsEnded : Result SyncError (Unit {0}) × SyncState → Type 0
IsEnded (r, s) = HasEnded r s.run (flush s.store).row

IsEnded-of_try :
    (m : Sync (Unit {0})) (f : SyncError → Sync (Unit {0})) (s : SyncState)
    → (is_ok (m s).0 ≡ true → IsEnded (m s))
    → ((e : SyncError) (s' : SyncState) → IsEnded (f e s'))
    → IsEnded (try_except m f s)
IsEnded-of_try m f s h k = elim (Result-cases (m s).0) [
  | inl (a, e) ↦ rw (e, try_except) (subst (λ r. IsEnded (r, (m s).1)) e (h (rw e)))
  | inr (x, e) ↦ rw (e, try_except) (k x (m s).1)
]

module _ (env : Env) (fuel : ℕ) where
  complete_ends : (s : SyncState) → is_ok (complete env s).0 ≡ true → IsEnded (complete env s)
  unfolding complete
  complete_ends s h =
      let v = success_values (env.clock s.calls) s.store.object.history_cursor in
      elim (Bool-cases (update_account_state s.store v none).1) [
        | inr refused ↦ absurd (ground (arith, refused, h))
        | inl applied ↦
            let row = update_row s.store v none applied in
            rw (applied, complete)
              (record {
                status = refl;
                connected_row = λ _. (ap (λ a. a.status) row, ap (λ a. a.last_error) row);
                failed_row = λ e k _. absurd (cc);
              })
      ]

  on_failure_ends : (e : SyncError) (s : SyncState) → IsEnded (on_failure env e s)
  unfolding on_failure
  on_failure_ends e s =
      let (store, applied) =
        update_account_state s.store (failure_values e) (some (provider_error e)) in
      elim (Bool-cases (is_authorization_changed e)) [
        | inl changed ↦
            rw (changed, on_failure)
              (record {
                status = refl;
                connected_row = λ k. absurd (cc);
                failed_row = λ x k n. absurd (ground (arith, k, n, changed));
              })
        | inr other ↦ elim (Bool-cases applied) [
          | inl done ↦
              let row = update_row s.store (failure_values e) (some (provider_error e)) done in
              rw (other, done, on_failure)
                (record {
                  status = refl;
                  connected_row = λ k. absurd (cc);
                  failed_row = λ x k n.
                      let same_error : e ≡ x = cc in ap (λ a. a.status) row ∙ rw same_error;
                })
          | inr refused ↦
              rw (other, refused, on_failure)
                (record {
                  status = refl;
                  connected_row = λ k. absurd (cc);
                  failed_row = λ x k n. absurd (ground (arith, k, n));
                })
        ]
      ]

  IsEnded-of_body :
      (kind : SyncKind) (s : SyncState)
      → is_ok ((import_or_replay env fuel kind >> complete env) s).0 ≡ true
      → IsEnded ((import_or_replay env fuel kind >> complete env) s)
  IsEnded-of_body kind s h = elim (Result-cases (import_or_replay env fuel kind s).0) [
    | inl (a, e) ↦
        rw (e, ◌>>=◌) (complete_ends (import_or_replay env fuel kind s).1 (rw (e, ◌>>=◌) at h))
    | inr (x, e) ↦ absurd (ground (arith, e, h))
  ]

  attempt_ends : (kind : SyncKind) (s : SyncState) → IsEnded (attempt env fuel kind s)
  unfolding attempt
  attempt_ends kind s =
      IsEnded-of_try (import_or_replay env fuel kind >> complete env) (on_failure env) s
        (IsEnded-of_body kind s) on_failure_ends

  -- A synchronization that has begun ends with a run that has finished: succeeded if it returns,
  -- and then the account's row is connected and shows no error, and failed if it raises. Unless a
  -- newer authorization or a pause superseded it, the row of a failed one says whether the account
  -- must be authorized again or has an error.
  pub synchronize_outcome :
      (i : SyncInput)
      → not_gmail i.store.object.provider ≡ false
      → (update_account_state i.store (status_values syncing) none).1 ≡ true
      → let (r, s) = synchronize env fuel i in
        HasEnded r s.run s.store.row × (is_some s.run.finished_at ≡ true)
  unfolding synchronize conclude commit
  synchronize_outcome i g a =
      let (store, applied) = update_account_state i.store (status_values syncing) none in
      let kind = kind_of i.store.object in
      let s = begun i kind (flush store) in
      let h = attempt_ends kind s in
      rw (g, a, synchronize)
        (elim (Result-cases (attempt env fuel kind s).0) [
          | inl (u, e) ↦
              let k = subst (λ r. IsEnded (r, (attempt env fuel kind s).1)) e h in
              rw e (
                record {
                  status = k.status;
                  connected_row = λ _. k.connected_row refl;
                  failed_row = λ y p n. absurd (cc);
                },
                refl,
              )
          | inr (x, e) ↦
              let k = subst (λ r. IsEnded (r, (attempt env fuel kind s).1)) e h in
              rw e (
                record {
                  status = k.status;
                  connected_row = λ p. absurd (cc);
                  failed_row =
                      λ y p n. let same_error : x ≡ y = cc in k.failed_row y (ap err same_error) n;
                },
                refl,
              )
        ])
