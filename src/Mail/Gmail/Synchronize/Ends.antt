-- ===== src/Mail/Gmail/Synchronize/Ends.antt =====
-- When a synchronization has enough fuel.
use mail_control.Base.{ℕ, ◌≡◌, ◌≢◌, String, Option, none, some, arith, refl, Bool-cases, inl, inr}
use mail_control.Base.Exec.{err, Result-cases, ◌>>◌}
use mail_control.Mail.Account.{update_account_state, flush, syncing}
use mail_control.Mail.Gmail.Client.{
  Env, SyncKind, initial, incremental, SyncState, Sync, SyncError, out_of_fuel,
}
use mail_control.Mail.Gmail.Sync.{is_expired}
use mail_control.Base.Exec.Avoids.{Avoids-then, Avoids-try}
use mail_control.Mail.Gmail.Sync.Ends.{HasFuel}
use mail_control.Mail.Gmail.Sync.Pages.{PagesEnd, replay_history_ends, full_sync_ends}
use mail_control.Mail.Gmail.Synchronize.{
  SyncInput, kind_of, incremental_from, incremental_sync, fall_back, import_or_replay, complete,
  on_failure, attempt, begun, synchronize, not_gmail, status_values, success_values, failure_values,
  provider_error, is_authorization_changed,
}

-- An error that an action raises is not the lack of fuel, if the action ends.
raised_in :
    {A : Type 0} (m : Sync A) (s : SyncState) (e : SyncError)
    → HasFuel m s
    → (m s).0 ≡ err e
    → e ≢ out_of_fuel
raised_in m s e h k q = h.at (rw (k, q) refl)

module _ (env : Env) (fuel : ℕ) (listed : Option String → ℕ) (replayed : String → Option String → ℕ)
    (end : PagesEnd env fuel listed replayed) where
  from_ends : (c : Option String) (s : SyncState) → HasFuel (incremental_from env fuel c) s
  unfolding incremental_from
  from_ends none s =
      replay_history_ends env fuel listed replayed end fuel String.[] none s
        (end.history_fits String.[])
  from_ends (some c) s =
      replay_history_ends env fuel listed replayed end fuel c none s (end.history_fits c)

  incremental_ends : (s : SyncState) → HasFuel (incremental_sync env fuel) s
  unfolding incremental_sync
  incremental_ends s =
      let c = s.store.object.history_cursor in
      record {
        at = elim (Result-cases (incremental_from env fuel c s).0) [
          | inl (a, e) ↦ rw (e, incremental_sync) (λ q. absurd (cc))
          | inr (x, e) ↦
              rw (e, incremental_sync)
                (λ q.
                  raised_in (incremental_from env fuel c) s x (from_ends c s) e (ground (arith, q)))
        ];
      }

  fall_back_ends :
      (e : SyncError) (s : SyncState) → e ≢ out_of_fuel → HasFuel (fall_back env fuel e) s
  unfolding fall_back
  fall_back_ends e s h = record {
    at = elim (Bool-cases (is_expired e)) [
      | inl old ↦ rw old ((full_sync_ends env fuel listed replayed end _).at)
      | inr other ↦ rw other (λ q. h (ground (arith, q)))
    ];
  }

  import_ends : (kind : SyncKind) (s : SyncState) → HasFuel (import_or_replay env fuel kind) s
  unfolding import_or_replay
  import_ends initial s = full_sync_ends env fuel listed replayed end s
  import_ends incremental s =
      Avoids-try (incremental_sync env fuel) (fall_back env fuel) s (incremental_ends s)
        (λ e other. fall_back_ends e (incremental_sync env fuel s).1 other)

  complete_ends : (s : SyncState) → HasFuel (complete env) s
  unfolding complete
  complete_ends s = record {
    at =
        elim (Bool-cases
          (update_account_state s.store
            (success_values (env.clock s.calls) s.store.object.history_cursor) none).1) [
              | inl applied ↦ rw (applied, complete) (λ q. absurd (cc))
              | inr refused ↦ rw (refused, complete) (λ q. absurd (cc))
            ];
  }

  on_failure_ends : (e : SyncError) (s : SyncState) → e ≢ out_of_fuel → HasFuel (on_failure env e) s
  unfolding on_failure
  on_failure_ends e s h =
      let (store, applied) =
        update_account_state s.store (failure_values e) (some (provider_error e)) in
      record {
        at = elim (Bool-cases (is_authorization_changed e)) [
          | inl changed ↦ rw (changed, on_failure) (λ q. h (ground (arith, q)))
          | inr other ↦ elim (Bool-cases applied) [
            | inl done ↦ rw (other, done, on_failure) (λ q. h (ground (arith, q)))
            | inr refused ↦ rw (other, refused, on_failure) (λ q. absurd (cc))
          ]
        ];
      }

  attempt_ends : (kind : SyncKind) (s : SyncState) → HasFuel (attempt env fuel kind) s
  unfolding attempt
  attempt_ends kind s =
      let body = import_or_replay env fuel kind >> complete env in
      let h : HasFuel body s =
        Avoids-then (import_or_replay env fuel kind) (λ _. complete env) s (import_ends kind s)
          (λ _ e. complete_ends (import_or_replay env fuel kind s).1) in
      Avoids-try body (on_failure env) s h (λ e other. on_failure_ends e (body s).1 other)

  -- Where the provider's pages have an order, in which each page comes before the next one that it
  -- names, and the fuel is above the rank of the first page, of the listing and of the history from
  -- any start, the synchronization returns or raises an error of the program: its loops over the
  -- pages end, and it never lacks fuel.
  pub synchronize_ends : (i : SyncInput) → (synchronize env fuel i).0 ≢ err out_of_fuel
  unfolding synchronize
  synchronize_ends i =
      let (store, applied) = update_account_state i.store (status_values syncing) none in
      let kind = kind_of i.store.object in
      let s = begun i kind (flush store) in
      elim (Bool-cases (not_gmail i.store.object.provider)) [
        | inl wrong ↦ rw (wrong, synchronize) (λ q. absurd (cc))
        | inr right ↦ elim (Bool-cases applied) [
          | inr paused ↦ rw (right, paused, synchronize) (λ q. absurd (cc))
          | inl held ↦ elim (Result-cases (attempt env fuel kind s).0) [
            | inl (u, e) ↦ rw (right, held, synchronize) (rw e (λ q. absurd (cc)))
            | inr (x, e) ↦
                rw (right, held, synchronize)
                  (rw e (λ q.
                    raised_in (attempt env fuel kind) s x (attempt_ends kind s) e
                      (ground (arith, q))))
          ]
        ]
      ]
