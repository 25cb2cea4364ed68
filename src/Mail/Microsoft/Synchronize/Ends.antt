-- ===== src/Mail/Microsoft/Synchronize/Ends.antt =====
-- When a synchronization with Microsoft has enough fuel.
use mail_control.Base.{String, ℕ, ◌≢◌, Bool, false, none, some, arith, Bool-cases, inl, inr}
use mail_control.Base.Exec.{err}
use mail_control.Base.Exec.Avoids.{Avoids-then, Avoids-try}
use mail_control.Mail.Account.{AccountStatus, update_account_state, flush, syncing}
use mail_control.Mail.Gmail.Client.{incremental, SyncState}
use mail_control.Mail.Gmail.Synchronize.{SyncInput, begun, status_values}
use mail_control.Mail.Microsoft.Graph.{Env, SyncError, out_of_fuel, folder_mailboxes}
use mail_control.Mail.Microsoft.Graph.Ends.{HasFuel, folder_mailboxes_ends}
use mail_control.Mail.Microsoft.Sync.{all_folders, sync_folders}
use mail_control.Mail.Microsoft.Sync.Ends.{PagesEnd, all_folders_ends}
use mail_control.Mail.Microsoft.Sync.Changes.{sync_folders_ends}
use mail_control.Mail.Microsoft.Synchronize.{
  complete, on_failure, body, attempt, synchronize, not_microsoft, success_values, failure_values,
  provider_error, is_authorization_changed,
}

module _ (env : Env) (fuel : ℕ) (size rank : String → ℕ) (end : PagesEnd env fuel size rank) where
  complete_ends : (had : Bool) (s : SyncState) → HasFuel (complete env had) s
  unfolding complete
  complete_ends had s = record {
    at =
        elim (Bool-cases
          (update_account_state s.store (success_values (env.clock s.calls)) none).1) [
            | inl applied ↦ rw (applied, complete) (λ q. absurd (cc))
            | inr refused ↦ rw (refused, complete) (λ q. absurd (cc))
          ];
  }

  on_failure_ends :
      (previous : AccountStatus) (e : SyncError) (s : SyncState)
      → e ≢ out_of_fuel
      → HasFuel (on_failure env previous e) s
  unfolding on_failure
  on_failure_ends previous e s h =
      let applied =
        (update_account_state s.store (failure_values previous e) (some (provider_error e))).1 in
      record {
        at = elim (Bool-cases (is_authorization_changed e)) [
          | inl changed ↦ rw (changed, on_failure) (λ q. h (ground (arith, q)))
          | inr other ↦ elim (Bool-cases applied) [
            | inl done ↦ rw (other, done, on_failure) (λ q. h (ground (arith, q)))
            | inr refused ↦ rw (other, refused, on_failure) (λ q. absurd (cc))
          ]
        ];
      }

  body_ends : (s : SyncState) → HasFuel (body env fuel) s
  unfolding body
  body_ends s =
      Avoids-then (all_folders env fuel) _ s (all_folders_ends env fuel size rank end s)
        (λ folders e.
          Avoids-then (folder_mailboxes env) _ _ (folder_mailboxes_ends env _) (λ mailboxes e2.
            Avoids-then (sync_folders env fuel mailboxes folders false) _ _
              (sync_folders_ends env fuel size rank end mailboxes folders false _)
              (λ had e3. complete_ends had _)))

  attempt_ends : (previous : AccountStatus) (s : SyncState) → HasFuel (attempt env fuel previous) s
  unfolding attempt
  attempt_ends previous s =
      Avoids-try (body env fuel) (on_failure env previous) s (body_ends s)
        (λ e other. on_failure_ends previous e (body env fuel s).1 other)

  -- Where the provider's folders form a tree and its pages have an order, in which each page comes
  -- before the next one that it names, and the fuel is above the size of that tree with its pages and
  -- above the rank of every page of changes, a synchronization with Microsoft returns or raises an
  -- error of the program: all its loops end, and it never lacks fuel.
  pub microsoft_ends : (i : SyncInput) → (synchronize env fuel i).0 ≢ err out_of_fuel
  unfolding synchronize
  microsoft_ends i =
      let (store, applied) = update_account_state i.store (status_values syncing) none in
      elim (Bool-cases (not_microsoft i.store.object.provider)) [
        | inl wrong ↦ rw (wrong, synchronize) (λ q. absurd (cc))
        | inr right ↦ elim (Bool-cases applied) [
          | inr paused ↦ rw (right, paused, synchronize) (λ q. absurd (cc))
          | inl held ↦
              rw (right, held, synchronize)
                (attempt_ends i.store.object.status (begun i incremental (flush store))).at
        ]
      ]
