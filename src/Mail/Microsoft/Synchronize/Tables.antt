-- ===== src/Mail/Microsoft/Synchronize/Tables.antt =====
-- What a synchronization keeps of the tables, and what it counts.
use mail_control.Base.{ℕ, ◌≡◌, refl, true, false, Bool, arith, Bool-cases, inl, inr, none}
use mail_control.Base.Exec.{is_ok}
use mail_control.Base.Exec.Keeps.{Keeps, Keeps-then, Keeps-try}
use mail_control.Base.Exec.Settles.{Settles, Settles-then, Settles-returned}
use mail_control.Mail.Account.{AccountStatus, syncing, update_account_state, flush}
use mail_control.Mail.Messages.Sound.{HasSoundTables}
use mail_control.Mail.Gmail.Client.{SyncState, incremental}
use mail_control.Mail.Gmail.Synchronize.{SyncInput, begun, status_values}
use mail_control.Mail.Microsoft.Graph.{Env, SyncError, folder_mailboxes}
use mail_control.Mail.Microsoft.Graph.Kept.{IsAsked, folder_mailboxes-Keeps}
use mail_control.Mail.Microsoft.Sync.{all_folders, sync_folders, is_expired}
use mail_control.Mail.Microsoft.Sync.Kept.{all_folders-Keeps, sync_folders-Keeps, sound_kept}
use mail_control.Mail.Microsoft.Sync.Counted.{IsCounted, sync_folders-Settles}
use mail_control.Mail.Microsoft.Synchronize.{
  complete, on_failure, body, attempt, conclude, synchronize, not_microsoft, success_values,
  is_authorization_changed,
}

module _ (env : Env) where
  complete_sound : (had : Bool) → Keeps (λ s. HasSoundTables s.db) (complete env had)
  unfolding complete
  complete_sound had = record {
    at = λ s h.
        elim (Bool-cases
          (update_account_state s.store (success_values (env.clock s.calls)) none).1) [
            | inl applied ↦ rw (applied, complete) h
            | inr refused ↦ rw (refused, complete) h
          ];
  }

  on_failure_sound :
      (previous : AccountStatus) (e : SyncError)
      → Keeps (λ s. HasSoundTables s.db) (on_failure env previous e)
  unfolding on_failure
  on_failure_sound previous e = record {
    at = λ s h. elim (Bool-cases (is_authorization_changed e)) [
      | inl changed ↦ rw (changed, on_failure) h
      | inr other ↦ rw (other, on_failure) h
    ];
  }

  body_sound : (fuel : ℕ) → Keeps (λ s. HasSoundTables s.db) (body env fuel)
  unfolding body
  body_sound fuel =
      let P = λ (s : SyncState). HasSoundTables s.db in
      Keeps-then (all_folders env fuel) _ (all_folders-Keeps env P (sound_kept env).at_call fuel)
        (λ folders.
          Keeps-then (folder_mailboxes env) _
            (folder_mailboxes-Keeps env P (sound_kept env).at_call)
            (λ mailboxes.
              Keeps-then (sync_folders env fuel mailboxes folders false) _
                (sync_folders-Keeps env P (sound_kept env) fuel mailboxes folders false)
                complete_sound))

  attempt_sound :
      (fuel : ℕ) (previous : AccountStatus)
      → Keeps (λ s. HasSoundTables s.db) (attempt env fuel previous)
  unfolding attempt
  attempt_sound fuel previous =
      Keeps-try (body env fuel) (on_failure env previous) (body_sound fuel)
        (on_failure_sound previous)

  complete-Settles : (had : Bool) → Settles is_expired IsCounted (complete env had)
  unfolding complete
  complete-Settles had = record {
    at = λ s q h.
        elim (Bool-cases
          (update_account_state s.store (success_values (env.clock s.calls)) none).1) [
            | inl applied ↦ rw (applied, complete) q
            | inr refused ↦ rw (refused, complete) q
          ];
  }

  body-Settles : (fuel : ℕ) → Settles is_expired IsCounted (body env fuel)
  unfolding body
  body-Settles fuel =
      let asked : IsAsked env IsCounted = record { asked = λ s h. h } in
      Settles-then (all_folders env fuel) _
        (record { at = λ s q h. (all_folders-Keeps env IsCounted asked fuel).at s q })
        (λ folders.
          Settles-then (folder_mailboxes env) _
            (record { at = λ s q h. (folder_mailboxes-Keeps env IsCounted asked).at s q })
            (λ mailboxes.
              Settles-then (sync_folders env fuel mailboxes folders false) _
                (sync_folders-Settles env fuel mailboxes folders false) complete-Settles))

  on_failure_raises :
      (previous : AccountStatus) (e : SyncError) (s : SyncState)
      → is_ok (on_failure env previous e s).0 ≡ false
  unfolding on_failure
  on_failure_raises previous e s = elim (Bool-cases (is_authorization_changed e)) [
    | inl changed ↦ rw (changed, on_failure) refl
    | inr other ↦ rw (other, on_failure) refl
  ]

  attempt-IsCounted :
      (fuel : ℕ) (previous : AccountStatus) (s : SyncState)
      → IsCounted s
      → is_ok (attempt env fuel previous s).0 ≡ true
      → IsCounted (attempt env fuel previous s).1
  unfolding attempt
  attempt-IsCounted fuel previous s q h =
      Settles-returned (body env fuel) (on_failure env previous) (body-Settles fuel)
        (on_failure_raises previous) s q h

-- However a synchronization with Microsoft ends, whatever the provider answers and other transactions
-- do meanwhile: each message still has one row and one event at most, and what the user sees
-- respects the local choices. If it returns, it has counted each message that it saw as created or
-- as updated.
pub microsoft_sound :
    (env : Env) (fuel : ℕ) (i : SyncInput)
    → HasSoundTables i.db
    → HasSoundTables (synchronize env fuel i).1.db
      × (is_ok (synchronize env fuel i).0 ≡ true → IsCounted (synchronize env fuel i).1)
unfolding synchronize begun conclude
microsoft_sound env fuel i h =
    let (store, applied) = update_account_state i.store (status_values syncing) none in
    let previous = i.store.object.status in
    let s = begun i incremental (flush store) in
    elim (Bool-cases (not_microsoft i.store.object.provider)) [
      | inl wrong ↦ rw (wrong, synchronize) (h, λ k. absurd (ground (arith, k)))
      | inr right ↦ elim (Bool-cases applied) [
        | inr paused ↦ rw (right, paused, synchronize) (h, λ k. absurd (ground (arith, k)))
        | inl held ↦
            rw (right, held, synchronize)
              (
                (attempt_sound env fuel previous).at s h,
                λ k. attempt-IsCounted env fuel previous s refl k,
              )
      ]
    ]
