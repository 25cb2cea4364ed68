-- ===== src/Mail/Gmail/Synchronize/Tables.antt =====
-- What a synchronization keeps of the tables and of the run, however it ends.
use mail_control.Base.{ℕ, String, Option, none, some, refl, Bool-cases, inl, inr, All}
use mail_control.Base.Exec.{Result-cases, ◌>>◌}
use mail_control.Mail.Account.{Store, syncing, update_account_state, flush}
use mail_control.Mail.Messages.Upsert.{MessagesAreUnique, IsConsistent}
use mail_control.Mail.Messages.Outbox.{EventsAreUnique}
use mail_control.Mail.Gmail.Client.{Env, SyncKind, initial, incremental, SyncError, SyncState}
use mail_control.Mail.Gmail.Sync.{commit, is_expired}
use mail_control.Base.Exec.Keeps.{Keeps, Keeps-then, Keeps-try}
use mail_control.Mail.Gmail.Sync.Keeps.{full_sync-Keeps, replay_history-Keeps}
use mail_control.Mail.Gmail.Sync.Sound.{HasSoundState, sound_kept}
use mail_control.Mail.Gmail.Synchronize.{
  SyncInput, kind_of, incremental_from, incremental_sync, fall_back, import_or_replay, complete,
  on_failure, conclude, attempt, begun, synchronize, not_gmail, status_values,
  is_authorization_changed, success_values,
}

module _ (env : Env) (fuel : ℕ) where
  from_sound : (cursor : Option String) → Keeps HasSoundState (incremental_from env fuel cursor)
  unfolding incremental_from
  from_sound none = replay_history-Keeps env HasSoundState (sound_kept env) fuel String.[] none
  from_sound (some cursor) =
      replay_history-Keeps env HasSoundState (sound_kept env) fuel cursor none

  incremental_sound :
      (s : SyncState) → HasSoundState s → HasSoundState (incremental_sync env fuel s).1
  unfolding incremental_sync
  incremental_sound s h =
      let c = s.store.object.history_cursor in
      let k = (from_sound c).at s h in
      elim (Result-cases (incremental_from env fuel c s).0) [
        | inl (a, e) ↦ rw (e, incremental_sync) k
        | inr (x, e) ↦ rw (e, incremental_sync) k
      ]

  fall_back_sound :
      (e : SyncError) (s : SyncState) → HasSoundState s → HasSoundState (fall_back env fuel e s).1
  unfolding fall_back
  fall_back_sound e s h = elim (Bool-cases (is_expired e)) [
    | inl old ↦ rw old (
        (full_sync-Keeps env HasSoundState (sound_kept env) fuel).at
          (record s { run = record s.run { kind = initial } }) h)
    | inr other ↦ rw other h
  ]

  import_sound : (kind : SyncKind) → Keeps HasSoundState (import_or_replay env fuel kind)
  unfolding import_or_replay
  import_sound initial = full_sync-Keeps env HasSoundState (sound_kept env) fuel
  import_sound incremental =
      Keeps-try (incremental_sync env fuel) (fall_back env fuel) (record { at = incremental_sound })
        (λ e. record { at = fall_back_sound e })

  pub complete_sound : (s : SyncState) → HasSoundState s → HasSoundState (complete env s).1
  unfolding complete
  complete_sound s h =
      elim (Bool-cases
        (update_account_state s.store
          (success_values (env.clock s.calls) s.store.object.history_cursor) none).1) [
            | inl applied ↦ rw (applied, complete) h
            | inr not_applied ↦ rw (not_applied, complete) h
          ]

  on_failure_sound :
      (e : SyncError) (s : SyncState) → HasSoundState s → HasSoundState (on_failure env e s).1
  unfolding on_failure
  on_failure_sound e s h = elim (Bool-cases (is_authorization_changed e)) [
    | inl changed ↦ rw (changed, on_failure) h
    | inr other ↦ rw (other, on_failure) h
  ]

  attempt_sound : (kind : SyncKind) → Keeps HasSoundState (attempt env fuel kind)
  unfolding attempt
  attempt_sound kind =
      Keeps-try (import_or_replay env fuel kind >> complete env) (on_failure env)
        (Keeps-then (import_or_replay env fuel kind) (λ _. complete env) (import_sound kind)
          (λ _. record { at = complete_sound }))
        (λ e. record { at = on_failure_sound e })

  -- However a synchronization ends, whatever the provider answers and other transactions do
  -- meanwhile: each message still has one row and one event at most, what the user sees respects
  -- the local choices, and the run counts each message that it has seen as created or as updated.
  pub synchronize_sound :
      (i : SyncInput)
      → MessagesAreUnique i.db.messages
      → All IsConsistent i.db.messages
      → EventsAreUnique i.db.outbox
      → HasSoundState (synchronize env fuel i).1
  unfolding synchronize begun conclude commit
  synchronize_sound i u c q =
      let kind = kind_of i.store.object in
      let start : (store : Store) → HasSoundState (begun i kind store) =
        λ store. record { unique = u; consistent = c; queued_once = q; counted = refl } in
      let (store, applied) = update_account_state i.store (status_values syncing) none in
      elim (Bool-cases (not_gmail i.store.object.provider)) [
        | inl wrong ↦ rw (wrong, synchronize) (start i.store)
        | inr right ↦ elim (Bool-cases applied) [
          | inr paused ↦ rw (right, paused, synchronize) (start i.store)
          | inl held ↦
              let h = (attempt_sound kind).at (begun i kind (flush store)) (start (flush store)) in
              rw (right, held, synchronize) h
        ]
      ]
