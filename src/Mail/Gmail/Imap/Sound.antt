-- ===== src/Mail/Gmail/Imap/Sound.antt =====
-- What a synchronization over IMAP keeps of the tables and of the run, however it ends.
use mail_control.Base.{
  ℕ, String, Option, none, some, List, [], ◌∷◌, refl, Bool-cases, inl, inr, All,
}
use mail_control.Base.Exec.{Result, ok, err, ◌>>◌}
use mail_control.Mail.Account.{Store, update_account_state, syncing, flush}
use mail_control.Mail.Messages.Upsert.{MessagesAreUnique, IsConsistent}
use mail_control.Mail.Messages.Outbox.{EventsAreUnique}
use mail_control.Mail.Gmail.Values.{GmailMessage}
use mail_control.Mail.Gmail.Client.{Env, SyncError}
use mail_control.Mail.Gmail.Sync.{store_message, commit}
use mail_control.Base.Exec.Keeps.{Keeps, Keeps-then, Keeps-try, Keeps-pure, Keeps-raise}
use mail_control.Mail.Gmail.Sync.Keeps.{request-Keeps}
use mail_control.Mail.Gmail.Sync.Sound.{HasSoundState, sound_kept}
use mail_control.Mail.Gmail.Synchronize.{
  SyncInput, kind_of, begun, complete, conclude, is_authorization_changed, status_values,
}
use mail_control.Mail.Gmail.Synchronize.Tables.{complete_sound}
use mail_control.Mail.Gmail.Imap.{
  ImapClient, read_cursor, store_all, set_next, fetch, import_messages, on_imap_failure,
  synchronize,
}

module _ (env : Env) (client : ImapClient) where
  store_all_sound : (ms : List GmailMessage) → Keeps HasSoundState (store_all env client ms)
  unfolding store_all
  store_all_sound [] = Keeps-pure tt
  store_all_sound (m ∷ ms) =
      Keeps-then (store_message env m) _ (record { at = (sound_kept env).stored m })
        (λ _. store_all_sound ms)

  set_next_sound : (next : Option String) → Keeps HasSoundState (set_next env client next)
  unfolding set_next
  set_next_sound none = record { at = λ s h. h }
  set_next_sound (some cursor) = record { at = (sound_kept env).advanced cursor }

  fetch_sound : (r : Result SyncError (Option ℕ)) → Keeps HasSoundState (fetch env client r)
  unfolding fetch
  fetch_sound (err e) = Keeps-raise e
  fetch_sound (ok cursor) =
      Keeps-then _ _
        (request-Keeps env HasSoundState (sound_kept env) (λ n. client.messages n cursor))
        (λ page.
          Keeps-then (store_all env client page.0) _ (store_all_sound page.0)
            (λ _. set_next_sound page.1))

  on_imap_failure_sound : (e : SyncError) → Keeps HasSoundState (on_imap_failure env client e)
  unfolding on_imap_failure
  on_imap_failure_sound e = record {
    at = λ s h. elim (Bool-cases (is_authorization_changed e)) [
      | inl changed ↦ rw (changed, on_imap_failure) h
      | inr other ↦ rw (other, on_imap_failure) h
    ];
  }

  import_sound : Keeps HasSoundState (import_messages env client)
  unfolding import_messages
  import_sound = record {
    at = λ s. (fetch_sound (read_cursor env client s.store.object.history_cursor)).at s;
  }

  -- However a synchronization over IMAP ends: each message still has one row and one event at most,
  -- what the user sees respects the local choices, and the run counts each message that it has seen
  -- as created or as updated.
  imap_synchronize_sound :
      (i : SyncInput)
      → MessagesAreUnique i.db.messages
      → All IsConsistent i.db.messages
      → EventsAreUnique i.db.outbox
      → HasSoundState (synchronize env client i).1
  unfolding synchronize begun conclude commit
  imap_synchronize_sound i u c q =
      let kind = kind_of i.store.object in
      let start : (store : Store) → HasSoundState (begun i kind store) =
        λ store. record { unique = u; consistent = c; queued_once = q; counted = refl } in
      let (store, applied) = update_account_state i.store (status_values syncing) none in
      let m = import_messages env client >> complete env in
      let kept : Keeps HasSoundState m =
        Keeps-then (import_messages env client) (λ _. complete env) import_sound
          (λ _. record { at = complete_sound env 0 }) in
      let h =
        (Keeps-try m (on_imap_failure env client) kept on_imap_failure_sound).at
          (begun i kind (flush store)) (start (flush store)) in
      elim (Bool-cases applied) [
        | inr paused ↦ rw (paused, synchronize) (start i.store)
        | inl held ↦ rw (held, synchronize) h
      ]
