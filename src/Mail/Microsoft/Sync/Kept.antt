-- ===== src/Mail/Microsoft/Sync/Kept.antt =====
-- An invariant of the tables that the elementary steps keep is kept by the synchronization of all
-- folders.
use mail_control.Base.{
  ℕ, zero, suc, String, Bool, true, ◌&&◌, Option, none, List, [], ◌∷◌, ◌++◌, Bool-cases,
  Option-cases, inl, inr, truthy_opt, or_else, filter_by, is_some, if◌then◌else◌,
}
use mail_control.Base.Exec.{Result, ok, err, modify}
use mail_control.Base.Exec.Keeps.{Keeps, Keeps-then, Keeps-if, Keeps-try, Keeps-pure, Keeps-raise}
use mail_control.Mail.Messages.{
  Mailbox, MailSyncCursor, mark_deleted, cursor, put_cursor, delete_cursor,
}
use mail_control.Mail.Messages.Sound.{HasSoundTables, stored_sound, deleted_sound}
use mail_control.Mail.Gmail.Client.{SyncRun, SyncState}
use mail_control.Mail.Microsoft.Values.{GraphMessage, microsoft_message_values}
use mail_control.Mail.Microsoft.Graph.{
  Env, Fault, Folder, out_of_fuel, Sync, is_missing, ask, request, folders, delta,
}
use mail_control.Mail.Microsoft.Graph.Kept.{IsAsked, request-Keeps, folders-Keeps, delta-Keeps}
use mail_control.Mail.Microsoft.Sync.{
  has_children, count_seen, pop, child_path, folder_key, start_link, is_expired, list_folders,
  list_children, walk, all_folders, queued, store_message, on_removed, refetch, visit, visit_all,
  save_cursor, delta_pages, drop_cursor, restart, sync_folder, sync_folders,
}

pub record IsKept (env : Env) (P : SyncState → Type 0) : Type 0 where
  pub at_call : IsAsked env P
  pub stored :
      (mailboxes : List (String × Mailbox)) (m : GraphMessage) (s : SyncState)
      → P s
      → P (store_message env mailboxes m s).1
  pub deleted :
      (account : ℕ) (id : String) (now : ℕ) (s : SyncState)
      → P s
      → P (record s { db = mark_deleted account id now s.db })
  pub counted : (run : SyncRun) (s : SyncState) → P s → P (record s { run = run })
  pub saved : (folder_id link : String) (s : SyncState) → P s → P (save_cursor env folder_id link s)
  pub dropped : (folder_id : String) (s : SyncState) → P s → P (drop_cursor env folder_id s)

module _ (env : Env) (P : SyncState → Type 0) (kept : IsAsked env P) where
  list_folders-Keeps :
      (fuel : ℕ) (link : Option String) (found : List Folder)
      → Keeps P (list_folders env fuel link found)
  unfolding list_folders
  list_folders-Keeps zero link found = Keeps-raise out_of_fuel
  list_folders-Keeps (suc fuel) link found =
      Keeps-then (folders env link) _ (folders-Keeps env P kept link) (λ page.
        Keeps-if (truthy_opt page.next_link) _ _
          (list_folders-Keeps fuel page.next_link (found ++ page.value))
          (Keeps-pure (found ++ page.value)))

  list_children-Keeps :
      (fuel : ℕ) (url : String) (found queue : List Folder)
      → Keeps P (list_children env fuel url found queue)
  unfolding list_children
  list_children-Keeps zero url found queue = Keeps-raise out_of_fuel
  list_children-Keeps (suc fuel) url found queue =
      let call = λ (n : ℕ). env.graph.get_folders n url in
      Keeps-then (request env call) _ (request-Keeps env P kept call) (λ page.
        let found' = found ++ page.value in
        let queue' = queue ++ filter_by (has_children) page.value in
        Keeps-if (truthy_opt page.next_link) _ _
          (list_children-Keeps fuel (or_else page.next_link String.[]) found' queue')
          (Keeps-pure (found', queue')))

  walk-Keeps : (fuel : ℕ) (found queue : List Folder) → Keeps P (walk env fuel found queue)
  unfolding walk
  walk-Keeps zero found queue = Keeps-raise out_of_fuel
  walk-Keeps (suc fuel) found queue = record {
    at = λ s h. elim (Option-cases (pop queue)) [
      | inl empty ↦ rw (walk, empty) h
      | inr ((parent, others), e) ↦
          rw (walk, e)
            ((Keeps-then (list_children env fuel (child_path parent.id) found others) _
                (list_children-Keeps fuel (child_path parent.id) found others)
                (λ r. walk-Keeps fuel r.0 r.1)).at
              s h)
    ];
  }

  pub all_folders-Keeps : (fuel : ℕ) → Keeps P (all_folders env fuel)
  unfolding all_folders
  all_folders-Keeps fuel =
      Keeps-then (list_folders env fuel none []) _ (list_folders-Keeps fuel none [])
        (λ found. walk-Keeps fuel found (filter_by has_children found))

module _ (env : Env) (P : SyncState → Type 0) (kept : IsKept env P) where
  on_removed-Keeps :
      (mailboxes : List (String × Mailbox)) (id : String) (r : Result Fault GraphMessage)
      → Keeps P (on_removed env mailboxes id r)
  unfolding on_removed
  on_removed-Keeps mailboxes id (ok m) = record { at = kept.stored mailboxes m }
  on_removed-Keeps mailboxes id (err f) = record {
    at = λ s h. elim (Bool-cases (is_missing f.kind)) [
      | inl gone ↦
          rw gone (kept.counted _ _ (kept.deleted s.store.object.id id (env.clock s.calls) s h))
      | inr other ↦ rw other h
    ];
  }

  refetch-Keeps :
      (mailboxes : List (String × Mailbox)) (id : String) → Keeps P (refetch env mailboxes id)
  unfolding refetch ask
  refetch-Keeps mailboxes id = record {
    at = λ s h.
        (on_removed-Keeps mailboxes id (env.graph.get_message s.calls id)).at _
          (kept.at_call.asked s h);
  }

  visit-Keeps :
      (mailboxes : List (String × Mailbox)) (m : GraphMessage) → Keeps P (visit env mailboxes m)
  unfolding visit
  visit-Keeps mailboxes m =
      let count : Sync (Unit {0}) = modify (λ s. record s { run = count_seen s.run }) in
      let body =
        if m.is_removed then refetch env mailboxes m.id else store_message env mailboxes m in
      Keeps-then count (λ _. body) (record { at = λ s h. kept.counted (count_seen s.run) s h })
        (λ _.
          Keeps-if m.is_removed (refetch env mailboxes m.id) (store_message env mailboxes m)
            (refetch-Keeps mailboxes m.id) (record { at = kept.stored mailboxes m }))

  visit_all-Keeps :
      (mailboxes : List (String × Mailbox)) (ms : List GraphMessage)
      → Keeps P (visit_all env mailboxes ms)
  unfolding visit_all
  visit_all-Keeps mailboxes [] = Keeps-pure tt
  visit_all-Keeps mailboxes (m ∷ ms) =
      Keeps-then (visit env mailboxes m) _ (visit-Keeps mailboxes m)
        (λ _. visit_all-Keeps mailboxes ms)

  delta_pages-Keeps :
      (fuel : ℕ) (mailboxes : List (String × Mailbox)) (folder_id : String) (link : Option String)
      → Keeps P (delta_pages env fuel mailboxes folder_id link)
  unfolding delta_pages
  delta_pages-Keeps zero mailboxes folder_id link = Keeps-raise out_of_fuel
  delta_pages-Keeps (suc fuel) mailboxes folder_id link =
      Keeps-then (delta env folder_id link) _ (delta-Keeps env P kept.at_call folder_id link)
        (λ page.
          Keeps-then (visit_all env mailboxes page.value) _ (visit_all-Keeps mailboxes page.value)
            (λ _.
              Keeps-if (truthy_opt page.delta_link) _ _
                (record { at = kept.saved folder_id (or_else page.delta_link String.[]) })
                (Keeps-if (truthy_opt page.next_link) _ _
                  (delta_pages-Keeps fuel mailboxes folder_id page.next_link) (Keeps-raise _))))

  sync_folder-Keeps :
      (fuel : ℕ) (mailboxes : List (String × Mailbox)) (folder_id : String)
      (found : Option MailSyncCursor)
      → Keeps P (sync_folder env fuel mailboxes folder_id found)
  unfolding sync_folder restart
  sync_folder-Keeps fuel mailboxes folder_id found =
      Keeps-try (delta_pages env fuel mailboxes folder_id (start_link found)) _
        (delta_pages-Keeps fuel mailboxes folder_id (start_link found))
        (λ e.
          Keeps-if (is_expired e && is_some found) _ _
            (Keeps-then (modify (drop_cursor env folder_id)) _
              (record { at = kept.dropped folder_id })
              (λ _. delta_pages-Keeps fuel mailboxes folder_id none))
            (Keeps-raise e))

  pub sync_folders-Keeps :
      (fuel : ℕ) (mailboxes : List (String × Mailbox)) (fs : List Folder) (had_cursor : Bool)
      → Keeps P (sync_folders env fuel mailboxes fs had_cursor)
  unfolding sync_folders
  sync_folders-Keeps fuel mailboxes [] had_cursor = Keeps-pure had_cursor
  sync_folders-Keeps fuel mailboxes (f ∷ rest) had_cursor = record {
    at = λ s h.
        let found = cursor s.store.object.tenant_id s.store.object.id (folder_key f.id) s.db in
        (Keeps-then (sync_folder env fuel mailboxes f.id found) _
            (sync_folder-Keeps fuel mailboxes f.id found)
            (λ _.
              sync_folders-Keeps fuel mailboxes rest
                (if had_cursor then true else is_some found))).at
          s h;
  }

-- The tables stay sound, whatever the provider answers.
module _ (env : Env) where
  store_message_sound :
      (mailboxes : List (String × Mailbox)) (m : GraphMessage) (s : SyncState)
      → HasSoundTables s.db
      → HasSoundTables (store_message env mailboxes m s).1.db
  unfolding store_message queued microsoft_message_values
  store_message_sound mailboxes m s h =
      let account = s.store.object in
      let v = microsoft_message_values env.from_iso account m mailboxes in
      let (db', e, k) = stored_sound v account.tenant_id (env.clock s.calls) s.db h in
      rw (e, store_message) k

  pub sound_kept : IsKept env (λ s. HasSoundTables s.db)
  unfolding save_cursor drop_cursor put_cursor delete_cursor
  sound_kept = record {
    at_call = record { asked = λ s h. h };
    stored = store_message_sound;
    deleted = λ account id now s h. deleted_sound account id now s.db h;
    counted = λ run s h. h;
    saved = λ folder_id link s h. record {
      unique = h.unique;
      consistent = h.consistent;
      queued_once = h.queued_once;
    };
    dropped = λ folder_id s h. record {
      unique = h.unique;
      consistent = h.consistent;
      queued_once = h.queued_once;
    };
  }
