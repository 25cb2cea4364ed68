-- ===== src/Mail/Microsoft/Sync.antt =====
-- `_all_folders` and `_sync_folder` of `MicrosoftSyncService` (modules/mail/microsoft_sync.py).
pub mod Kept
pub mod Counted
pub mod Ends
pub mod Changes
use mail_control.Base.{
  ℕ, zero, suc, ◌+◌, String, Bool, true, false, ◌&&◌, not, Option, none, some, List, [], ◌∷◌, ◌++◌,
  ◌==◌, if◌then◌else◌, filter_by, truthy_opt, is_some, or_else,
}
use mail_control.Base.Exec.{Result, ok, err, pure, raise, gets, modify, ◌>>=◌, ◌>>◌, try_except}
use mail_control.Identity.Tokens.{append_text}
use mail_control.Mail.Account.{MailAccount, flush}
use mail_control.Mail.Messages.{
  MailDb, Mailbox, MailSyncCursor, CursorText, checkpoint, text, upsert_message, mark_deleted,
  queue_analysis, cursor, put_cursor, delete_cursor,
}
use mail_control.Mail.Gmail.Client.{SyncRun, SyncState}
use mail_control.Mail.Microsoft.Values.{GraphMessage, microsoft_message_values}
use mail_control.Mail.Microsoft.Graph.{
  Fault, Folder, FolderPage, DeltaPage, Env, SyncError, fault, delta_expired, runtime_error,
  out_of_fuel, Sync, is_missing, child_path, ask, request, folders, delta,
}

abbrev pub has_children : Folder → Bool
has_children f = not (f.child_folder_count == 0)

-- `queue.pop()`: the last element, and the others.
abbrev pub pop : List Folder → Option (Folder × List Folder)
pop [] = none
pop (f ∷ rest) = elim (pop rest) [
  | none ↦ some (f, [])
  | some (last, others) ↦ some (last, f ∷ others)
]

-- `f"folder:{folder_id}"`
abbrev pub folder_key : String → String
folder_key folder_id = append_text "folder:" folder_id

-- The text of a folder's cursor; an import checkpoint stands under another key only.
abbrev pub link_of : CursorText → String
link_of (text t) = t
link_of (checkpoint history_id refresh) = history_id

abbrev pub start_link : Option MailSyncCursor → Option String
start_link none = none
start_link (some c) = some (link_of c.cursor)

abbrev count_seen : SyncRun → SyncRun
count_seen run = record run { messages_seen = run.messages_seen + 1 }

abbrev count_updated : SyncRun → SyncRun
count_updated run = record run { messages_updated = run.messages_updated + 1 }

-- `if created: … else: …`
pub count_stored : Bool → SyncRun → SyncRun
count_stored true run = record run { messages_created = run.messages_created + 1 }
count_stored false run = record run { messages_updated = run.messages_updated + 1 }

-- `except MicrosoftDeltaExpired`
abbrev pub is_expired : SyncError → Bool
is_expired (delta_expired f) = true
is_expired _ = false

module _ (env : Env) where
  -- The loop over the pages of the top folders.
  pub list_folders : ℕ → Option String → List Folder → Sync (List Folder)
  list_folders zero link found = raise out_of_fuel
  list_folders (suc fuel) link found = do
    page ← folders env link
    let rest = list_folders fuel page.next_link (found ++ page.value)
    if truthy_opt page.next_link then rest else pure (found ++ page.value)

  -- The loop over the pages of one folder's children: the folders found, and the queue.
  pub list_children : ℕ → String → List Folder → List Folder → Sync (List Folder × List Folder)
  list_children zero url found queue = raise out_of_fuel
  list_children (suc fuel) url found queue = do
    page ← request env (λ n. env.graph.get_folders n url)
    let found' = found ++ page.value
    let queue' = queue ++ filter_by has_children page.value
    let rest = list_children fuel (or_else page.next_link String.[]) found' queue'
    if truthy_opt page.next_link then rest else pure (found', queue')

  -- `while queue`
  pub walk : ℕ → List Folder → List Folder → Sync (List Folder)
  unfolding list_children
  walk zero found queue = raise out_of_fuel
  walk (suc fuel) found queue = elim (pop queue) [
    | none ↦ pure found
    | some (parent, others) ↦
        list_children fuel (child_path parent.id) found others >>= λ r. walk fuel r.0 r.1
  ]

  -- `_all_folders`
  pub all_folders : ℕ → Sync (List Folder)
  unfolding list_folders walk
  all_folders fuel = do
    found ← list_folders fuel none []
    walk fuel found (filter_by has_children found)

  queued : Option MailDb → Bool → Sync (Unit {0})
  unfolding count_stored
  queued none created s =
      (err (runtime_error "message upsert did not return a persisted record"), s)
  queued (some db) created s = (ok tt, record s { db = db; run = count_stored created s.run })

  -- The upsert and what follows it.
  pub store_message : List (String × Mailbox) → GraphMessage → Sync (Unit {0})
  unfolding queued
  store_message mailboxes m s =
      let account = s.store.object in
      let (db, created) =
        upsert_message (microsoft_message_values env.from_iso account m mailboxes) s.db in
      queued (queue_analysis account.id m.id account.tenant_id (env.clock s.calls) db) created
        (record s { db = db })

  on_removed : List (String × Mailbox) → String → Result Fault GraphMessage → Sync (Unit {0})
  unfolding store_message
  on_removed mailboxes id (ok m) s = store_message mailboxes m s
  on_removed mailboxes id (err f) s =
      if is_missing f.kind
      then (
        ok tt,
        record s {
          db = mark_deleted s.store.object.id id (env.clock s.calls) s.db;
          run = count_updated s.run;
        },
      )
      else (err (fault f), s)

  -- A message that is removed from one folder may have moved to another.
  refetch : List (String × Mailbox) → String → Sync (Unit {0})
  unfolding ask on_removed
  refetch mailboxes id s =
      let (r, s') = ask env (λ n. env.graph.get_message n id) s in on_removed mailboxes id r s'

  -- One round of the loop over the messages of a page.
  pub visit : List (String × Mailbox) → GraphMessage → Sync (Unit {0})
  unfolding refetch
  visit mailboxes m =
      modify (λ s. record s { run = count_seen s.run })
      >> (if m.is_removed then refetch mailboxes m.id else store_message mailboxes m)

  pub visit_all : List (String × Mailbox) → List GraphMessage → Sync (Unit {0})
  unfolding visit
  visit_all mailboxes [] = pure tt
  visit_all mailboxes (m ∷ ms) = visit mailboxes m >> visit_all mailboxes ms

  -- A new cursor, or a write to the one that was found.
  unfoldable pub save_cursor : String → String → SyncState → SyncState
  save_cursor folder_id link s = record s {
    db =
        put_cursor
          (record {
            tenant_id = s.store.object.tenant_id;
            mail_account_id = s.store.object.id;
            resource_key = folder_key folder_id;
            cursor = text link;
          })
          s.db;
  }

  -- The `while True` loop over the pages of the changes, with fuel.
  pub delta_pages : ℕ → List (String × Mailbox) → String → Option String → Sync (Unit {0})
  unfolding visit_all save_cursor
  delta_pages zero mailboxes folder_id link = raise out_of_fuel
  delta_pages (suc fuel) mailboxes folder_id link = do
    page ← delta env folder_id link
    visit_all mailboxes page.value
    let rest = delta_pages fuel mailboxes folder_id page.next_link
    if truthy_opt page.delta_link
        then modify (save_cursor folder_id (or_else page.delta_link String.[]))
        else if truthy_opt page.next_link
        then rest
        else raise (runtime_error "Microsoft delta response omitted its continuation")

  -- `session.delete(cursor)` and `flush`
  unfoldable pub drop_cursor : String → SyncState → SyncState
  drop_cursor folder_id s = record s {
    db = delete_cursor s.store.object.tenant_id s.store.object.id (folder_key folder_id) s.db;
    store = flush s.store;
  }

  -- `except MicrosoftDeltaExpired`: with no cursor, the second time too, the error goes on.
  restart :
      ℕ → List (String × Mailbox) → String → Option MailSyncCursor → SyncError → Sync (Unit {0})
  unfolding delta_pages drop_cursor
  restart fuel mailboxes folder_id found e =
      if is_expired e && is_some found
      then modify (drop_cursor folder_id) >> delta_pages fuel mailboxes folder_id none
      else raise e

  -- `_sync_folder`
  pub sync_folder : ℕ → List (String × Mailbox) → String → Option MailSyncCursor → Sync (Unit {0})
  unfolding restart
  sync_folder fuel mailboxes folder_id found =
      try_except (delta_pages fuel mailboxes folder_id (start_link found))
        (restart fuel mailboxes folder_id found)

  -- The loop over the folders: whether one of them had a cursor.
  pub sync_folders : ℕ → List (String × Mailbox) → List Folder → Bool → Sync Bool
  unfolding sync_folder
  sync_folders fuel mailboxes [] had_cursor = pure had_cursor
  sync_folders fuel mailboxes (f ∷ rest) had_cursor = do
    found ← gets (λ s. cursor s.store.object.tenant_id s.store.object.id (folder_key f.id) s.db)
    sync_folder fuel mailboxes f.id found
    sync_folders fuel mailboxes rest (if had_cursor then true else is_some found)
