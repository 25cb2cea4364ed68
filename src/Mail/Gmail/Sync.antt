-- ===== src/Mail/Gmail/Sync.antt =====
-- `GmailSyncService` of modules/mail/sync.py.
pub mod Keeps
pub mod Sound
pub mod Ends
pub mod Pages
use mail_control.Base.{
  ℕ, zero, suc, ◌+◌, String, Bool, true, false, ◌&&◌, ◌||◌, not, Option, none, some, List, [], ◌∷◌,
  ◌++◌, same, if◌then◌else◌, any, truthy, truthy_opt, is_some, or_else, clip,
}
use mail_control.Base.Exec.{
  Result, ok, err, Exec, pure, raise, gets, modify, raise_if, ◌>>=◌, ◌>>◌, try_except,
}
use mail_control.Mail.Account.{
  MailProvider, gmail, microsoft, MailAccount, Values, no_values, ProviderError, Store, connected,
  syncing, error, reauth_required, update_account_state, flush, error_text,
}
use mail_control.Mail.TokenManager.{renew}
use mail_control.Mail.Messages.{
  MailDb, MailSyncCursor, CursorText, checkpoint, text, upsert_message, mark_deleted,
  queue_analysis, cursor, put_cursor, delete_cursor, active_provider_message_ids,
}
use mail_control.Mail.Gmail.Values.{GmailMessage, message_values}
use mail_control.Mail.Gmail.Client.{
  Page, HistoryRecord, HistoryPage, FaultKind, history_expired, message_not_found, reauth,
  transient, superseded, other_fault, Fault, GmailClient, Env, SyncKind, initial, incremental,
  SyncStatus, running, succeeded, failed, SyncRun, SyncError, fault, authorization_changed,
  transient_error, runtime_error, out_of_fuel, SyncState, Sync,
}

abbrev pub contains : List String → String → Bool
contains ids id = any (λ j. same j id) ids

-- Adding to a set.
abbrev pub set_add : String → List String → List String
set_add id ids = if contains ids id then ids else ids ++ id ∷ []

abbrev add_all : List String → List String → List String
add_all [] ids = ids
add_all (id ∷ rest) ids = add_all rest (set_add id ids)

-- The set of the messages that a page of history names.
abbrev pub changed_ids : List HistoryRecord → List String → List String
changed_ids [] ids = ids
changed_ids (h ∷ rest) ids = changed_ids rest (
    add_all h.labels_removed
      (add_all h.labels_added (add_all h.messages_deleted (add_all h.messages_added ids))))

abbrev pub gmail_initial : String
gmail_initial = "gmail:initial"

-- `_initial_state`
pub initial_state : Option MailSyncCursor → Option (String × Bool)
initial_state none = none
initial_state (some c) = elim c.cursor [
  | checkpoint history_id refresh_existing ↦
      if truthy history_id then some (history_id, refresh_existing) else none
  | text t ↦ none
]

count_stored : Bool → SyncRun → SyncRun
count_stored created run =
    if created
    then record run { messages_created = run.messages_created + 1 }
    else record run { messages_updated = run.messages_updated + 1 }

abbrev is_empty : List String → Bool
is_empty [] = true
is_empty (id ∷ ids) = false

abbrev is_expired_kind : FaultKind → Bool
is_expired_kind history_expired = true
is_expired_kind _ = false

-- `except GmailHistoryExpired`
abbrev pub is_expired : SyncError → Bool
is_expired (fault f) = is_expired_kind f.kind
is_expired _ = false

-- `account.history_cursor = …`, on the tracked object.
abbrev pub set_history_cursor : String → SyncState → SyncState
set_history_cursor cursor s =
    let account = s.store.object in
    record s {
      store = record s.store {
        tracked = record s.store.tracked {
          object = record account { auth = record account.auth { history_cursor = some cursor } };
        };
      };
    }

module _ (env : Env) where
  -- A call of the client: other transactions may have changed the account's row meanwhile, and the
  -- client's callback the session's account.
  pub ask : {A : Type 0} → (ℕ → Result Fault A) → SyncState → Result Fault A × SyncState
  ask call s = (
    call s.calls,
    record s {
      calls = s.calls + 1;
      store = renew (env.renewal s.calls) (record s.store { row = env.world s.calls s.store.row });
    },
  )

  or_fault : {A : Type 0} → Result Fault A → Sync A
  or_fault (ok a) = pure a
  or_fault (err f) = raise (fault f)

  -- A call whose errors are not caught.
  pub request : {A : Type 0} → (ℕ → Result Fault A) → Sync A
  unfolding ask or_fault
  request call s = let (r, s') = ask call s in or_fault r s'

  queued : Option MailDb → Bool → Sync (Unit {0})
  unfolding count_stored
  queued none created s =
      (err (runtime_error "message upsert did not return a persisted record"), s)
  queued (some db) created s = (ok tt, record s { db = db; run = count_stored created s.run })

  -- `_store`
  pub store_message : GmailMessage → Sync (Unit {0})
  unfolding queued
  store_message m s =
      let account = s.store.object in
      let run = record s.run { messages_seen = s.run.messages_seen + 1 } in
      let (db, created) = upsert_message (message_values env.ops account m) s.db in
      queued (queue_analysis account.id m.id account.tenant_id (env.clock s.calls) db) created
        (record s { db = db; run = run })

  on_message : String → Result Fault GmailMessage → Sync (Unit {0})
  on_message id (ok m) s = store_message m s
  on_message id (err f) s = elim f.kind [
    | message_not_found ↦
        (ok tt, record s { db = mark_deleted s.store.object.id id (env.clock s.calls) s.db })
    | _ ↦ (err (fault f), s)
  ]

  -- `_refresh_message`
  pub refresh_message : String → Sync (Unit {0})
  unfolding on_message ask
  refresh_message id s =
      let (r, s') = ask (λ n. env.client.get_message n id) s in on_message id r s'

  pub refresh_all : List String → Sync (Unit {0})
  refresh_all [] = pure tt
  refresh_all (id ∷ ids) = refresh_message id >> refresh_all ids

  -- The items of a page of the listing; the set of seen ids is the result.
  pub visit : Bool → List String → List String → List String → Sync (List String)
  visit refresh_existing existing [] seen = pure seen
  visit refresh_existing existing (id ∷ ids) seen =
      let rest = visit refresh_existing existing ids (set_add id seen) in
      if not refresh_existing && contains existing id then rest else refresh_message id >> rest

  -- `repository.checkpoint`: the commit flushes the session.
  unfoldable pub commit : SyncState → SyncState
  commit s = record s { store = flush s.store }

  -- The `while True` loop over the pages of the listing, with fuel.
  pub list_pages : ℕ → Bool → List String → Option String → List String → Sync (List String)
  list_pages zero refresh_existing existing token seen = raise out_of_fuel
  list_pages (suc fuel) refresh_existing existing token seen = do
    page ← request (λ n. env.client.list_messages n token)
    seen ← visit refresh_existing existing page.message_ids seen
    modify commit
    let rest = list_pages fuel refresh_existing existing page.next_page_token seen
    if truthy_opt page.next_page_token then rest else pure seen

  -- The loop over `existing_ids - seen_ids`.
  pub reconcile : List String → List String → Sync (Unit {0})
  reconcile [] seen = pure tt
  reconcile (id ∷ ids) seen =
      let rest = reconcile ids seen in if contains seen id then rest else refresh_message id >> rest

  -- `_replay_history`
  pub replay_history : ℕ → String → Option String → Sync String
  replay_history zero start token = raise out_of_fuel
  replay_history (suc fuel) start token = do
    page ← request (λ n. env.client.history n start token)
    refresh_all (changed_ids page.history [])
    let rest = replay_history fuel start page.next_page_token
    if truthy_opt page.next_page_token then rest else pure (or_else page.history_id start)

  -- A new checkpoint, of the provider's current history.
  new_checkpoint : Bool → Option String → Sync (String × Bool)
  new_checkpoint refresh_existing none s =
      (err (transient_error "Gmail omitted the initial history checkpoint"), s)
  new_checkpoint refresh_existing (some baseline) s =
      if truthy baseline
      then (
        ok (baseline, refresh_existing),
        record s {
          db =
              put_cursor
                (record {
                  tenant_id = s.store.object.tenant_id;
                  mail_account_id = s.store.object.id;
                  resource_key = gmail_initial;
                  cursor = checkpoint baseline refresh_existing;
                })
                s.db;
        },
      )
      else (err (transient_error "Gmail omitted the initial history checkpoint"), s)

  pub import_state : Option (String × Bool) → List String → Sync (String × Bool)
  unfolding new_checkpoint
  import_state (some state) existing = pure state
  import_state none existing = do
    baseline ← request env.client.profile
    new_checkpoint (not (is_empty existing)) baseline

  -- The `except GmailHistoryExpired` around the replay of the import.
  replay_or_reset : Bool → Result SyncError String → Sync Bool
  replay_or_reset second (ok next_cursor) s =
      let account = s.store.object in
      (
        ok true,
        set_history_cursor next_cursor
            (record s { db = delete_cursor account.tenant_id account.id gmail_initial s.db }),
      )
  replay_or_reset second (err e) s =
      if is_expired e
      then (
        if second
            then err (transient_error "Gmail history expired during the full import")
            else ok false,
        record s {
          db =
              put_cursor
                (record {
                  tenant_id = s.store.object.tenant_id;
                  mail_account_id = s.store.object.id;
                  resource_key = gmail_initial;
                  cursor = text "";
                })
                s.db;
        },
      )
      else (err e, s)

  pub replay_into : ℕ → Bool → String → Sync Bool
  unfolding replay_or_reset
  replay_into fuel second start s =
      let (r, s') = replay_history fuel start none s in replay_or_reset second r s'

  -- One round of the `for attempt in range(2)` loop: whether it returned.
  pub import_attempt : ℕ → Bool → Sync Bool
  unfolding import_state replay_into
  import_attempt fuel second = do
    existing ← gets (λ s. active_provider_message_ids s.store.object.id s.db)
    pending ← gets (λ s. cursor s.store.object.tenant_id s.store.object.id gmail_initial s.db)
    state ← import_state (initial_state pending) existing
    seen ← list_pages fuel state.1 existing none []
    reconcile existing seen
    replay_into fuel second state.0

  -- `_full_sync`
  pub full_sync : ℕ → Sync (Unit {0})
  full_sync fuel = do
    done ← import_attempt fuel false
    if done then pure tt else import_attempt fuel true >> pure tt
