-- ===== src/Mail/Gmail/Sync/Keeps.antt =====
-- An invariant that the elementary steps keep is kept by the whole import and by every replay.
use mail_control.Base.{
  ℕ, zero, suc, ◌+◌, ◌≡◌, String, Bool, true, false, not, Option, none, some, List, [], ◌∷◌, refl,
  Bool-cases, inl, inr, ◌&&◌, truthy, truthy_opt, or_else,
}
use mail_control.Base.Exec.{Result, ok, err, Result-cases, modify}
use mail_control.Base.Exec.Keeps.{Keeps, Keeps-then, Keeps-if, Keeps-pure, Keeps-raise}
use mail_control.Mail.TokenManager.{renew}
use mail_control.Mail.Messages.{
  MailSyncCursor, mark_deleted, put_cursor, delete_cursor, active_provider_message_ids, cursor,
}
use mail_control.Mail.Gmail.Values.{GmailMessage}
use mail_control.Mail.Gmail.Client.{
  Env, SyncState, Fault, FaultKind, message_not_found, SyncError, out_of_fuel,
}
use mail_control.Mail.Gmail.Sync.{
  or_fault, request, store_message, on_message, refresh_message, refresh_all, visit, commit,
  list_pages, reconcile, replay_history, import_state, replay_or_reset, import_attempt, full_sync,
  set_history_cursor, gmail_initial, contains, set_add, initial_state, changed_ids, is_expired,
  new_checkpoint, is_empty, replay_into,
}

-- What the code does to the state, step by step.
pub record IsKept (env : Env) (P : SyncState → Type 0) : Type 0 where
  pub asked :
      (s : SyncState)
      → P s
      → P (record s {
        calls = s.calls + 1;
        store =
            renew (env.renewal s.calls) (record s.store { row = env.world s.calls s.store.row });
      })
  pub stored : (m : GmailMessage) (s : SyncState) → P s → P (store_message env m s).1
  pub deleted :
      (account : ℕ) (id : String) (now : ℕ) (s : SyncState)
      → P s
      → P (record s { db = mark_deleted account id now s.db })
  pub committed : (s : SyncState) → P s → P (commit env s)
  pub cursor_put :
      (c : MailSyncCursor) (s : SyncState) → P s → P (record s { db = put_cursor c s.db })
  pub cursor_deleted :
      (t a : ℕ) (k : String) (s : SyncState) → P s → P (record s { db = delete_cursor t a k s.db })
  pub advanced : (cursor : String) (s : SyncState) → P s → P (set_history_cursor cursor s)

module _ (env : Env) (P : SyncState → Type 0) (kept : IsKept env P) where
  pub request-Keeps : {A : Type 0} (call : ℕ → Result Fault A) → Keeps P (request env call)
  unfolding request
  request-Keeps call = record {
    at = λ s h. elim (Result-cases (call s.calls)) [
      | inl (a, e) ↦ rw (e, or_fault) (kept.asked s h)
      | inr (x, e) ↦ rw (e, or_fault) (kept.asked s h)
    ];
  }

  commit-Keeps : Keeps {E = SyncError} P (modify (commit env))
  commit-Keeps = record { at = kept.committed }

  on_message_keeps :
      (id : String) (r : Result Fault GmailMessage) (s : SyncState)
      → P s
      → P (on_message env id r s).1
  unfolding on_message
  on_message_keeps id (ok m) s h = kept.stored m s h
  on_message_keeps id (err f) s h = go f.kind refl
    where
      go : (k : FaultKind) → f.kind ≡ k → P (on_message env id (err f) s).1
      go message_not_found e =
          rw (e, on_message) (kept.deleted s.store.object.id id (env.clock s.calls) s h)
      go _ e = rw (e, on_message) h

  refresh_message-Keeps : (id : String) → Keeps P (refresh_message env id)
  unfolding refresh_message
  refresh_message-Keeps id = record {
    at = λ s h. on_message_keeps id (env.client.get_message s.calls id) _ (kept.asked s h);
  }

  pub refresh_all-Keeps : (ids : List String) → Keeps P (refresh_all env ids)
  unfolding refresh_all
  refresh_all-Keeps [] = Keeps-pure tt
  refresh_all-Keeps (id ∷ ids) =
      Keeps-then (refresh_message env id) _ (refresh_message-Keeps id) (λ _. refresh_all-Keeps ids)

  pub visit-Keeps :
      (refresh : Bool) (existing ids seen : List String)
      → Keeps P (visit env refresh existing ids seen)
  unfolding visit
  visit-Keeps refresh existing [] seen = Keeps-pure seen
  visit-Keeps refresh existing (id ∷ ids) seen =
      let rest = visit-Keeps refresh existing ids (set_add id seen) in
      Keeps-if (not refresh && contains existing id) _ _ rest
        (Keeps-then (refresh_message env id) _ (refresh_message-Keeps id) (λ _. rest))

  pub list_pages-Keeps :
      (fuel : ℕ) (refresh : Bool) (existing : List String) (token : Option String)
      (seen : List String)
      → Keeps P (list_pages env fuel refresh existing token seen)
  unfolding list_pages
  list_pages-Keeps zero refresh existing token seen = Keeps-raise out_of_fuel
  list_pages-Keeps (suc fuel) refresh existing token seen =
      Keeps-then (request env (λ n. env.client.list_messages n token)) _
        (request-Keeps (λ n. env.client.list_messages n token))
        (λ page.
          Keeps-then (visit env refresh existing page.message_ids seen) _
            (visit-Keeps refresh existing page.message_ids seen)
            (λ seen'. Keeps-then (modify (commit env)) _ commit-Keeps (λ _.
              Keeps-if (truthy_opt page.next_page_token) _ _
                (list_pages-Keeps fuel refresh existing page.next_page_token seen')
                (Keeps-pure seen'))))

  reconcile-Keeps : (ids seen : List String) → Keeps P (reconcile env ids seen)
  unfolding reconcile
  reconcile-Keeps [] seen = Keeps-pure tt
  reconcile-Keeps (id ∷ ids) seen = Keeps-if (contains seen id) _ _ (reconcile-Keeps ids seen) (
      Keeps-then (refresh_message env id) _ (refresh_message-Keeps id)
        (λ _. reconcile-Keeps ids seen))

  pub replay_history-Keeps :
      (fuel : ℕ) (start : String) (token : Option String)
      → Keeps P (replay_history env fuel start token)
  unfolding replay_history
  replay_history-Keeps zero start token = Keeps-raise out_of_fuel
  replay_history-Keeps (suc fuel) start token =
      Keeps-then (request env (λ n. env.client.history n start token)) _
        (request-Keeps (λ n. env.client.history n start token))
        (λ page.
          Keeps-then (refresh_all env (changed_ids page.history [])) _
            (refresh_all-Keeps (changed_ids page.history []))
            (λ _.
              Keeps-if (truthy_opt page.next_page_token) _ _
                (replay_history-Keeps fuel start page.next_page_token)
                (Keeps-pure (or_else page.history_id start))))

  new_checkpoint-Keeps :
      (refresh : Bool) (baseline : Option String) → Keeps P (new_checkpoint env refresh baseline)
  unfolding new_checkpoint
  new_checkpoint-Keeps refresh none = record { at = λ s h. h }
  new_checkpoint-Keeps refresh (some baseline) = record {
    at = λ s h. elim (Bool-cases (truthy baseline)) [
      | inl t ↦ rw t (kept.cursor_put _ s h)
      | inr f ↦ rw f h
    ];
  }

  import_state-Keeps :
      (st : Option (String × Bool)) (existing : List String)
      → Keeps P (import_state env st existing)
  unfolding import_state
  import_state-Keeps (some st) existing = Keeps-pure st
  import_state-Keeps none existing =
      Keeps-then (request env env.client.profile) _ (request-Keeps env.client.profile)
        (new_checkpoint-Keeps (not (is_empty existing)))

  replay_or_reset_keeps :
      (second : Bool) (r : Result SyncError String) (s : SyncState)
      → P s
      → P (replay_or_reset env second r s).1
  unfolding replay_or_reset
  replay_or_reset_keeps second (ok cursor) s h =
      kept.advanced cursor _
        (kept.cursor_deleted s.store.object.tenant_id s.store.object.id gmail_initial s h)
  replay_or_reset_keeps second (err e) s h = elim (Bool-cases (is_expired e)) [
    | inl old ↦ rw old (kept.cursor_put _ s h)
    | inr other ↦ rw other h
  ]

  replay_or_reset_action :
      (fuel : ℕ) (second : Bool) (start : String) → Keeps P (replay_into env fuel second start)
  unfolding replay_into
  replay_or_reset_action fuel second start = record {
    at = λ s h.
        replay_or_reset_keeps second (replay_history env fuel start none s).0
          (replay_history env fuel start none s).1 ((replay_history-Keeps fuel start none).at s h);
  }

  import_attempt-Keeps : (fuel : ℕ) (second : Bool) → Keeps P (import_attempt env fuel second)
  unfolding import_attempt
  import_attempt-Keeps fuel second = record {
    at = λ s h.
        let account = s.store.object in
        let existing = active_provider_message_ids account.id s.db in
        let st = initial_state (cursor account.tenant_id account.id gmail_initial s.db) in
        (Keeps-then (import_state env st existing) _ (import_state-Keeps st existing) (λ state.
            Keeps-then (list_pages env fuel state.1 existing none []) _
              (list_pages-Keeps fuel state.1 existing none [])
              (λ seen.
                Keeps-then (reconcile env existing seen) _ (reconcile-Keeps existing seen)
                  (λ _. replay_or_reset_action fuel second state.0)))).at
          s h;
  }

  -- A full import keeps what its steps keep, however it ends.
  pub full_sync-Keeps : (fuel : ℕ) → Keeps P (full_sync env fuel)
  unfolding full_sync
  full_sync-Keeps fuel =
      Keeps-then (import_attempt env fuel false) _ (import_attempt-Keeps fuel false) (λ done.
        Keeps-if done _ _ (Keeps-pure tt) (
          Keeps-then (import_attempt env fuel true) _ (import_attempt-Keeps fuel true)
            (λ _. Keeps-pure tt)))
