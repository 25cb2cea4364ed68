-- ===== src/Mail/Gmail/Sync/Pages.antt =====
-- When the loops over pages have enough fuel.
use mail_control.Base.{
  ℕ, zero, suc, ◌+◌, ◌≤◌, ◌≡◌, ◌≢◌, String, Bool, true, false, Option, none, List, [], arith, refl,
  if◌then◌else◌, Bool-cases, inl, inr, truthy_opt, or_else,
}
use mail_control.Base.Exec.{Result, ok, err, Result-cases, modify}
use mail_control.Mail.Messages.{cursor, active_provider_message_ids}
use mail_control.Mail.Gmail.Client.{
  Env, Fault, Page, HistoryPage, SyncState, SyncError, transient_error, out_of_fuel,
}
use mail_control.Mail.Gmail.Sync.{
  request, refresh_all, visit, commit, list_pages, reconcile, replay_history, import_state,
  replay_or_reset, replay_into, import_attempt, full_sync, changed_ids, gmail_initial,
  initial_state, is_expired,
}
use mail_control.Base.Exec.Avoids.{Avoids-if, Avoids-pure, Avoids-then}
use mail_control.Mail.Gmail.Sync.Ends.{
  HasFuel, request_ends, request_answer, refresh_all_ends, visit_ends, reconcile_ends,
  import_state_ends,
}

-- The pages have an order: a page that names a next one is ranked above it, in the listing and in
-- the history from each start, and the first page's rank is below the fuel.
pub record PagesEnd (env : Env) (fuel : ℕ) (listed : Option String → ℕ)
    (replayed : String → Option String → ℕ) : Type 0 where
  pub messages :
      (n : ℕ) (token : Option String) (page : Page)
      → env.client.list_messages n token ≡ ok page
      → truthy_opt page.next_page_token ≡ true
      → listed page.next_page_token + 1 ≤ listed token
  pub history :
      (n : ℕ) (start : String) (token : Option String) (page : HistoryPage)
      → env.client.history n start token ≡ ok page
      → truthy_opt page.next_page_token ≡ true
      → replayed start page.next_page_token + 1 ≤ replayed start token
  pub listing_fits : listed none + 1 ≤ fuel
  pub history_fits : (start : String) → replayed start none + 1 ≤ fuel

module _ (env : Env) (bound : ℕ) (listed : Option String → ℕ)
    (replayed : String → Option String → ℕ) (end : PagesEnd env bound listed replayed) where
  list_pages_ends :
      (fuel : ℕ) (refresh : Bool) (existing : List String) (token : Option String)
      (seen : List String) (s : SyncState)
      → listed token + 1 ≤ fuel
      → HasFuel (list_pages env fuel refresh existing token seen) s
  unfolding list_pages
  list_pages_ends zero refresh existing token seen s h = absurd (omega arith)
  list_pages_ends (suc fuel) refresh existing token seen s h =
      let call : ℕ → Result Fault Page = λ n. env.client.list_messages n token in
      let s1 = (request env call s).1 in
      Avoids-then (request env call) _ s (request_ends env call s) (λ page e1.
        let look = visit env refresh existing page.message_ids seen in
        let s2 = (look s1).1 in
        Avoids-then look _ s1 (visit_ends env refresh existing page.message_ids seen s1)
          (λ seen' e2.
            Avoids-then (modify (commit env)) _ s2 (record { at = λ q. absurd (cc) })
              (λ _ e3.
                Avoids-if (truthy_opt page.next_page_token) _ _ (commit env s2)
                  (λ next.
                    let lower =
                      end.messages s.calls token page (request_answer env call s page e1) next in
                    list_pages_ends fuel refresh existing page.next_page_token seen' (commit env s2)
                      (omega (arith, lower, h)))
                  (λ no. Avoids-pure seen' (commit env s2)))))

  pub replay_history_ends :
      (fuel : ℕ) (start : String) (token : Option String) (s : SyncState)
      → replayed start token + 1 ≤ fuel
      → HasFuel (replay_history env fuel start token) s
  unfolding replay_history
  replay_history_ends zero start token s h = absurd (omega arith)
  replay_history_ends (suc fuel) start token s h =
      let call : ℕ → Result Fault HistoryPage = λ n. env.client.history n start token in
      let s1 = (request env call s).1 in
      Avoids-then (request env call) _ s (request_ends env call s) (λ page e1.
        let ids = changed_ids page.history [] in
        let s2 = (refresh_all env ids s1).1 in
        Avoids-then (refresh_all env ids) _ s1 (refresh_all_ends env ids s1) (λ _ e2.
          Avoids-if (truthy_opt page.next_page_token) _ _ s2
            (λ next.
              let lower =
                end.history s.calls start token page (request_answer env call s page e1) next in
              replay_history_ends fuel start page.next_page_token s2 (omega (arith, lower, h)))
            (λ no. Avoids-pure (or_else page.history_id start) s2)))

  replay_into_ends :
      (second : Bool) (start : String) (s : SyncState)
      → HasFuel (replay_into env bound second start) s
  unfolding replay_into replay_or_reset
  replay_into_ends second start s =
      let ends = replay_history_ends bound start none s (end.history_fits start) in
      record {
        at = elim (Result-cases (replay_history env bound start none s).0) [
          | inl (next, e) ↦ rw (e, replay_or_reset) (λ q. absurd (cc))
          | inr (x, e) ↦ elim (Bool-cases (is_expired x)) [
            | inl old ↦ rw (e, old, replay_or_reset) (reset second)
            | inr other ↦
                rw (e, other, replay_or_reset)
                  (λ q.
                    let same_error : x ≡ out_of_fuel = ground (arith, q) in
                    ends.at (rw (e, same_error) refl))
          ]
        ];
      }
    where
      reset :
          (b : Bool)
          → let r : Result SyncError Bool =
              if b
              then err (transient_error "Gmail history expired during the full import")
              else ok false in
            r ≢ err out_of_fuel
      reset true q = absurd (cc)
      reset false q = absurd (cc)

  import_attempt_ends :
      (second : Bool) (s : SyncState) → HasFuel (import_attempt env bound second) s
  unfolding import_attempt
  import_attempt_ends second s =
      let account = s.store.object in
      let existing = active_provider_message_ids account.id s.db in
      let st = initial_state (cursor account.tenant_id account.id gmail_initial s.db) in
      record {
        at =
            (Avoids-then (import_state env st existing) _ s (import_state_ends env st existing s)
              (λ state e1.
                let s1 = (import_state env st existing s).1 in
                let pages = list_pages env bound state.1 existing none [] in
                Avoids-then pages _ s1
                  (list_pages_ends bound state.1 existing none [] s1 end.listing_fits)
                  (λ seen e2.
                    Avoids-then (reconcile env existing seen) _ (pages s1).1
                      (reconcile_ends env existing seen (pages s1).1)
                      (λ _ e3.
                        replay_into_ends second state.0
                          (reconcile env existing seen (pages s1).1).1)))).at;
      }

  pub full_sync_ends : (s : SyncState) → HasFuel (full_sync env bound) s
  unfolding full_sync
  full_sync_ends s =
      let s1 = (import_attempt env bound false s).1 in
      Avoids-then (import_attempt env bound false) _ s (import_attempt_ends false s) (λ done e.
        Avoids-if done _ _ s1 (λ _. Avoids-pure tt s1)
          (λ _.
            Avoids-then (import_attempt env bound true) _ s1 (import_attempt_ends true s1)
              (λ _ e2. Avoids-pure tt (import_attempt env bound true s1).1)))
