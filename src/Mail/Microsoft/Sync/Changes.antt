-- ===== src/Mail/Microsoft/Sync/Changes.antt =====
-- When the loops over pages of changes have enough fuel.
use mail_control.Base.{
  refl, ap, ◌≡◌, ℕ, zero, suc, ◌+◌, ◌≤◌, ◌≢◌, String, Bool, true, ◌&&◌, Option, none, some, List,
  [], ◌∷◌, arith, Bool-cases, inl, inr, truthy_opt, or_else, is_some, if◌then◌else◌,
}
use mail_control.Base.Exec.{Result, ok, err, raise, modify}
use mail_control.Base.Exec.Avoids.{Avoids-then, Avoids-pure, Avoids-try}
use mail_control.Mail.Messages.{MailDb, Mailbox, MailSyncCursor, cursor}
use mail_control.Mail.Gmail.Client.{SyncState}
use mail_control.Mail.Microsoft.Values.{GraphMessage}
use mail_control.Mail.Microsoft.Graph.{
  Env, Fault, Folder, SyncError, runtime_error, out_of_fuel, Sync, is_missing, ask, delta,
  delta_link,
}
use mail_control.Mail.Microsoft.Graph.Ends.{
  HasFuel, Ends, Ends-then, Ends-if, Ends-pure, Ends-weaken, Forward, delta-Ends,
}
use mail_control.Mail.Microsoft.Sync.Ends.{PagesEnd}
use mail_control.Mail.Microsoft.Sync.{
  count_seen, folder_key, start_link, is_expired, queued, store_message, on_removed, refetch, visit,
  visit_all, save_cursor, delta_pages, drop_cursor, restart, sync_folder, sync_folders,
}

module _ (env : Env) where
  queued-Forward :
      (o : Option MailDb) (created : Bool) (s : SyncState) → Forward env (queued env o created) s
  unfolding queued
  queued-Forward none created s = record {
    fuel = record { at = λ h. absurd (cc) };
    result = λ a e. omega arith;
  }
  queued-Forward (some db) created s = record {
    fuel = record { at = λ h. absurd (cc) };
    result = λ a e. omega arith;
  }

  store-Forward :
      (mailboxes : List (String × Mailbox)) (m : GraphMessage) (s : SyncState)
      → Forward env (store_message env mailboxes m) s
  unfolding store_message
  store-Forward mailboxes m s =
      let k = queued-Forward _ _ _ in record { fuel = record { at = k.fuel.at }; result = k.result }

  on_removed-Forward :
      (mailboxes : List (String × Mailbox)) (id : String) (r : Result Fault GraphMessage)
      (s : SyncState)
      → Forward env (on_removed env mailboxes id r) s
  unfolding on_removed
  on_removed-Forward mailboxes id (ok m) s = store-Forward mailboxes m s
  on_removed-Forward mailboxes id (err f) s = elim (Bool-cases (is_missing f.kind)) [
    | inl e ↦
        rw (on_removed, e)
          (record { fuel = record { at = λ h. absurd (cc) }; result = λ a k. omega arith })
    | inr e ↦
        rw (on_removed, e)
          (record { fuel = record { at = λ h. absurd (cc) }; result = λ a k. omega arith })
  ]

  refetch-Forward :
      (mailboxes : List (String × Mailbox)) (id : String) (s : SyncState)
      → Forward env (refetch env mailboxes id) s
  unfolding refetch ask
  refetch-Forward mailboxes id s =
      let k =
        on_removed-Forward mailboxes id (env.graph.get_message s.calls id)
          (ask env (λ n. env.graph.get_message n id) s).1 in
      record { fuel = record { at = k.fuel.at }; result = λ a e. omega (arith, k.result a e) }

  visit-Forward :
      (mailboxes : List (String × Mailbox)) (m : GraphMessage) (s : SyncState)
      → Forward env (visit env mailboxes m) s
  unfolding visit
  visit-Forward mailboxes m s =
      let s' : SyncState = record s { run = count_seen s.run } in
      let k =
        Ends-if m.is_removed (refetch env mailboxes m.id) (store_message env mailboxes m) s' _
          (λ h. refetch-Forward mailboxes m.id s') (λ h. store-Forward mailboxes m s') in
      record { fuel = record { at = k.fuel.at }; result = k.result }

  visit_all-Forward :
      (mailboxes : List (String × Mailbox)) (ms : List GraphMessage) (s : SyncState)
      → Forward env (visit_all env mailboxes ms) s
  unfolding visit_all
  visit_all-Forward mailboxes [] s = Ends-pure tt s _ (omega arith)
  visit_all-Forward mailboxes (m ∷ ms) s =
      Ends-then (visit env mailboxes m) _ s _ _ (visit-Forward mailboxes m s) (λ u t k.
        Ends-weaken (visit_all env mailboxes ms) t _ _ (visit_all-Forward mailboxes ms t)
          (λ a c j. omega (arith, k, j)))

module _ (env : Env) (bound : ℕ) (size rank : String → ℕ) (end : PagesEnd env bound size rank) where
  followed :
      (folder_id : String) (link : Option String)
      → truthy_opt link ≡ true
      → delta_link env folder_id link ≡ or_else link String.[]
  unfolding delta_link
  followed folder_id none h = absurd (cc)
  followed folder_id (some t) h = rw h refl

  delta_pages_ends :
      (fuel : ℕ) (mailboxes : List (String × Mailbox)) (folder_id : String) (link : Option String)
      (s : SyncState)
      → rank (delta_link env folder_id link) + 1 ≤ fuel
      → Ends (delta_pages env fuel mailboxes folder_id link) s (λ a c. Unit {0})
  unfolding delta_pages
  delta_pages_ends zero mailboxes folder_id link s b = absurd (omega (arith, b))
  delta_pages_ends (suc fuel) mailboxes folder_id link s b =
      let url = delta_link env folder_id link in
      Ends-then (delta env folder_id link) _ s _ _ (delta-Ends env folder_id link s)
        (λ page t (c, e).
          Ends-then (visit_all env mailboxes page.value) _ t _ _
            (visit_all-Forward env mailboxes page.value t)
            (λ _ r grown.
              let rest = delta_pages env fuel mailboxes folder_id page.next_link in
              let stop : Sync (Unit {0}) =
                raise (runtime_error "Microsoft delta response omitted its continuation") in
              let save : Sync (Unit {0}) =
                modify (save_cursor env folder_id (or_else page.delta_link String.[])) in
              Ends-if (truthy_opt page.delta_link) save
                (if truthy_opt page.next_link then rest else stop) r _
                (λ saves. record { fuel = record { at = λ q. absurd (cc) }; result = λ a k. tt })
                (λ goes_on.
                  Ends-if (truthy_opt page.next_link) rest stop r _
                    (λ next.
                      let lower = end.more_changes s.calls url page e goes_on next in
                      let same_rank = ap rank (followed folder_id page.next_link next) in
                      delta_pages_ends fuel mailboxes folder_id page.next_link r
                        (omega (arith, lower, same_rank, b)))
                    (λ no_link. record {
                      fuel = record { at = λ q. absurd (cc) };
                      result = λ a k. tt;
                    }))))

  restart_ends :
      (mailboxes : List (String × Mailbox)) (folder_id : String) (found : Option MailSyncCursor)
      (e : SyncError) (s : SyncState)
      → e ≢ out_of_fuel
      → HasFuel (restart env bound mailboxes folder_id found e) s
  unfolding restart
  restart_ends mailboxes folder_id found e s other =
      elim (Bool-cases (is_expired e && is_some found)) [
        | inl again ↦
            rw (restart, again)
              (Avoids-then (modify (drop_cursor env folder_id))
                (λ _. delta_pages env bound mailboxes folder_id none) s
                (record { at = λ q. absurd (cc) })
                (λ _ k.
                  (delta_pages_ends bound mailboxes folder_id none (drop_cursor env folder_id s)
                    (end.changes_fit _)).fuel))
        | inr stops ↦ rw (restart, stops) (record { at = λ q. other (ground (arith, q)) })
      ]

  sync_folder_ends :
      (mailboxes : List (String × Mailbox)) (folder_id : String) (found : Option MailSyncCursor)
      (s : SyncState)
      → HasFuel (sync_folder env bound mailboxes folder_id found) s
  unfolding sync_folder
  sync_folder_ends mailboxes folder_id found s =
      Avoids-try (delta_pages env bound mailboxes folder_id (start_link found))
        (restart env bound mailboxes folder_id found) s
        (delta_pages_ends bound mailboxes folder_id (start_link found) s (end.changes_fit _)).fuel
        (λ e other. restart_ends mailboxes folder_id found e _ other)

  pub sync_folders_ends :
      (mailboxes : List (String × Mailbox)) (fs : List Folder) (had : Bool) (s : SyncState)
      → HasFuel (sync_folders env bound mailboxes fs had) s
  unfolding sync_folders
  sync_folders_ends mailboxes [] had s = Avoids-pure had s
  sync_folders_ends mailboxes (f ∷ rest) had s =
      let found = cursor s.store.object.tenant_id s.store.object.id (folder_key f.id) s.db in
      let k =
        Avoids-then (sync_folder env bound mailboxes f.id found)
          (λ _. sync_folders env bound mailboxes rest (if had then true else is_some found)) s
          (sync_folder_ends mailboxes f.id found s) (λ _ e. sync_folders_ends mailboxes rest _ _) in
      record { at = k.at }
