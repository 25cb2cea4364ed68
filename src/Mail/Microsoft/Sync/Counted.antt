-- ===== src/Mail/Microsoft/Sync/Counted.antt =====
-- The counters of a run: a synchronization that returns has counted each message that it saw as
-- created or as updated; one that raises may have one message more that it saw.
use mail_control.Base.{
  ℕ, zero, suc, ◌+◌, ◌≡◌, String, Bool, true, false, Option, none, some, List, [], ◌∷◌, arith,
  Bool-cases, inl, inr, truthy_opt, is_some, if◌then◌else◌,
}
use mail_control.Base.Exec.{Result, ok, err, modify, ◌>>◌}
use mail_control.Base.Exec.Settles.{
  settles, Settles, Settles-then, Settles-if, Settles-try, Settles-pure, Settles-raise,
}
use mail_control.Mail.Messages.{MailDb, Mailbox, MailSyncCursor, cursor}
use mail_control.Mail.Gmail.Client.{SyncState}
use mail_control.Mail.Microsoft.Values.{GraphMessage}
use mail_control.Mail.Microsoft.Graph.{Env, Fault, Folder, SyncError, Sync, is_missing, ask, delta}
use mail_control.Mail.Microsoft.Graph.Kept.{delta-Keeps}
use mail_control.Mail.Microsoft.Sync.{
  count_stored, folder_key, start_link, is_expired, queued, store_message, on_removed, refetch,
  visit, visit_all, save_cursor, delta_pages, drop_cursor, restart, sync_folder, sync_folders,
}

abbrev pub IsCounted : SyncState → Type 0
IsCounted s = s.run.messages_seen ≡ s.run.messages_created + s.run.messages_updated

-- In the middle of a message.
abbrev IsPending : SyncState → Type 0
IsPending s = s.run.messages_seen ≡ suc (s.run.messages_created + s.run.messages_updated)

-- From the middle of a message to its end.
record Counts {A : Type 0} (m : Sync A) : Type 0 where
  at : (s : SyncState) → IsPending s → settles is_expired (m s).0 ≡ true → IsCounted (m s).1

module _ (env : Env) where
  queued-Counts : (o : Option MailDb) (created : Bool) → Counts (queued env o created)
  unfolding queued count_stored
  queued-Counts none created = record { at = λ s q h. absurd (ground (arith, h)) }
  queued-Counts (some db) true = record { at = λ s q h. omega (arith, q) }
  queued-Counts (some db) false = record { at = λ s q h. omega (arith, q) }

  store_message-Counts :
      (mailboxes : List (String × Mailbox)) (m : GraphMessage)
      → Counts (store_message env mailboxes m)
  unfolding store_message
  store_message-Counts mailboxes m = record { at = λ s q h. (queued-Counts _ _).at _ q h }

  on_removed-Counts :
      (mailboxes : List (String × Mailbox)) (id : String) (r : Result Fault GraphMessage)
      → Counts (on_removed env mailboxes id r)
  unfolding on_removed
  on_removed-Counts mailboxes id (ok m) = store_message-Counts mailboxes m
  on_removed-Counts mailboxes id (err f) = record {
    at = λ s q h. elim (Bool-cases (is_missing f.kind)) [
      | inl gone ↦ rw (on_removed, gone) (omega (arith, q))
      | inr other ↦ absurd (ground (arith, other, h))
    ];
  }

  refetch-Counts :
      (mailboxes : List (String × Mailbox)) (id : String) → Counts (refetch env mailboxes id)
  unfolding refetch ask
  refetch-Counts mailboxes id = record {
    at = λ s q h. (on_removed-Counts mailboxes id (env.graph.get_message s.calls id)).at _ q h;
  }

  Counts-if : (b : Bool) (m n : Sync (Unit {0})) → Counts m → Counts n → Counts (if b then m else n)
  Counts-if true m n hm hn = hm
  Counts-if false m n hm hn = hn

  visit-Settles :
      (mailboxes : List (String × Mailbox)) (m : GraphMessage)
      → Settles is_expired IsCounted (visit env mailboxes m)
  unfolding visit
  visit-Settles mailboxes m = record {
    at = λ s q h.
        (Counts-if m.is_removed (refetch env mailboxes m.id) (store_message env mailboxes m)
            (refetch-Counts mailboxes m.id) (store_message-Counts mailboxes m)).at
          _ (omega (arith, q)) h;
  }

  visit_all-Settles :
      (mailboxes : List (String × Mailbox)) (ms : List GraphMessage)
      → Settles is_expired IsCounted (visit_all env mailboxes ms)
  unfolding visit_all
  visit_all-Settles mailboxes [] = Settles-pure tt
  visit_all-Settles mailboxes (m ∷ ms) =
      Settles-then (visit env mailboxes m) _ (visit-Settles mailboxes m)
        (λ _. visit_all-Settles mailboxes ms)

  delta_pages-Settles :
      (fuel : ℕ) (mailboxes : List (String × Mailbox)) (folder_id : String) (link : Option String)
      → Settles is_expired IsCounted (delta_pages env fuel mailboxes folder_id link)
  unfolding delta_pages save_cursor
  delta_pages-Settles zero mailboxes folder_id link = Settles-raise _
  delta_pages-Settles (suc fuel) mailboxes folder_id link =
      Settles-then (delta env folder_id link) _
        (record {
          at = λ s q h.
              (delta-Keeps env IsCounted (record { asked = λ t k. k }) folder_id link).at s q;
        })
        (λ page.
          Settles-then (visit_all env mailboxes page.value) _
            (visit_all-Settles mailboxes page.value)
            (λ _.
              Settles-if (truthy_opt page.delta_link) _ _ (record { at = λ s q h. q })
                (Settles-if (truthy_opt page.next_link) _ _
                  (delta_pages-Settles fuel mailboxes folder_id page.next_link) (Settles-raise _))))

  again-Settles :
      (fuel : ℕ) (mailboxes : List (String × Mailbox)) (folder_id : String)
      → Settles is_expired IsCounted
          (modify (drop_cursor env folder_id) >> delta_pages env fuel mailboxes folder_id none)
  unfolding drop_cursor
  again-Settles fuel mailboxes folder_id =
      Settles-then (modify (drop_cursor env folder_id))
        (λ _. delta_pages env fuel mailboxes folder_id none) (record { at = λ s q h. q })
        (λ _. delta_pages-Settles fuel mailboxes folder_id none)

  restart-IsCounted :
      (fuel : ℕ) (mailboxes : List (String × Mailbox)) (folder_id : String)
      (found : Option MailSyncCursor) (e : SyncError) (s : SyncState)
      → (is_expired e ≡ true → IsCounted s)
      → settles is_expired (restart env fuel mailboxes folder_id found e s).0 ≡ true
      → IsCounted (restart env fuel mailboxes folder_id found e s).1
  unfolding restart
  restart-IsCounted fuel mailboxes folder_id found e s q h = elim (Bool-cases (is_expired e)) [
    | inr other ↦ absurd (ground (arith, (rw (restart, other) at h), other))
    | inl expired ↦ elim (Bool-cases (is_some found)) [
      | inl had ↦
          rw (restart, expired, had)
            ((again-Settles fuel mailboxes folder_id).at s (q expired)
              (rw (restart, expired, had) at h))
      | inr fresh ↦ rw (restart, expired, fresh) (q expired)
    ]
  ]

  sync_folder-Settles :
      (fuel : ℕ) (mailboxes : List (String × Mailbox)) (folder_id : String)
      (found : Option MailSyncCursor)
      → Settles is_expired IsCounted (sync_folder env fuel mailboxes folder_id found)
  unfolding sync_folder
  sync_folder-Settles fuel mailboxes folder_id found =
      Settles-try (delta_pages env fuel mailboxes folder_id (start_link found))
        (restart env fuel mailboxes folder_id found)
        (delta_pages-Settles fuel mailboxes folder_id (start_link found))
        (restart-IsCounted fuel mailboxes folder_id found)

  pub sync_folders-Settles :
      (fuel : ℕ) (mailboxes : List (String × Mailbox)) (fs : List Folder) (had_cursor : Bool)
      → Settles is_expired IsCounted (sync_folders env fuel mailboxes fs had_cursor)
  unfolding sync_folders
  sync_folders-Settles fuel mailboxes [] had_cursor = Settles-pure had_cursor
  sync_folders-Settles fuel mailboxes (f ∷ rest) had_cursor = record {
    at = λ s q h.
        let found = cursor s.store.object.tenant_id s.store.object.id (folder_key f.id) s.db in
        (Settles-then (sync_folder env fuel mailboxes f.id found) _
            (sync_folder-Settles fuel mailboxes f.id found)
            (λ _.
              sync_folders-Settles fuel mailboxes rest
                (if had_cursor then true else is_some found))).at
          s q h;
  }
