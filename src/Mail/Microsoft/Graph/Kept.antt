-- ===== src/Mail/Microsoft/Graph/Kept.antt =====
-- The calls of the Graph client write no table; they only write the account.
use mail_control.Base.{ℕ, ◌+◌, String, Option, none, some, List, [], ◌∷◌, Bool-cases, inl, inr}
use mail_control.Identity.Tokens.{append_text}
use mail_control.Base.Exec.{Result, ok, err, Result-cases}
use mail_control.Base.Exec.Keeps.{Keeps, Keeps-then, Keeps-pure}
use mail_control.Mail.TokenManager.{renew}
use mail_control.Mail.Messages.{Mailbox}
use mail_control.Mail.Gmail.Client.{SyncState}
use mail_control.Mail.Microsoft.Graph.{
  Env, Fault, Folder, DeltaPage, ask, or_fault, request, folders, or_expired, delta, delta_link,
  is_gone, on_folder, well_known, known_folders, or_known, folder_mailboxes, is_missing,
}

-- The predicate holds whatever a call does to the account and to the number of calls.
pub record IsAsked (env : Env) (P : SyncState → Type 0) : Type 0 where
  pub asked :
      (s : SyncState)
      → P s
      → P (record s {
        calls = s.calls + 1;
        store =
            renew (env.renewal s.calls) (record s.store { row = env.world s.calls s.store.row });
      })

module _ (env : Env) (P : SyncState → Type 0) (kept : IsAsked env P) where
  pub request-Keeps : {A : Type 0} (call : ℕ → Result Fault A) → Keeps P (request env call)
  unfolding request ask
  request-Keeps call = record {
    at = λ s h. elim (Result-cases (ask env call s).0) [
      | inl (a, e) ↦ rw (e, or_fault) (kept.asked s h)
      | inr (x, e) ↦ rw (e, or_fault) (kept.asked s h)
    ];
  }

  pub folders-Keeps : (link : Option String) → Keeps P (folders env link)
  unfolding folders
  folders-Keeps link = request-Keeps _

  or_expired-Keeps : (r : Result Fault DeltaPage) → Keeps P (or_expired env r)
  unfolding or_expired
  or_expired-Keeps (ok page) = Keeps-pure page
  or_expired-Keeps (err f) = record {
    at = λ s h. elim (Bool-cases (is_gone f.kind)) [ inl e ↦ rw e h | inr e ↦ rw e h ];
  }

  pub delta-Keeps :
      (folder_id : String) (cursor : Option String) → Keeps P (delta env folder_id cursor)
  unfolding delta ask
  delta-Keeps folder_id cursor =
      let call = λ (n : ℕ). env.graph.get_delta n (delta_link env folder_id cursor) in
      record {
        at = λ s h. (or_expired-Keeps (ask env call s).0).at (ask env call s).1 (kept.asked s h);
      }

  on_folder-Keeps :
      (mailbox : Mailbox) (result : List (String × Mailbox)) (r : Result Fault Folder)
      → Keeps P (on_folder env mailbox result r)
  unfolding on_folder
  on_folder-Keeps mailbox result (ok folder) = Keeps-pure _
  on_folder-Keeps mailbox result (err f) = record {
    at = λ s h. elim (Bool-cases (is_missing f.kind)) [ inl e ↦ rw e h | inr e ↦ rw e h ];
  }

  known_folders-Keeps :
      (names result : List (String × Mailbox)) → Keeps P (known_folders env names result)
  unfolding known_folders ask
  known_folders-Keeps [] result = Keeps-pure result
  known_folders-Keeps ((name, mailbox) ∷ rest) result =
      Keeps-then _ (known_folders env rest)
        (record {
          at = λ s h.
              (on_folder-Keeps mailbox result
                  (env.graph.get_folder s.calls (append_text "/me/mailFolders/" name))).at
                _ (kept.asked s h);
        })
        (λ found. known_folders-Keeps rest found)

  or_known-Keeps : (cached : Option (List (String × Mailbox))) → Keeps P (or_known env cached)
  unfolding or_known
  or_known-Keeps (some cached) = Keeps-pure cached
  or_known-Keeps none = known_folders-Keeps well_known []

  pub folder_mailboxes-Keeps : Keeps P (folder_mailboxes env)
  unfolding folder_mailboxes
  folder_mailboxes-Keeps = record { at = λ s h. (or_known-Keeps (env.cached s.calls)).at s h }
