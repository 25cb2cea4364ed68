-- ===== src/Mail/Microsoft/Graph.antt =====
-- The calls of `MicrosoftGraphClient` (modules/mail/microsoft.py) that a synchronization makes, on
-- what `get` answers: a function of the number of the call, so that the mailbox may change.
pub mod Kept
pub mod Ends
use mail_control.Base.{
  ℕ, ◌+◌, String, Bool, true, false, ◌||◌, Option, none, some, List, [], ◌∷◌, ◌==◌, if◌then◌else◌,
  truthy, truthy_opt, or_else,
}
use mail_control.Identity.Tokens.{append_text}
use mail_control.Base.Exec.{Result, ok, err, Exec, pure, raise, ◌>>=◌}
use mail_control.Mail.Account.{MailAccount, ProviderError, Store}
use mail_control.Mail.TokenManager.{Renewal, renew}
use mail_control.Mail.Messages.{Mailbox, inbox, sent, drafts, trash, spam, archive}
use mail_control.Mail.Gmail.Client.{SyncState}
use mail_control.Mail.Microsoft.Values.{GraphMessage}

-- What `get` may raise: an HTTPStatusError with its status, a transient error, a refused grant, an
-- account that has changed, another error.
pub data FaultKind : Type 0 where
  http_status : ℕ → FaultKind
  transient reauth superseded other_fault : FaultKind

-- `retry_at` is the time that a transient error carries.
pub record Fault : Type 0 where
  pub kind : FaultKind
  pub error : ProviderError
  pub retry_at : Option ℕ

pub record Folder : Type 0 where
  pub id : String
  pub child_folder_count : ℕ

pub record FolderPage : Type 0 where
  pub value : List Folder
  pub next_link : Option String

pub record DeltaPage : Type 0 where
  pub value : List GraphMessage
  pub next_link : Option String
  pub delta_link : Option String

-- `get` of a path or a link, by what its JSON answer is read as.
pub record Graph : Type 0 where
  pub get_folders : ℕ → String → Result Fault FolderPage
  pub get_folder : ℕ → String → Result Fault Folder
  pub get_delta : ℕ → String → Result Fault DeltaPage
  pub get_message : ℕ → String → Result Fault GraphMessage

-- `cached` is what the folder cache answers; `none` stands for no cache, an error, and no answer of
-- the right form. `world n` is what other transactions did to the account's row before the n-th
-- call, `renewal n` whether the client then asked its callback for a new token, which refreshes and
-- writes the session's account, and `clock n` the time after the call. The answers are any, so that
-- they may be the error that the callback raises.
pub record Env : Type 0 where
  pub graph : Graph
  pub cached : ℕ → Option (List (String × Mailbox))
  pub from_iso : String → ℕ
  pub world : ℕ → MailAccount → MailAccount
  pub renewal : ℕ → Option (Renewal Fault)
  pub clock : ℕ → ℕ

-- `delta_expired` is raised by `delta`; `out_of_fuel` stands for a loop that has not ended.
pub data SyncError : Type 0 where
  fault : Fault → SyncError
  delta_expired : Fault → SyncError
  authorization_changed : String → SyncError
  runtime_error : String → SyncError
  value_error : String → SyncError
  out_of_fuel : SyncError

abbrev pub Sync : Type 0 → Type 0
Sync A = Exec SyncError SyncState A

abbrev pub folders_path : String
folders_path = "/me/mailFolders"

abbrev is_gone : FaultKind → Bool
is_gone (http_status code) = code == 404 || code == 410
is_gone _ = false

-- `error.response.status_code != 404`, on an HTTPStatusError.
abbrev pub is_missing : FaultKind → Bool
is_missing (http_status code) = code == 404
is_missing _ = false

-- `f"/me/mailFolders/{folder_id}/messages/delta"`
abbrev delta_path : String → String
delta_path folder_id = append_text "/me/mailFolders/" (append_text folder_id "/messages/delta")

abbrev pub child_path : String → String
child_path folder_id =
    append_text "/me/mailFolders/"
      (append_text folder_id "/childFolders?includeHiddenFolders=true&$top=100")

abbrev well_known : List (String × Mailbox)
well_known =
    ("inbox", inbox)
    ∷ ("sentitems", sent)
    ∷ ("drafts", drafts)
    ∷ ("deleteditems", trash)
    ∷ ("junkemail", spam)
    ∷ ("archive", archive)
    ∷ []

module _ (env : Env) where
  -- A call: other transactions may have changed the account's row meanwhile, and the client's
  -- callback the session's account.
  unfoldable pub ask : {A : Type 0} → (ℕ → Result Fault A) → SyncState → Result Fault A × SyncState
  ask call s = (
    call s.calls,
    record s {
      calls = s.calls + 1;
      store = renew (env.renewal s.calls) (record s.store { row = env.world s.calls s.store.row });
    },
  )

  or_fault : {A : Type 0} → Result Fault A → Sync A
  or_fault (ok a) = pure a
  or_fault (err f) = raise (fault f)

  -- A call whose errors are not caught.
  pub request : {A : Type 0} → (ℕ → Result Fault A) → Sync A
  unfolding ask or_fault
  request call s = let (r, s') = ask call s in or_fault r s'

  abbrev pub folders_link : Option String → String
  folders_link next_link =
      if truthy_opt next_link then or_else next_link String.[] else folders_path

  -- `folders`
  unfoldable pub folders : Option String → Sync FolderPage
  unfolding request
  folders next_link = request (λ n. env.graph.get_folders n (folders_link next_link))

  or_expired : Result Fault DeltaPage → Sync DeltaPage
  or_expired (ok page) = pure page
  or_expired (err f) = if is_gone f.kind then raise (delta_expired f) else raise (fault f)

  unfoldable pub delta_link : String → Option String → String
  delta_link folder_id none = delta_path folder_id
  delta_link folder_id (some cursor) = if truthy cursor then cursor else delta_path folder_id

  -- `delta`
  pub delta : String → Option String → Sync DeltaPage
  unfolding ask or_expired delta_link
  delta folder_id cursor s =
      let (r, s') = ask (λ n. env.graph.get_delta n (delta_link folder_id cursor)) s in
      or_expired r s'

  on_folder :
      Mailbox → List (String × Mailbox) → Result Fault Folder → Sync (List (String × Mailbox))
  on_folder mailbox result (ok folder) = pure ((folder.id, mailbox) ∷ result)
  on_folder mailbox result (err f) = if is_missing f.kind then pure result else raise (fault f)

  -- The loop over the well-known names; what is written last stands first.
  known_folders : List (String × Mailbox) → List (String × Mailbox) → Sync (List (String × Mailbox))
  unfolding ask on_folder
  known_folders [] result = pure result
  known_folders ((name, mailbox) ∷ rest) result =
      (λ s.
        let (r, s') = ask (λ n. env.graph.get_folder n (append_text "/me/mailFolders/" name)) s in
        on_folder mailbox result r s')
      >>= known_folders rest

  or_known : Option (List (String × Mailbox)) → Sync (List (String × Mailbox))
  unfolding known_folders
  or_known (some cached) = pure cached
  or_known none = known_folders well_known []

  -- `folder_mailboxes`; the answer that it writes to the cache is left out.
  pub folder_mailboxes : Sync (List (String × Mailbox))
  unfolding or_known
  folder_mailboxes s = or_known (env.cached s.calls) s
