-- ===== src/Mail/Push/Watch.antt =====
-- The renewal of Gmail watches: modules/mail/gmail_push.py. The calls of Telegram are listed, not made.
pub mod Renewed
use mail_control.Base.{
  ℕ, ◌+◌, ◌*◌, String, Bool, true, false, ◌&&◌, ◌||◌, not, Option, none, some, List, [], ◌∷◌, leb,
  is_none, if◌then◌else◌, truthy, truthy_opt, or_else, clip,
}
use mail_control.Base.Exec.{Result, ok, err}
use mail_control.Identity.Tokens.{append_text}
use mail_control.Mail.Account.{
  MailAccount, MailProvider, gmail, microsoft, AccountStatus, connected, Store, ProviderError,
  mark_reauth_if_current,
}

-- A row of `gmail_watch_states`.
pub record GmailWatchState : Type 0 where
  pub tenant_id : ℕ
  pub mail_account_id : ℕ
  pub history_id : Option String
  pub expiration_at : Option ℕ
  pub renewed_at : Option ℕ
  pub status : String
  pub last_error : Option String

-- The answer of `client.watch`; `expiration` is the text or number of its key.
pub record WatchAnswer : Type 0 where
  pub history_id : Option String
  pub expiration : Option String

pub data WatchFault : Type 0 where
  superseded : WatchFault
  reauth : ProviderError → WatchFault
  other_fault : String → WatchFault

-- `client_for` is `provider_client`: whether its client is one of the Gmail API. `from_millis` is the
-- time of an expiration, and `none` where it is no time.
pub record Renewal : Type 0 where
  pub now : ℕ
  pub topic : String
  pub renewal_seconds : ℕ
  pub client_for : MailAccount → Result WatchFault Bool
  pub watch : MailAccount → Result WatchFault WatchAnswer
  pub from_millis : String → Option ℕ

pub data Notice : Type 0 where
  recovered : Notice
  issue : String → Notice

abbrev new_state : MailAccount → String → GmailWatchState
new_state a status = record {
  tenant_id = a.tenant_id;
  mail_account_id = a.id;
  history_id = none;
  expiration_at = none;
  renewed_at = none;
  status = status;
  last_error = none;
}

abbrev pub state_or_new : MailAccount → Option GmailWatchState → GmailWatchState
state_or_new a none = new_state a "pending"
state_or_new a (some w) = w

-- A row of the loop, after its round.
pub record Row : Type 0 where
  pub store : Store
  pub state : Option GmailWatchState
  pub notices : List Notice
  pub is_renewed : Bool

module _ (env : Renewal) where
  -- `watch_expiration`
  abbrev pub watch_expiration : Option String → Option ℕ
  watch_expiration none = none
  watch_expiration (some value) = env.from_millis value

  abbrev truthy_text : Option String → Option String
  truthy_text o = if truthy_opt o then o else none

  abbrev pub registered : GmailWatchState → WatchAnswer → GmailWatchState
  registered w r = record w {
    history_id = truthy_text r.history_id;
    expiration_at = watch_expiration r.expiration;
    renewed_at = some env.now;
    status = "active";
    last_error = none;
  }

  on_answer :
      MailAccount
      → Option GmailWatchState
      → Result WatchFault WatchAnswer
      → Result WatchFault GmailWatchState
  on_answer a state (err f) = err f
  on_answer a state (ok r) = ok (registered (state_or_new a state) r)

  on_client :
      MailAccount
      → Option GmailWatchState
      → Result WatchFault Bool
      → Result WatchFault GmailWatchState
  unfolding on_answer
  on_client a state (err f) = err f
  on_client a state (ok is_api) =
      if is_api
      then on_answer a state (env.watch a)
      else err (other_fault "Gmail watch requires a Gmail connection")

  -- `renew_gmail_watch`; the row that it was given is written only at its end.
  unfoldable pub renew_gmail_watch :
      MailAccount → Option GmailWatchState → Result WatchFault GmailWatchState
  unfolding on_client
  renew_gmail_watch a state =
      if truthy env.topic
      then on_client a state (env.client_for a)
      else err (other_fault "Gmail Pub/Sub topic is not configured")

  abbrev is_due_account : MailAccount → Bool
  is_due_account a = elim a.provider [
    | microsoft ↦ false
    | gmail ↦ elim a.status [ connected ↦ true | _ ↦ false ]
  ]

  abbrev is_due_state : Option GmailWatchState → Bool
  is_due_state none = true
  is_due_state (some w) =
      is_none w.expiration_at || leb (or_else w.expiration_at 0) (env.now + env.renewal_seconds)

  -- The WHERE clause.
  abbrev pub is_due : MailAccount → Option GmailWatchState → Bool
  is_due a state = is_due_account a && is_due_state state

  abbrev marked : MailAccount → Option GmailWatchState → String → String → Option GmailWatchState
  marked a state status message =
      some (record (state_or_new a state) { status = status; last_error = some message })

  -- The `except` clauses.
  on_fault : WatchFault → Store → Option GmailWatchState → Row
  on_fault superseded store state = record {
    store = store;
    state = state;
    notices = [];
    is_renewed = false;
  }
  on_fault (reauth e) store state =
      let (store', applied) = mark_reauth_if_current store e in
      if applied
      then record {
        store = store';
        state = marked store.object state "reauth_required" e.message;
        notices = issue e.message ∷ [];
        is_renewed = false;
      }
      else record { store = store'; state = state; notices = []; is_renewed = false }
  on_fault (other_fault message) store state = record {
    store = store;
    state = marked store.object state "error" (clip 2000 message);
    notices = issue (append_text "Gmail watch renewal failed: " message) ∷ [];
    is_renewed = false;
  }

  -- One round of the loop.
  unfoldable pub renew_row : Store → Option GmailWatchState → Row
  unfolding on_fault
  renew_row store state = elim (renew_gmail_watch store.object state) [
    | ok w ↦ record { store = store; state = some w; notices = recovered ∷ []; is_renewed = true }
    | err f ↦ on_fault f store state
  ]

  -- The loop of `renew_due_gmail_watches`, where watches are enabled: the rows that are due, after
  -- their rounds.
  pub renew_due : List (Store × Option GmailWatchState) → List Row
  unfolding renew_row
  renew_due [] = []
  renew_due ((store, state) ∷ rest) =
      let later = renew_due rest in
      if is_due store.object state then renew_row store state ∷ later else later
