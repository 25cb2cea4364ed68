-- ===== src/Tests/Gmail.antt =====
-- A synchronization, and the requests of both providers, at concrete inputs.
use mail_control.Base.{
  subst, truthy_opt, ◌≢◌, arith, ℕ, ◌+◌, ◌≡◌, ◌≤◌, String, true, Option, none, some, [], ◌∷◌, refl,
  arith, ◌==◌, if◌then◌else◌, length, all, is_some,
}
use mail_control.Base.Exec.{Result, ok, err}
use mail_control.Mail.Account.{update_account_state, syncing}
use mail_control.Mail.Http.{Response, Reply, answered}
use mail_control.Mail.Gmail.Values.{GmailMessage}
use mail_control.Mail.Gmail.Client.{Page, HistoryPage, Env, out_of_fuel}
use mail_control.Mail.Gmail.Request.{Outcome, Loop, request_loop, first_loop}
use mail_control.Mail.Gmail.Request.Bounds.{request_ends}
use mail_control.Mail.Gmail.Sync.Sound.{HasSoundState}
use mail_control.Mail.Gmail.Synchronize.{SyncInput, synchronize, status_values}
use mail_control.Mail.Gmail.Sync.Pages.{PagesEnd}
use mail_control.Mail.Gmail.Synchronize.Ends.{synchronize_ends}
use mail_control.Mail.Gmail.Synchronize.Tables.{synchronize_sound}
use mail_control.Mail.Gmail.Synchronize.Outcome.{HasEnded, synchronize_outcome}
use mail_control.Mail.Microsoft.Request.{request, Url, is_foreign, refused_origin}
use mail_control.Mail.Microsoft.Request.Bounds.{is_home, is_short, request_bounded}
use mail_control.Tests.Mail.{store}

abbrev answer : ℕ → Response
answer status = record {
  status_code = status;
  reasons = [];
  header_deadline = none;
  text_deadline = none;
  header_delay = none;
  content = "body";
  is_json = true;
}

-- The token has expired, then the service is down, then it answers.
abbrev replies : ℕ → Reply
replies n = answered (answer (if n == 0 then 401 else if n == 1 then 503 else 200))

abbrev refresh : Option (String → Result String String)
refresh = some (λ t. ok "new")

request_ends_example :
    (r : Outcome String × Loop) × (request_loop replies refresh
        (λ n. n)
        (λ n. 100)
        5
        (first_loop "old")
      ≡ some r)
    × (length r.1.sent ≤ 5)
request_ends_example = request_ends replies refresh (λ n. n) (λ n. 100) "old"

abbrev messages_url : Url
messages_url = record { scheme = ""; netloc = ""; path = "/me/messages" }

request_bounded_example :
    let (o, s) =
      request replies refresh
        (λ n. 100)
        messages_url
        (mail_control.Mail.Microsoft.Request.first_loop "old") in
    (length s.sent ≤ 5)
    × (all is_home s.sent ≡ true)
    × (all is_short s.slept ≡ true)
    × (is_foreign messages_url ≡ true → (o ≡ refused_origin) × (s.sent ≡ []))
request_bounded_example = request_bounded replies refresh (λ n. 100) messages_url "old"

abbrev pub receipt : GmailMessage
receipt = record {
  id = "m1";
  thread_id = none;
  history_id = some "41";
  headers = ("subject", "Receipt") ∷ [];
  internal_date = some 50;
  label_ids = "INBOX" ∷ "UNREAD" ∷ [];
  snippet = none;
  size_estimate = none;
  payload = "{}";
}

-- A mailbox of one message on one page, and no change since.
abbrev pub env : Env
env = record {
  ops = record { casefold = λ s. s; parse_date = λ s. none };
  client = record {
    profile = λ n. ok (some "40");
    list_messages = λ n token. ok (record { message_ids = "m1" ∷ []; next_page_token = none });
    get_message = λ n id. ok receipt;
    history = λ n start token.
        ok (record { history = []; next_page_token = none; history_id = some "42" });
  };
  world = λ n row. row;
  renewal = λ n. none;
  clock = λ n. 100 + n;
}

abbrev pub input : SyncInput
input = record {
  db = record { messages = []; outbox = []; cursors = []; next_id = 1 };
  store = store;
  started_at = 99;
  calls = 0;
}

synchronize_sound_example : HasSoundState (synchronize env 3 input).1
synchronize_sound_example =
    synchronize_sound env 3 input (λ a i. omega arith) tt (λ id. omega arith)

begins : (update_account_state store (status_values syncing) none).1 ≡ true
unfolding update_account_state
begins = refl

synchronize_outcome_example :
    let (r, s) = synchronize env 3 input in
    HasEnded r s.run s.store.row × (is_some s.run.finished_at ≡ true)
synchronize_outcome_example = synchronize_outcome env 3 input refl begins

-- Two pages of the listing and two of the history.
abbrev paged : Env
paged = record env {
  client = record env.client {
    list_messages = λ n token. elim token [
      | none ↦ ok (record { message_ids = "m1" ∷ []; next_page_token = some "second" })
      | some t ↦ ok (record { message_ids = "m2" ∷ []; next_page_token = none })
    ];
    history = λ n start token. elim token [
      | none ↦ ok (record { history = []; next_page_token = some "second"; history_id = some "42" })
      | some t ↦ ok (record { history = []; next_page_token = none; history_id = some "43" })
    ];
  };
}

abbrev pages_left : Option String → ℕ
pages_left none = 1
pages_left (some t) = 0

abbrev IsDown : Option String → Option String → Type 0
IsDown token next = truthy_opt next ≡ true → pages_left next + 1 ≤ pages_left token

listing-IsDown :
    (n : ℕ) (token : Option String) (page : Page)
    → paged.client.list_messages n token ≡ ok page
    → IsDown token page.next_page_token
listing-IsDown n none page h =
    let e : some "second" ≡ page.next_page_token = ground (arith, h) in
    subst (IsDown none) e (λ next. omega arith)
listing-IsDown n (some t) page h = λ next. absurd (ground (arith, h, next))

history-IsDown :
    (n : ℕ) (start : String) (token : Option String) (page : HistoryPage)
    → paged.client.history n start token ≡ ok page
    → IsDown token page.next_page_token
history-IsDown n start none page h =
    let e : some "second" ≡ page.next_page_token = ground (arith, h) in
    subst (IsDown none) e (λ next. omega arith)
history-IsDown n start (some t) page h = λ next. absurd (ground (arith, h, next))

pages : PagesEnd paged 2 pages_left (λ start. pages_left)
pages = record {
  messages = listing-IsDown;
  history = history-IsDown;
  listing_fits = omega arith;
  history_fits = λ start. omega arith;
}

synchronize_ends_example : (synchronize paged 2 input).0 ≢ err out_of_fuel
synchronize_ends_example = synchronize_ends paged 2 pages_left (λ start. pages_left) pages input
