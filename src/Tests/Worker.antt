-- ===== src/Tests/Worker.antt =====
-- Tokens, an import over IMAP and deliveries at concrete inputs.
use mail_control.Base.{◌≡◌, ◌≢◌, ◌⊎◌, String, true, false, none, some, [], ◌∷◌, refl, ap, same}
use mail_control.Base.Exec.{Result, ok}
use mail_control.Mail.Account.{MailAccount, flush, update_account_if_current}
use mail_control.Mail.TokenManager.{OAuthTokens, Cipher, access_token}
use mail_control.Mail.TokenManager.Answer.{
  IsStored, IsRenewed, IsUnwritten, access_token_answer, overtaken_refresh_writes_nothing,
}
use mail_control.Mail.Gmail.Client.{Fault}
use mail_control.Mail.Gmail.Imap.{ImapClient}
use mail_control.System.Redis.{sync_lock, exists}
use mail_control.Mail.Account.{gmail}
use mail_control.System.Worker.{RedisFaults, Message, WorkerState, Surroundings, handler}
use mail_control.System.Worker.Deliveries.{is_final, redelivered_is_settled, handler_frees_lock}
use mail_control.Tests.Mail.{granted, store}
use mail_control.Tests.Gmail.{env, input, receipt}
use mail_control.Tests.System.{print, telegram, up, quiet}

abbrev pub cipher : Cipher
cipher = record { encrypt = λ s. s; decrypt = λ s. some s; decrypt-encrypt = λ s. refl }

abbrev oauth : String → Result Fault OAuthTokens
oauth grant = ok (record { access_token = "next"; expires_at = 4000; refresh_token = none })

renews : (access_token cipher oauth (λ r. r) 1000 true none store).0 ≡ ok "next"
unfolding access_token flush update_account_if_current
renews = refl

access_token_answer_example :
    let after = (access_token cipher oauth (λ r. r) 1000 true none store).1.row in
    IsStored cipher oauth (λ r. r) 1000 none "next" (flush store).row after
    ⊎ IsRenewed cipher oauth (λ r. r) 1000 "next" (flush store).row after
access_token_answer_example =
    access_token_answer cipher oauth (λ r. r) 1000 true none store "next" renews

-- The user connects the account again while the provider is asked.
abbrev reconnect : MailAccount → MailAccount
reconnect r = record r { auth = record granted { encrypted_refresh_token = "newer" } }

differs :
    (flush store).row.encrypted_refresh_token
    ≢ (reconnect (flush store).row).encrypted_refresh_token
unfolding flush
differs h = let e : false ≡ true = ap (λ s. same s "newer") h in absurd (cc)

overtaken_refresh_writes_nothing_example :
    IsUnwritten cipher oauth reconnect 1000
      (flush store).row
      (access_token cipher oauth reconnect 1000 true none store).1.row
overtaken_refresh_writes_nothing_example =
    overtaken_refresh_writes_nothing cipher oauth reconnect 1000 none store differs

abbrev imap : ImapClient
imap = record { messages = λ n cursor. ok (receipt ∷ [], some "12"); parse = λ s. some 11 }

abbrev pub no_faults : RedisFaults
no_faults = record {
  lock_raises = false;
  exists_raises = false;
  set_raises = false;
  release_raises = false;
}

abbrev surroundings : Surroundings
surroundings = record {
  print = print;
  alert_settings = telegram;
  network = up;
  faults = no_faults;
  env = env;
  imap = imap;
  cipher = cipher;
  oauth = oauth;
  oauth_world = λ r. r;
  oauth_lock = true;
  fuel = 3;
  lock_token = "worker";
  now = 1000;
  failed_at = 1010;
  released_at = 1020;
}

abbrev message : Message
message = record {
  reads_account = true;
  reads_tenant = true;
  tenant_id = 3;
  mail_account_id = 5;
  redelivered = true;
}

abbrev worker : WorkerState
worker = record { db = input.db; store = store; alerts = quiet }

redelivered_is_settled_example : is_final (handler surroundings message worker).0 ≡ true
redelivered_is_settled_example = redelivered_is_settled surroundings message worker refl refl refl

handler_frees_lock_example :
    exists (handler surroundings message worker).1.alerts.redis 1020 (sync_lock gmail 5) ≡ false
handler_frees_lock_example = handler_frees_lock surroundings message worker refl refl refl refl
