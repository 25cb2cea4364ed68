-- ===== src/Tests/Connection.antt =====
-- Consents for accounts at concrete inputs.
use mail_control.Analysis.Texts.{starts_with}
use mail_control.Base.{ap, ◌≡◌, refl, String, Option, none, some, [], ◌∷◌, arith, All}
use mail_control.Base.Exec.{ok}
use mail_control.Identity.Tokens.{append_text}
use mail_control.Mail.Account.{no_values, syncing}
use mail_control.Mail.Account.Fence.{state, presents, perform_all}
use mail_control.Mail.Connection.{
  Fernet, AccountRow, AccountDb, ConsentTokens, Consent, google, key_of, connect, renewed_grant,
  renewed_row, token_grant,
}
use mail_control.Mail.Connection.Written.{Outcome}
use mail_control.Mail.Connection.Consents.{IsForeign, connect-Outcome, consent_supersedes}
use mail_control.Tests.Identity.{text}
use mail_control.Tests.Mail.{account, tracked}

-- A ciphertext is a mark and the text; the calls of these methods mark with an exclamation mark.
abbrev opened : String → Option String
opened String.[] = none
opened (String.◌∷◌ c s) = some s

abbrev fernet : Fernet
fernet = record { encrypt = λ n s. append_text "!" s; decrypt = opened }

abbrev row : AccountRow
row = record {
  connected_by_user_id = 7;
  provider_account_id = "ana@example.com";
  account = account;
}

abbrev db : AccountDb
db = record { accounts = row ∷ []; next_id = 9 }

abbrev tokens : ConsentTokens
tokens = record {
  access_token = "access";
  refresh_token = none;
  expires_at = 4000;
  scopes = "mail" ∷ [];
}

abbrev again : Consent
again = google 3 7 "ana@example.com" tokens

abbrev renewed : AccountRow
renewed =
    renewed_row text fernet 500 "ana@example.com" none "!rant" (token_grant text fernet 500 tokens)
      row

accepts : (connect text fernet 500 again db).0 ≡ ok renewed
unfolding connect renewed_grant
accepts = refl

older :
    All
      (IsForeign text fernet 500)
      ((tracked, state (record no_values { new_status = some syncing }) none) ∷ [])
unfolding presents
older = (λ s p. absurd (ground (arith, ap (starts_with "!") p)), tt)

connect-Outcome_example :
    Outcome fernet (key_of text fernet 500 again) db (connect text fernet 500 again db)
connect-Outcome_example = connect-Outcome text fernet 500 again db

consent_supersedes_example :
    perform_all renewed.account
      ((tracked, state (record no_values { new_status = some syncing }) none) ∷ [])
    ≡ renewed.account
consent_supersedes_example =
    consent_supersedes text fernet 500 again db renewed
      ((tracked, state (record no_values { new_status = some syncing }) none) ∷ []) accepts older
