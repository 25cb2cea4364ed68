-- ===== src/Mail/Connection/Consents.antt =====
-- What a consent does to the accounts, and to writes under another grant: modules/mail/service.py.
use mail_control.Base.{ℕ, ◌≡◌, ◌≢◌, refl, String, List, [], ◌∷◌, arith, inr, ◌∙◌, sym, All, subst}
use mail_control.Base.Exec.{Result, ok, err}
use mail_control.Identity.Models.{TextOps}
use mail_control.Mail.Account.{MailAccount, Tracked}
use mail_control.Mail.Account.Fence.{
  Request, presents, perform_all, IsSuperseded, perform_all_superseded,
}
use mail_control.Mail.Connection.{
  Fernet, AccountRow, AccountDb, AccountKey, ConnectError, Consent, key_of, connect, connect_all,
}
use mail_control.Mail.Connection.Rows.{AccountsAreUnique}
use mail_control.Mail.Connection.Written.{Outcome, on_account-Outcome}

module _ (ops : TextOps) (cipher : Fernet) (now : ℕ) where
  -- A consent that is refused changes nothing. One that is accepted leaves the row that it returns as
  -- the row of its account, connected and without an error, under a grant that was encrypted for it;
  -- the rows of other accounts are as before, and no account gets a second row.
  pub connect-Outcome :
      (c : Consent) (db : AccountDb)
      → Outcome cipher (key_of ops cipher now c) db (connect ops cipher now c db)
  unfolding connect
  connect-Outcome c db = on_account-Outcome ops cipher now c _ db refl

  outcome_unique :
      (k : AccountKey) (db : AccountDb) (q : Result ConnectError AccountRow × AccountDb)
      → Outcome cipher k db q
      → AccountsAreUnique db.accounts
      → AccountsAreUnique q.1.accounts
  unfolding Outcome
  outcome_unique k db (err e, db') h u = subst (λ d. AccountsAreUnique d.accounts) (sym h) u
  outcome_unique k db (ok row, db') h u = h.unique u

  -- Whatever consents are given, in whatever order, no account of a provider is connected twice to a
  -- workspace.
  connect_all-AccountsAreUnique :
      (cs : List Consent) (db : AccountDb)
      → AccountsAreUnique db.accounts
      → AccountsAreUnique (connect_all ops cipher now cs db).accounts
  unfolding connect_all
  connect_all-AccountsAreUnique [] db u = u
  connect_all-AccountsAreUnique (c ∷ cs) db u =
      connect_all-AccountsAreUnique cs (connect ops cipher now c db).1 (
        outcome_unique (key_of ops cipher now c) db (connect ops cipher now c db)
          (connect-Outcome c db) u)

  -- The write does not present the grant of this consent: no text that this encryption can give.
  abbrev pub IsForeign : Tracked × Request → Type 0
  IsForeign (t, q) = (s : String) → presents t q ≢ cipher.encrypt 0 s

  foreign-IsSuperseded :
      (r : MailAccount) (secret : String)
      → r.encrypted_refresh_token ≡ cipher.encrypt 0 secret
      → (ws : List (Tracked × Request)) → All IsForeign ws
      → All (IsSuperseded r) ws
  foreign-IsSuperseded r secret e [] h = tt
  foreign-IsSuperseded r secret e ((t, q) ∷ ws) h =
      (inr (λ p. h.0 secret (p ∙ e)), foreign-IsSuperseded r secret e ws h.1)

  outcome_supersedes :
      (k : AccountKey) (db : AccountDb) (q : Result ConnectError AccountRow × AccountDb)
      (row : AccountRow)
      → Outcome cipher k db q
      → q.0 ≡ ok row
      → (s : String) × (row.account.encrypted_refresh_token ≡ cipher.encrypt 0 s)
  unfolding Outcome
  outcome_supersedes k db (err e, db') row h p = absurd (ground (arith, p))
  outcome_supersedes k db (ok r, db') row h p =
      let e : r ≡ row = ground (arith, p) in
      subst
        (λ (x : AccountRow).
          (s : String) × (x.account.encrypted_refresh_token ≡ cipher.encrypt 0 s))
        e h.grant

  -- After a consent, conditional writes that present another grant than the one that it encrypted
  -- leave the account's row as the consent left it, in whatever order they take effect, also where the
  -- provider gave no new grant and the old one was encrypted again.
  pub consent_supersedes :
      (c : Consent) (db : AccountDb) (row : AccountRow) (ws : List (Tracked × Request))
      → (connect ops cipher now c db).0 ≡ ok row
      → All IsForeign ws
      → perform_all row.account ws ≡ row.account
  consent_supersedes c db row ws p h =
      let (secret, e) =
        outcome_supersedes (key_of ops cipher now c) db (connect ops cipher now c db) row
          (connect-Outcome c db) p in
      perform_all_superseded row.account ws (foreign-IsSuperseded row.account secret e ws h)
