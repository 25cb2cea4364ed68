-- ===== src/Mail/Connection/Written.antt =====
-- What one call of `MailAccountService` (modules/mail/service.py) does to the accounts.
use mail_control.Base.{
  ℕ, ◌+◌, ◌≡◌, refl, String, true, false, Option, none, some, [], ◌∷◌, ◌++◌, arith, same_self,
  ==_self, find_first, update_first, count_if-append, same, ◌==◌, ◌&&◌, count_if-find_first,
  find_first_passes, find_first-update_first, Option-cases, inl, inr, ◌∙◌, truthy_opt, or_else,
  Bool-cases,
}
use mail_control.Base.Exec.{Result, ok, err}
use mail_control.Identity.Models.{TextOps}
use mail_control.Mail.Account.{MailProvider, connected}
use mail_control.System.Redis.{same_provider}
use mail_control.Mail.Connection.{
  Fernet, AccountRow, AccountDb, AccountKey, has_key, ConnectError, Consent, google, imap, graph,
  sealed, renewed_grant, key_of, add_row, write_row, on_account, Grant, without_spaces, renewed_row,
  imap_grant,
}
use mail_control.Mail.Connection.Rows.{
  same_provider_self, find_added, find_new, count_same, count_rewritten, find_rewritten,
  AccountsAreUnique,
}

module _ (cipher : Fernet) where
  -- What a call that returns `row` has done to the tables.
  pub record IsWritten (k : AccountKey) (db : AccountDb) (row : AccountRow) (db' : AccountDb)
      : Type 0 where
    pub stored : find_first (has_key k) db'.accounts ≡ some row
    pub others :
        (l : AccountKey)
        → has_key l row ≡ false
        → find_first (has_key l) db'.accounts ≡ find_first (has_key l) db.accounts
    pub grant : (s : String) × (row.account.encrypted_refresh_token ≡ cipher.encrypt 0 s)
    pub status : row.account.status ≡ connected
    pub shown : row.account.last_error ≡ none
    pub unique : AccountsAreUnique db.accounts → AccountsAreUnique db'.accounts

  unfoldable pub Outcome :
      AccountKey → AccountDb → Result ConnectError AccountRow × AccountDb → Type 0
  Outcome k db (err e, db') = db' ≡ db
  Outcome k db (ok row, db') = IsWritten k db row db'

  abbrev IsSealed : String → Type 0
  IsSealed grant = (s : String) × (grant ≡ cipher.encrypt 0 s)

  -- The row that a call writes is of its key, connected, and holds the grant.
  record IsRowOf (k : AccountKey) (grant : String) (row : AccountRow) : Type 0 where
    own : has_key k row ≡ true
    holds : row.account.encrypted_refresh_token ≡ grant
    fine : (row.account.status ≡ connected) × (row.account.last_error ≡ none)

  rewritten-IsWritten :
      (k : AccountKey) (db : AccountDb) (old row : AccountRow) (grant : String)
      → find_first (has_key k) db.accounts ≡ some old
      → IsSealed grant
      → IsRowOf k grant row
      → IsWritten k db row
          (record db { accounts = update_first (has_key k) (λ r. row) db.accounts })
  rewritten-IsWritten k db old row grant found (s, e) h = record {
    stored = find_first-update_first (has_key k) (λ r. row) old db.accounts found h.own;
    others = λ l other. find_rewritten k l row h.own db.accounts other;
    grant = (s, h.holds ∙ e);
    status = h.fine.0;
    shown = h.fine.1;
    unique = λ u l. ground (arith, u l, count_rewritten k l row h.own db.accounts);
  }

  added-IsWritten :
      (k : AccountKey) (db : AccountDb) (row : AccountRow) (grant : String)
      → find_first (has_key k) db.accounts ≡ none
      → IsSealed grant
      → IsRowOf k grant row
      → IsWritten k db row (record { accounts = db.accounts ++ row ∷ []; next_id = db.next_id + 1 })
  added-IsWritten k db row grant free (s, e) h = record {
    stored = find_new k row db.accounts free h.own;
    others = λ l other. find_added l row db.accounts other;
    grant = (s, h.holds ∙ e);
    status = h.fine.0;
    shown = h.fine.1;
    unique = λ u l. elim (Bool-cases (has_key l row)) [
      | inl held ↦ ground (
        arith,
        held,
        count_if-append (has_key l) db.accounts (row ∷ []),
        count_same k l row h.own held db.accounts,
        count_if-find_first (has_key k) db.accounts free,
      )
      | inr other ↦ ground (arith, other, u l, count_if-append (has_key l) db.accounts (row ∷ []))
    ];
  }

self_key :
    (tenant : ℕ) (address : String) (p : MailProvider)
    → ((tenant == tenant) && same address address && same_provider p p) ≡ true
self_key tenant address p = ground (arith, ==_self tenant, same_self address, same_provider_self p)

module _ (ops : TextOps) (cipher : Fernet) (now : ℕ) where
  sealed-IsSealed :
      (token : Option String) (grant : String)
      → sealed ops cipher now token ≡ some grant
      → IsSealed cipher grant
  sealed-IsSealed token grant h = elim (Bool-cases (truthy_opt token)) [
    | inl given ↦ (or_else token String.[], ground (arith, h, given))
    | inr empty ↦ absurd (ground (arith, h, empty))
  ]

  renewed-IsSealed :
      (o : Option String) (old grant : String)
      → ((g : String) → o ≡ some g → IsSealed cipher g)
      → renewed_grant ops cipher now o old ≡ ok grant
      → IsSealed cipher grant
  unfolding renewed_grant
  renewed-IsSealed (some g) old grant h e = h grant (ground (arith, e))
  renewed-IsSealed none old grant h e = elim (Option-cases (cipher.decrypt old)) [
    | inl bad ↦ absurd (ground (arith, (rw (renewed_grant, bad) at e)))
    | inr (secret, held) ↦ (secret, ground (arith, (rw (renewed_grant, held) at e)))
  ]

  write-Outcome :
      (k : AccountKey) (db : AccountDb) (old : AccountRow) (row : String → AccountRow)
      (r : Result ConnectError String)
      → find_first (has_key k) db.accounts ≡ some old
      → ((grant : String) → r ≡ ok grant → IsSealed cipher grant)
      → ((grant : String) → IsRowOf cipher k grant (row grant))
      → Outcome cipher k db (write_row ops cipher now k row r db)
  unfolding write_row Outcome
  write-Outcome k db old row (err e) found s h = refl
  write-Outcome k db old row (ok grant) found s h =
      rewritten-IsWritten cipher k db old (row grant) grant found (s grant refl) (h grant)

  add-Outcome :
      (missing : String) (k : AccountKey) (user : ℕ) (email : String) (o : Option String)
      (g : Grant) (db : AccountDb)
      → find_first (has_key k) db.accounts ≡ none
      → ((grant : String) → o ≡ some grant → IsSealed cipher grant)
      → Outcome cipher k db (add_row ops cipher now missing k user email o g db)
  unfolding add_row Outcome
  add-Outcome missing k user email none g db free s = refl
  add-Outcome missing k user email (some grant) g db free s =
      added-IsWritten cipher k db _ grant free (s grant refl) (record {
        own = self_key k.tenant_id k.provider_account_id k.provider;
        holds = refl;
        fine = (refl, refl);
      })

  pub on_account-Outcome :
      (c : Consent) (found : Option AccountRow) (db : AccountDb)
      → find_first (has_key (key_of ops cipher now c)) db.accounts ≡ found
      → Outcome cipher (key_of ops cipher now c) db (on_account ops cipher now c found db)
  unfolding on_account
  on_account-Outcome (google tenant user address tokens) none db f =
      add-Outcome _ _ user _ _ _ db f (sealed-IsSealed tokens.refresh_token)
  on_account-Outcome (google tenant user address tokens) (some r) db f =
      write-Outcome _ db r _ _ f
        (λ grant.
          renewed-IsSealed _ r.account.encrypted_refresh_token grant
            (sealed-IsSealed tokens.refresh_token))
        (λ grant. record {
          own = find_first_passes (has_key _) r db.accounts f;
          holds = refl;
          fine = (refl, refl);
        })
  on_account-Outcome (imap tenant user address password) none db f =
      add-Outcome String.[] _ user _ (some (cipher.encrypt 0 (without_spaces password))) _ db f
        (λ grant e. (without_spaces password, ground (arith, e)))
  on_account-Outcome (imap tenant user address password) (some r) db f =
      write-Outcome _ db r
        (λ grant.
          renewed_row ops cipher now r.account.email none grant (imap_grant ops cipher now) r)
        (ok (cipher.encrypt 0 (without_spaces password))) f
        (λ grant e. (without_spaces password, ground (arith, e)))
        (λ grant. record {
          own = find_first_passes (has_key _) r db.accounts f;
          holds = refl;
          fine = (refl, refl);
        })
  on_account-Outcome (graph tenant user profile tokens) none db f =
      add-Outcome _ _ user _ _ _ db f (sealed-IsSealed tokens.refresh_token)
  on_account-Outcome (graph tenant user profile tokens) (some r) db f =
      write-Outcome _ db r _ _ f
        (λ grant.
          renewed-IsSealed _ r.account.encrypted_refresh_token grant
            (sealed-IsSealed tokens.refresh_token))
        (λ grant. record {
          own = find_first_passes (has_key _) r db.accounts f;
          holds = refl;
          fine = (refl, refl);
        })
