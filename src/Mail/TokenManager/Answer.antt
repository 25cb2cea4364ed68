-- ===== src/Mail/TokenManager/Answer.antt =====
-- What a token that `access_token` returns is, and what a superseded refresh leaves.
use mail_control.Base.{
  ℕ, ◌≡◌, ◌≢◌, ◌⊎◌, inl, inr, String, Bool, true, false, Option, none, some, arith, refl, ◌∙◌,
  Option-cases, Bool-cases, truthy,
}
use mail_control.Base.Exec.{Result, ok, err, Result-cases}
use mail_control.Mail.Account.{MailAccount, Store, assign, flush, update_account_if_current}
use mail_control.Mail.Account.Fence.{update_applied, update_superseded, update-flush}
use mail_control.Mail.TokenManager.{
  OAuthTokens, Cipher, TokenFault, reload, is_fresh, is_accepted, is_usable, token_values, publish,
  on_tokens, exchange, current_token, from_current, locked, access_token, is_unavailable,
}

module _ {E : Type 0} (cipher : Cipher) (provider : String → Result E OAuthTokens)
    (world : MailAccount → MailAccount) (now : ℕ) where
  -- The token is the stored one, good for two minutes more, and not the one that was rejected.
  pub record IsStored (rejected : Option String) (t : String) (before after : MailAccount)
      : Type 0 where
    pub stored : String
    pub kept : before.encrypted_access_token ≡ some stored
    pub decrypts : cipher.decrypt stored ≡ some t
    pub fresh : is_fresh now before.access_token_expires_at ≡ true
    pub accepted : is_accepted rejected t ≡ true
    pub unchanged : after ≡ before

  -- The token is new: the provider gave it for the grant of the row, which still held that grant
  -- when the tokens were written.
  pub record IsRenewed (t : String) (before after : MailAccount) : Type 0 where
    pub plain : String
    pub tokens : OAuthTokens
    pub grant : cipher.decrypt before.encrypted_refresh_token ≡ some plain
    pub given : provider plain ≡ ok tokens
    pub is_token : t ≡ tokens.access_token
    pub current : (world before).encrypted_refresh_token ≡ before.encrypted_refresh_token
    pub written : after ≡ record (world before) {
      auth = assign (token_values cipher provider world now tokens) (world before).auth;
    }

  exchange_ok :
      (s : Store) (t : String)
      → let grant = s.row.encrypted_refresh_token in
        (exchange cipher provider world now grant (cipher.decrypt grant) s).0 ≡ ok t
        → IsRenewed t s.row
            (exchange cipher provider world now grant (cipher.decrypt grant) s).1.row
  unfolding exchange on_tokens publish
  exchange_ok s t h =
      let grant = s.row.encrypted_refresh_token in
      let s' : Store = record s { row = world s.row } in
      elim (Option-cases (cipher.decrypt grant)) [
        | inl broken ↦ absurd (ground (arith, broken, h))
        | inr (plain, d) ↦ elim (Result-cases (provider plain)) [
          | inr (e, p) ↦ absurd (ground (arith, d, p, h))
          | inl (tokens, p) ↦
              let v = token_values cipher provider world now tokens in
              elim (Bool-cases (update_account_if_current s' grant v).1) [
                | inr refused ↦ absurd (ground (arith, d, p, h, refused))
                | inl applied ↦
                    let (c, w) = update_applied s' grant v applied in
                    rw (d, p, applied, exchange, on_tokens, publish)
                      (record {
                        plain = plain;
                        tokens = tokens;
                        grant = d;
                        given = p;
                        is_token = ground (arith, d, p, h, applied);
                        current = c.same_grant;
                        written = update-flush s' grant v ∙ w;
                      })
              ]
        ]
      ]

  current_stored :
      (o : Option String) (c : String)
      → current_token cipher provider world now o ≡ ok (some c)
      → (stored : String) × (o ≡ some stored) × (cipher.decrypt stored ≡ some c)
  unfolding current_token
  current_stored none c h = absurd (cc)
  current_stored (some stored) c h = (
    stored,
    refl,
    elim (Option-cases (cipher.decrypt stored)) [
      | inl broken ↦ absurd (ground (arith, broken, h))
      | inr (t, d) ↦ ground (arith, d, h)
    ],
  )

  from_current_ok :
      (rejected : Option String) (b : Store) (r : Result (TokenFault E) (Option String))
      (t : String)
      → current_token cipher provider world now b.row.encrypted_access_token ≡ r
      → (from_current cipher provider world now rejected r (reload b)).0 ≡ ok t
      → let after = (from_current cipher provider world now rejected r (reload b)).1.row in
        IsStored rejected t b.row after ⊎ IsRenewed t b.row after
  unfolding from_current
  from_current_ok rejected b (err e) t c h = absurd (cc)
  from_current_ok rejected b (ok none) t c h = inr (exchange_ok (reload b) t h)
  from_current_ok rejected b (ok (some current)) t c h =
      let (stored, k, d) = current_stored b.row.encrypted_access_token current c in
      elim (Bool-cases (
        is_usable cipher provider world now rejected b.row.access_token_expires_at
          (some current))) [
            | inl usable ↦
                let is_t : current ≡ t = ground (arith, usable, h) in
                inl (
                  rw (usable, from_current)
                    (record {
                      stored = stored;
                      kept = k;
                      decrypts = rw (← is_t) d;
                      fresh = ground (arith, usable);
                      accepted = ground (arith, usable, is_t);
                      unchanged = refl;
                    }))
            | inr old ↦
                inr
                  (rw (old, from_current) (exchange_ok (reload b) t (rw (old, from_current) at h)))
          ]

  locked_ok :
      (rejected : Option String) (b : Store) (t : String)
      → (locked cipher provider world now rejected (reload b)).0 ≡ ok t
      → let after = (locked cipher provider world now rejected (reload b)).1.row in
        IsStored rejected t b.row after ⊎ IsRenewed t b.row after
  unfolding locked
  locked_ok rejected b t h = elim (Bool-cases (is_unavailable b.row.status)) [
    | inl paused ↦ absurd (ground (arith, paused, h))
    | inr ready ↦ elim (Bool-cases (truthy b.row.encrypted_refresh_token)) [
      | inr missing ↦ absurd (ground (arith, ready, missing, h))
      | inl granted ↦
          rw (ready, granted, locked)
            (from_current_ok rejected b
              (current_token cipher provider world now b.row.encrypted_access_token) t refl
              (rw (ready, granted, locked) at h))
    ]
  ]

  -- A token that is returned is the stored one, which is good for two minutes more and is not the
  -- rejected one, with the row unchanged; or the provider gave it for the row's grant, which no
  -- newer authorization had replaced when the new credentials were written.
  pub access_token_answer :
      (acquired : Bool) (rejected : Option String) (s : Store) (t : String)
      → (access_token cipher provider world now acquired rejected s).0 ≡ ok t
      → let after = (access_token cipher provider world now acquired rejected s).1.row in
        IsStored rejected t (flush s).row after ⊎ IsRenewed t (flush s).row after
  unfolding access_token
  access_token_answer true rejected s t h = locked_ok rejected (flush s) t h
  access_token_answer false rejected s t h = absurd (cc)

  -- The row is as it was before, or as other transactions have left it.
  abbrev pub IsUnwritten : MailAccount → MailAccount → Type 0
  IsUnwritten before after = (after ≡ before) ⊎ (after ≡ world before)

  exchange_overtaken :
      (s : Store)
      → s.row.encrypted_refresh_token ≢ (world s.row).encrypted_refresh_token
      → let grant = s.row.encrypted_refresh_token in
        IsUnwritten s.row (exchange cipher provider world now grant (cipher.decrypt grant) s).1.row
  unfolding exchange on_tokens publish
  exchange_overtaken s h =
      let grant = s.row.encrypted_refresh_token in
      let s' : Store = record s { row = world s.row } in
      elim (Option-cases (cipher.decrypt grant)) [
        | inl broken ↦ inl (rw broken refl)
        | inr (plain, d) ↦ elim (Result-cases (provider plain)) [
          | inr (e, p) ↦ inr (rw (d, p, exchange, on_tokens) refl)
          | inl (tokens, p) ↦
              let v = token_values cipher provider world now tokens in
              let w = update_superseded s' grant v (inr h) in
              elim (Bool-cases (update_account_if_current s' grant v).1) [
                | inl applied ↦
                    inr (
                      rw (d, p, applied, exchange, on_tokens, publish)
                        (update-flush s' grant v ∙ w))
                | inr refused ↦ inr (rw (d, p, refused, exchange, on_tokens, publish) w)
              ]
        ]
      ]

  from_current_overtaken :
      (rejected : Option String) (b : Store) (r : Result (TokenFault E) (Option String))
      → b.row.encrypted_refresh_token ≢ (world b.row).encrypted_refresh_token
      → IsUnwritten b.row (from_current cipher provider world now rejected r (reload b)).1.row
  unfolding from_current
  from_current_overtaken rejected b (err e) h = inl refl
  from_current_overtaken rejected b (ok none) h = exchange_overtaken (reload b) h
  from_current_overtaken rejected b (ok (some current)) h =
      elim (Bool-cases (
        is_usable cipher provider world now rejected b.row.access_token_expires_at
          (some current))) [
            | inl usable ↦ inl (rw (usable, from_current) refl)
            | inr old ↦ rw (old, from_current) (exchange_overtaken (reload b) h)
          ]

  -- When a newer authorization replaces the grant while the provider is asked, the refresh of the
  -- older grant writes nothing, whatever the provider answers.
  pub overtaken_refresh_writes_nothing :
      (rejected : Option String) (s : Store)
      → (flush s).row.encrypted_refresh_token ≢ (world (flush s).row).encrypted_refresh_token
      → IsUnwritten (flush s).row (access_token cipher provider world now true rejected s).1.row
  unfolding access_token locked
  overtaken_refresh_writes_nothing rejected s h =
      let b = flush s in
      elim (Bool-cases (is_unavailable b.row.status)) [
        | inl paused ↦ inl (rw (paused, locked) refl)
        | inr ready ↦ elim (Bool-cases (truthy b.row.encrypted_refresh_token)) [
          | inr missing ↦ inl (rw (ready, missing, locked) refl)
          | inl granted ↦
              rw (ready, granted, locked)
                (from_current_overtaken rejected b
                  (current_token cipher provider world now b.row.encrypted_access_token) h)
        ]
      ]
