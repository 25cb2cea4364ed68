-- ===== src/Mail/Push/Gmail/Delivery.antt =====
-- What a Gmail notification enqueues, when it is delivered again too.
use mail_control.Base.{
  ℕ, ◌+◌, ◌<◌, ◌≡◌, refl, sym, ap, ◌∙◌, String, Bool, true, false, ◌||◌, not, List, [], ◌∷◌, ◌++◌,
  arith, ◌==◌, same_self, any, map, filter_by, Bool-cases, inl, inr, append_assoc, append-nil,
}
use mail_control.Base.Exec.{Result, ok, err, Result-cases}
use mail_control.Mail.Account.{MailAccount}
use mail_control.Mail.Push.Dedupe.{
  DedupeKey, gmail_push, microsoft_graph, same_key, PushState, Services, is_held, claim_key,
  delete_key, publish, is_live, SyncJob,
}
use mail_control.Mail.Push.Gmail.{job_of, key_of, push_account, push_all, PushError, broker_error}

abbrev pub same_account : MailAccount → MailAccount → Bool
same_account a b = a.id == b.id

-- No two accounts of the list have one id.
abbrev pub AreDistinct : List MailAccount → Type 0
AreDistinct [] = Unit
AreDistinct (a ∷ rest) = (any (same_account a) rest ≡ false) × AreDistinct rest

module _ (env : Services) (history_id : String) where
  abbrev pub held_at : ℕ → PushState → MailAccount → Bool
  held_at t s a = is_held t (key_of env history_id a) s

  abbrev pub held : PushState → MailAccount → Bool
  held s a = held_at env.now s a

  -- The accounts for which this notification has no key yet.
  abbrev pub fresh : PushState → List MailAccount → List MailAccount
  fresh s accounts = filter_by (λ a. not (held s a)) accounts

  -- Two states agree at any time on the keys of all accounts but one.
  abbrev pub Agrees : MailAccount → PushState → PushState → Type 0
  Agrees a s s' =
      (t : ℕ) (b : MailAccount) → same_account a b ≡ false → held_at t s' b ≡ held_at t s b

  other_key :
      (a b : MailAccount)
      → same_account a b ≡ false
      → same_key (key_of env history_id a) (key_of env history_id b) ≡ false
  unfolding same_key
  other_key a b h = ground (arith, h)

  claim-Agrees :
      (a : MailAccount) (s : PushState) → Agrees a s (claim_key env (key_of env history_id a) s).1
  unfolding claim_key
  claim-Agrees a s t b h = ground (arith, other_key a b h)

  apart :
      (k : DedupeKey) (a b : MailAccount)
      → same_account a b ≡ false
      → same_key k (key_of env history_id a) ≡ true
      → same_key k (key_of env history_id b) ≡ false
  unfolding same_key
  apart (gmail_push i h) a b d own = ground (arith, d, own)
  apart (microsoft_graph i j) a b d own = absurd (ground (arith, own))

  any_kept :
      (t : ℕ) (a b : MailAccount) (keys : List (DedupeKey × ℕ))
      → same_account a b ≡ false
      → any
          (is_live t (key_of env history_id b))
          (filter_by (λ (k, ends). not (same_key k (key_of env history_id a))) keys)
        ≡ any (is_live t (key_of env history_id b)) keys
  any_kept t a b [] h = refl
  any_kept t a b ((k, ends) ∷ keys) h = elim (Bool-cases (same_key k (key_of env history_id a))) [
    | inl own ↦ rw (own, apart k a b h own, any_kept t a b keys h) refl
    | inr other ↦ rw (other, any_kept t a b keys h) refl
  ]

  pub deleted :
      (t : ℕ) (a : MailAccount) (keys : List (DedupeKey × ℕ))
      → any
          (is_live t (key_of env history_id a))
          (filter_by (λ (k, ends). not (same_key k (key_of env history_id a))) keys)
        ≡ false
  deleted t a [] = refl
  deleted t a ((k, ends) ∷ keys) = elim (Bool-cases (same_key k (key_of env history_id a))) [
    | inl own ↦ rw (own, deleted t a keys) refl
    | inr other ↦ ground (arith, other, deleted t a keys)
  ]

  -- What one round does, by whether the account had its key and the broker takes the job.
  pub push_held :
      (a : MailAccount) (s : PushState)
      → env.redis_is_up ≡ true
      → held s a ≡ true
      → push_account env history_id a s ≡ (ok false, s)
  unfolding push_account claim_key
  push_held a s up h = rw (push_account, claim_key, up, h) refl

  abbrev pub claimed_state : MailAccount → PushState → PushState
  claimed_state a s = record s { keys = (key_of env history_id a, env.now + env.ttl) ∷ s.keys }

  pub push_taken :
      (a : MailAccount) (s : PushState)
      → env.redis_is_up ≡ true
      → held s a ≡ false
      → env.broker_takes (job_of a) ≡ true
      → push_account env history_id a s ≡ (ok true, publish (job_of a) (claimed_state a s))
  unfolding push_account claim_key
  push_taken a s up h takes = rw (push_account, claim_key, up, h, takes) refl

  pub push_refused :
      (a : MailAccount) (s : PushState)
      → env.redis_is_up ≡ true
      → held s a ≡ false
      → env.broker_takes (job_of a) ≡ false
      → push_account env history_id a s
        ≡ (err broker_error, delete_key (key_of env history_id a) (claimed_state a s))
  unfolding push_account claim_key
  push_refused a s up h refuses = rw (push_account, claim_key, up, h, refuses) refl

  pub claimed_held :
      (t : ℕ) (a : MailAccount) (s : PushState)
      → t < env.now + env.ttl
      → held_at t (claimed_state a s) a ≡ true
  unfolding same_key
  claimed_held t a s long = ground (arith, long, same_self history_id)

  pub claimed-Agrees : (a : MailAccount) (s : PushState) → Agrees a s (claimed_state a s)
  claimed-Agrees a s t b h = ground (arith, other_key a b h)

  pub refused-Agrees :
      (a : MailAccount) (s : PushState)
      → Agrees a s (delete_key (key_of env history_id a) (claimed_state a s))
  refused-Agrees a s t b h = any_kept t a b (claimed_state a s).keys h ∙ claimed-Agrees a s t b h

  same_account_sym : (a b : MailAccount) → same_account a b ≡ false → same_account b a ≡ false
  same_account_sym a b h = ground (arith, h)

  pub fresh-Agrees :
      (a : MailAccount) (s s' : PushState) (accounts : List MailAccount)
      → Agrees a s s'
      → any (same_account a) accounts ≡ false
      → fresh s' accounts ≡ fresh s accounts
  fresh-Agrees a s s' [] k h = refl
  fresh-Agrees a s s' (b ∷ rest) k h =
      let here : held s' b ≡ held s b = k env.now b (ground (arith, h)) in
      rw (here, fresh-Agrees a s s' rest k (ground (arith, h))) refl

  -- A round for another account keeps this one's key as it is.
  push_account_frame :
      (t : ℕ) (a b : MailAccount) (s : PushState)
      → env.redis_is_up ≡ true
      → same_account a b ≡ false
      → held_at t (push_account env history_id b s).1 a ≡ held_at t s a
  push_account_frame t a b s up h =
      let d = same_account_sym a b h in
      elim (Bool-cases (held s b)) [
        | inl had ↦ rw (push_held b s up had) refl
        | inr new ↦ elim (Bool-cases (env.broker_takes (job_of b))) [
          | inl takes ↦ rw (push_taken b s up new takes) (claimed-Agrees b s t a d)
          | inr refuses ↦ rw (push_refused b s up new refuses) (refused-Agrees b s t a d)
        ]
      ]

  pub push_all_frame :
      (t : ℕ) (a : MailAccount) (accounts : List MailAccount) (queued : Bool) (s : PushState)
      → env.redis_is_up ≡ true
      → any (same_account a) accounts ≡ false
      → held_at t (push_all env history_id accounts queued s).1 a ≡ held_at t s a
  unfolding push_all
  push_all_frame t a [] queued s up h = refl
  push_all_frame t a (b ∷ rest) queued s up h =
      let one = push_account_frame t a b s up (ground (arith, h)) in
      elim (Result-cases (push_account env history_id b s).0) [
        | inl (r, e) ↦
            rw (push_all, e)
              (push_all_frame t a rest (queued || r) (push_account env history_id b s).1 up
                  (ground (arith, h))
                ∙ one)
        | inr (x, e) ↦ rw (push_all, e) one
      ]

  pub push_all_step :
      (a : MailAccount) (rest : List MailAccount) (queued b : Bool) (s s' : PushState)
      → push_account env history_id a s ≡ (ok b, s')
      → push_all env history_id (a ∷ rest) queued s ≡ push_all env history_id rest (queued || b) s'
  unfolding push_all
  push_all_step a rest queued b s s' e =
      ap
        (λ r. elim r.0 as (λ _. Result PushError Bool × PushState) [
          | err x ↦ (err x, r.1)
          | ok c ↦ push_all env history_id rest (queued || c) r.1
        ])
        e

  pub push_all_stop :
      (a : MailAccount) (rest : List MailAccount) (queued : Bool) (s s' : PushState) (x : PushError)
      → push_account env history_id a s ≡ (err x, s')
      → push_all env history_id (a ∷ rest) queued s ≡ (err x, s')
  unfolding push_all
  push_all_stop a rest queued s s' x e =
      ap
        (λ r. elim r.0 as (λ _. Result PushError Bool × PushState) [
          | err y ↦ (err y, r.1)
          | ok c ↦ push_all env history_id rest (queued || c) r.1
        ])
        e

  pub publish_first :
      (jobs : List SyncJob) (j : SyncJob) (more : List SyncJob)
      → (jobs ++ j ∷ []) ++ more ≡ jobs ++ j ∷ more
  publish_first jobs j more = append_assoc jobs (j ∷ []) more

  -- With a broker that takes every job, all accounts without the key get one.
  pub push_all_taken :
      (accounts : List MailAccount) (queued : Bool) (s : PushState)
      → env.redis_is_up ≡ true
      → ((j : SyncJob) → env.broker_takes j ≡ true)
      → AreDistinct accounts
      → (push_all env history_id accounts queued s).1.published
        ≡ s.published ++ map job_of (fresh s accounts)
  unfolding push_all
  push_all_taken [] queued s up takes d = sym (append-nil s.published)
  push_all_taken (a ∷ rest) queued s up takes d = elim (Bool-cases (held s a)) [
    | inl had ↦
        ap (λ r. r.1.published) (push_all_step a rest queued false s s (push_held a s up had))
        ∙ rw had (push_all_taken rest _ s up takes d.1)
    | inr new ↦
        let s' = publish (job_of a) (claimed_state a s) in
        ap (λ r. r.1.published)
          (push_all_step a rest queued true s s' (push_taken a s up new (takes (job_of a))))
        ∙ push_all_taken rest _ s' up takes d.1
        ∙ ap (λ bs. s'.published ++ map job_of bs)
            (fresh-Agrees a s s' rest (claimed-Agrees a s) d.0)
        ∙ rw new (publish_first s.published (job_of a) (map job_of (fresh s rest)))
  ]
