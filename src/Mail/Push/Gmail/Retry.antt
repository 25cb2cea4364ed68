-- ===== src/Mail/Push/Gmail/Retry.antt =====
-- A Gmail notification that is delivered again.
use mail_control.Base.{
  ℕ, ◌+◌, ◌<◌, ◌≡◌, refl, ap, ◌∙◌, sym, String, Bool, true, false, ◌||◌, List, [], ◌∷◌, ◌++◌, map,
  any, All, arith, append-nil, Bool-cases, inl, inr,
}
use mail_control.Mail.Account.{MailAccount}
use mail_control.Mail.Push.Dedupe.{PushState, Services, delete_key, publish}
use mail_control.Mail.Push.Gmail.{job_of, key_of, push_all, broker_error}
use mail_control.Mail.Push.Gmail.Delivery.{
  AreDistinct, held, held_at, Agrees, same_account, fresh, push_held, push_taken, push_refused,
  claimed_state, claimed_held, claimed-Agrees, refused-Agrees, fresh-Agrees, push_all_frame,
  push_all_step, push_all_stop, publish_first, push_all_taken, deleted,
}

-- The services at another time, when the broker takes every job.
abbrev pub recovered : ℕ → Services → Services
recovered later env = record env { now = later; broker_takes = λ j. true }

module _ (env : Services) (history_id : String) (later : ℕ) (up : env.redis_is_up ≡ true)
    (soon : later < env.now + env.ttl) where
  -- The accounts have the same keys at both times.
  abbrev pub Stays : PushState → List MailAccount → Type 0
  Stays s accounts = All (λ a. held_at env history_id later s a ≡ held env history_id s a) accounts

  Stays-Agrees :
      (a : MailAccount) (s s' : PushState) (accounts : List MailAccount)
      → Agrees env history_id a s s'
      → any (same_account a) accounts ≡ false
      → Stays s accounts
      → Stays s' accounts
  Stays-Agrees a s s' [] k d h = tt
  Stays-Agrees a s s' (b ∷ rest) k d h =
      let apart : same_account a b ≡ false = ground (arith, d) in
      (
        k later b apart ∙ h.0 ∙ sym (k env.now b apart),
        Stays-Agrees a s s' rest k (ground (arith, d)) h.1,
      )

  fresh-Stays :
      (s : PushState) (accounts : List MailAccount)
      → Stays s accounts
      → fresh (recovered later env) history_id s accounts ≡ fresh env history_id s accounts
  fresh-Stays s [] h = refl
  fresh-Stays s (a ∷ rest) h = rw (h.0, fresh-Stays s rest h.1) refl

  -- The first delivery gave the account its key, or it had it: the second one passes over it.
  passes_over :
      (a : MailAccount) (rest : List MailAccount) (queued' : Bool) (s1 : PushState)
      → held_at env history_id later s1 a ≡ true
      → push_all (recovered later env) history_id (a ∷ rest) queued' s1
        ≡ push_all (recovered later env) history_id rest (queued' || false) s1
  passes_over a rest queued' s1 h =
      push_all_step (recovered later env) history_id a rest queued' false s1 s1
        (push_held (recovered later env) history_id a s1 up h)

  -- While Redis answers: a notification is delivered, and delivered again before the keys of the
  -- first delivery end, while no key that an account had before ends between the two. Whichever
  -- jobs the broker refuses at the first delivery, when it takes all of them at the second, the two
  -- together publish one job for each account that had no key before, in order, and none for the
  -- others.
  pub push_again :
      (accounts : List MailAccount) (s : PushState)
      → AreDistinct accounts
      → Stays s accounts
      → (queued queued' : Bool)
      → (push_all
          (recovered later env)
          history_id
          accounts
          queued'
          (push_all env history_id accounts queued s).1).1.published
        ≡ s.published ++ map job_of (fresh env history_id s accounts)
  unfolding push_all
  push_again [] s d stay queued queued' = sym (append-nil s.published)
  push_again (a ∷ rest) s d stay queued queued' = elim (Bool-cases (held env history_id s a)) [
    | inl had ↦
        let step =
          push_all_step env history_id a rest queued false s s
            (push_held env history_id a s up had) in
        rw step (
          let s1 = (push_all env history_id rest (queued || false) s).1 in
          let kept =
            push_all_frame env history_id later a rest (queued || false) s up d.0 ∙ stay.0 ∙ had in
          ap (λ r. r.1.published) (passes_over a rest queued' s1 kept)
          ∙ push_again rest s d.1 stay.1 (queued || false) (queued' || false)
          ∙ rw had refl)
    | inr new ↦ elim (Bool-cases (env.broker_takes (job_of a))) [
      | inl takes ↦
          let s' = publish (job_of a) (claimed_state env history_id a s) in
          let step =
            push_all_step env history_id a rest queued true s s'
              (push_taken env history_id a s up new takes) in
          let stay' = Stays-Agrees a s s' rest (claimed-Agrees env history_id a s) d.0 stay.1 in
          rw step (
            let s1 = (push_all env history_id rest (queued || true) s').1 in
            let kept =
              push_all_frame env history_id later a rest (queued || true) s' up d.0
              ∙ claimed_held env history_id later a s soon in
            ap (λ r. r.1.published) (passes_over a rest queued' s1 kept)
            ∙ push_again rest s' d.1 stay' (queued || true) (queued' || false)
            ∙ ap (λ bs. s'.published ++ map job_of bs)
                (fresh-Agrees env history_id a s s' rest (claimed-Agrees env history_id a s) d.0)
            ∙ rw new (
                publish_first env history_id s.published (job_of a)
                  (map job_of (fresh env history_id s rest))))
      | inr refuses ↦
          let s' = delete_key (key_of env history_id a) (claimed_state env history_id a s) in
          let stop =
            push_all_stop env history_id a rest queued s s' broker_error
              (push_refused env history_id a s up new refuses) in
          let same_fresh : fresh (recovered later env) history_id s' rest
              ≡ fresh env history_id s rest =
            fresh-Agrees (recovered later env) history_id a s s' rest
              (refused-Agrees env history_id a s) d.0
            ∙ fresh-Stays s rest stay.1 in
          rw stop (
            push_all_taken (recovered later env) history_id (a ∷ rest) queued' s' up (λ j. refl) d
            ∙ rw (deleted env history_id later a (claimed_state env history_id a s).keys, new)
                (ap (λ bs. s.published ++ job_of a ∷ map job_of bs) same_fresh))
    ]
  ]
