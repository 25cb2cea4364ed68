-- ===== src/System/Scheduler/Ready.antt =====
-- Exactly the due accounts that no worker holds and no cooldown stops are queued, each once.
use mail_control.Base.{
  ℕ, suc, ◌≡◌, Bool, true, false, Option, none, some, if◌then◌else◌, ◌&&◌, ◌||◌, not, List, [], ◌∷◌,
  ◌++◌, arith, refl, ◌==◌, ap, sym, subst, ◌∙◌, any-append, filter_by, map, length, All,
  append_assoc, ==_iff, ==_self, Bool-cases, inl, inr,
}
use mail_control.Mail.Account.{MailAccount, MailProvider}
use mail_control.System.Redis.{Redis}
use mail_control.System.Scheduler.{
  Delivery, Broker, is_empty, publish_all, publish_ready, is_due, is_busy, is_cooling_down,
  is_skipped, delivery, enqueue_due_accounts,
}

abbrev pub is_blocked : Redis → ℕ → MailAccount → Bool
is_blocked r now a = is_busy r now a || is_cooling_down r now a

-- The id is the table's primary key, so it determines the provider.
abbrev pub AgreesWith : (ℕ → MailProvider) → MailAccount → Type 0
AgreesWith provider_of a = a.provider ≡ provider_of a.id

module _ (r : Redis) (now : ℕ) (provider_of : ℕ → MailProvider) where
  blocked_of_skipped :
      (a : MailAccount) (accounts : List MailAccount)
      → AgreesWith provider_of a
      → All (AgreesWith provider_of) accounts
      → is_skipped r now accounts a ≡ true
      → is_blocked r now a ≡ true
  blocked_of_skipped a [] h k e = ground arith
  blocked_of_skipped a (b ∷ bs) h k e = elim (Bool-cases (b.id == a.id)) [
    | inl same_id ↦ ground (arith, blocked_of_skipped a bs h k.1, ==_iff b.id a.id)
    | inr other ↦ ground (arith, blocked_of_skipped a bs h k.1)
  ]

  skipped_of_blocked :
      (a : MailAccount) (before after : List MailAccount)
      → is_blocked r now a ≡ true
      → is_skipped r now (before ++ a ∷ after) a ≡ true
  skipped_of_blocked a before after h = ground (
    arith,
    ==_self a.id,
    any-append (λ b. is_busy r now b && b.id == a.id) before (a ∷ after),
    any-append (λ b. is_cooling_down r now b && b.id == a.id) before (a ∷ after),
  )

  skipped_is_blocked :
      (a : MailAccount) (before after : List MailAccount)
      → All (AgreesWith provider_of) (before ++ a ∷ after)
      → AgreesWith provider_of a
      → is_skipped r now (before ++ a ∷ after) a ≡ is_blocked r now a
  skipped_is_blocked a before after h k = elim (Bool-cases (is_blocked r now a)) [
    | inl b ↦ skipped_of_blocked a before after b ∙ sym b
    | inr b ↦ ground (arith, b, blocked_of_skipped a (before ++ a ∷ after) k h)
  ]

  ready_from :
      (accounts before after : List MailAccount)
      → accounts ≡ before ++ after
      → All (AgreesWith provider_of) accounts
      → All (AgreesWith provider_of) after
      → filter_by (λ a. not (is_skipped r now accounts a)) after
        ≡ filter_by (λ a. not (is_blocked r now a)) after
  ready_from accounts before [] e h k = refl
  ready_from accounts before (a ∷ after) e h k =
      let next =
        ready_from accounts (before ++ a ∷ []) after (e ∙ sym (append_assoc before (a ∷ []) after))
          h k.1 in
      let here : is_skipped r now accounts a ≡ is_blocked r now a =
        subst (λ l. is_skipped r now l a ≡ is_blocked r now a) (sym e)
          (skipped_is_blocked a before after (subst (All (AgreesWith provider_of)) e h) k.0) in
      ground (arith, here, next)

  filter_agrees :
      (q : MailAccount → Bool) (table : List MailAccount)
      → All (AgreesWith provider_of) table
      → All (AgreesWith provider_of) (filter_by q table)
  filter_agrees q [] h = tt
  filter_agrees q (a ∷ rest) h = elim (Bool-cases (q a)) [
    | inl t ↦ rw t (h.0, filter_agrees q rest h.1)
    | inr f ↦ rw f (filter_agrees q rest h.1)
  ]

  filter_filter :
      (interval : ℕ) (table : List MailAccount)
      → filter_by (λ a. not (is_blocked r now a)) (filter_by (is_due now interval) table)
        ≡ filter_by (λ a. is_due now interval a && not (is_blocked r now a)) table
  filter_filter interval [] = refl
  filter_filter interval (a ∷ rest) = ground (arith, filter_filter interval rest)

pub record IsEnqueued (b : Broker) (ready : List MailAccount) (q : List Delivery × Option ℕ)
    : Type 0 where
  -- What was published is a beginning of the messages of the ready accounts.
  pub begun : (rest : List Delivery) × (q.0 ++ rest ≡ map delivery ready)
  pub counted : (n : ℕ) → q.1 ≡ some n → (q.0 ≡ map delivery ready) × (n ≡ length ready)
  pub succeeds :
      b.mget_fails ≡ false
      → b.channel_fails ≡ false
      → ((n : ℕ) → b.takes n ≡ true)
      → q.1 ≡ some (length ready)

publish_all_begins :
    (takes : ℕ → Bool) (n : ℕ) (ds : List Delivery)
    → let (sent, complete) = publish_all takes n ds in
      ((rest : List Delivery) × (sent ++ rest ≡ ds))
      × (complete ≡ true → sent ≡ ds)
      × (((k : ℕ) → takes k ≡ true) → complete ≡ true)
unfolding publish_all
publish_all_begins takes n [] = (([], refl), λ h. refl, λ h. refl)
publish_all_begins takes n (d ∷ ds) =
    let ((rest, e), whole, up) = publish_all_begins takes (suc n) ds in
    elim (Bool-cases (takes n)) [
      | inl taken ↦ rw taken ((rest, ap (λ l. d ∷ l) e), λ h. ap (λ l. d ∷ l) (whole h), up)
      | inr lost ↦
          rw lost ((d ∷ ds, refl), λ h. absurd (cc), λ h. absurd (ground (arith, lost, h n)))
    ]

publish_ready-IsEnqueued :
    (b : Broker) (ready : List MailAccount) → IsEnqueued b ready (publish_ready b ready)
unfolding publish_ready
publish_ready-IsEnqueued b [] = record {
  begun = ([], refl);
  counted = λ n h. (refl, ground (arith, h));
  succeeds = λ m c t. refl;
}
publish_ready-IsEnqueued b (a ∷ rest) = elim (Bool-cases b.channel_fails) [
  | inl fails ↦
      rw (fails, publish_ready)
        (record {
          begun = (map delivery (a ∷ rest), refl);
          counted = λ n h. absurd (cc);
          succeeds = λ m c t. absurd (ground (arith, fails, c));
        })
  | inr opens ↦
      let (begins, whole, up) = publish_all_begins b.takes 0 (map delivery (a ∷ rest)) in
      elim (Bool-cases (publish_all b.takes 0 (map delivery (a ∷ rest))).1) [
        | inl complete ↦
            rw (opens, complete, publish_ready)
              (record {
                begun = begins;
                counted = λ n h. (whole complete, ground (arith, h));
                succeeds = λ m c t. refl;
              })
        | inr partial ↦
            rw (opens, partial, publish_ready)
              (record {
                begun = begins;
                counted = λ n h. absurd (cc);
                succeeds = λ m c t. absurd (ground (arith, partial, up t));
              })
      ]
]

abbrev ready_of : Redis → ℕ → ℕ → List MailAccount → List MailAccount
ready_of r now interval table =
    let accounts = filter_by (is_due now interval) table in
    filter_by (λ a. not (is_skipped r now accounts a)) accounts

enqueue-IsEnqueued :
    (b : Broker) (r : Redis) (now interval : ℕ) (table : List MailAccount)
    → IsEnqueued b (ready_of r now interval table) (enqueue_due_accounts b r now interval table)
unfolding enqueue_due_accounts
enqueue-IsEnqueued b r now interval table = go (filter_by (is_due now interval) table)
  where
    go :
        (accounts : List MailAccount)
        → let ready = filter_by (λ a. not (is_skipped r now accounts a)) accounts in
          IsEnqueued b ready (
            if is_empty accounts
            then ([], some 0)
            else if b.mget_fails
            then ([], none)
            else publish_ready b ready)
    go [] = record {
      begun = ([], refl);
      counted = λ n h. (refl, ground (arith, h));
      succeeds = λ m c t. refl;
    }
    go (a ∷ rest) = elim (Bool-cases b.mget_fails) [
      | inl fails ↦ rw fails (record {
        begun = (_, refl);
        counted = λ n h. absurd (cc);
        succeeds = λ m c t. absurd (ground (arith, fails, m));
      })
      | inr answers ↦ simp answers (publish_ready-IsEnqueued b _)
    ]

-- Where the function returns, the published messages are those of exactly the accounts that may sync,
-- are due, hold no lock and cool down from no error, each once, in the table's order and under its
-- provider's routing key, and the answer is their number; where it raises, they are a beginning of
-- those; and it returns where Redis and the broker do not fail.
pub enqueue_exactly_ready :
    (b : Broker) (r : Redis) (now : ℕ) (provider_of : ℕ → MailProvider) (interval : ℕ)
    (table : List MailAccount)
    → All (AgreesWith provider_of) table
    → let ready = filter_by (λ a. is_due now interval a && not (is_blocked r now a)) table in
      IsEnqueued b ready (enqueue_due_accounts b r now interval table)
enqueue_exactly_ready b r now provider_of interval table h =
    let accounts = filter_by (is_due now interval) table in
    let agree = filter_agrees r now provider_of (is_due now interval) table h in
    subst (λ l. IsEnqueued b l (enqueue_due_accounts b r now interval table))
      (ready_from r now provider_of accounts [] accounts refl agree agree
        ∙ filter_filter r now provider_of interval table)
      (enqueue-IsEnqueued b r now interval table)
