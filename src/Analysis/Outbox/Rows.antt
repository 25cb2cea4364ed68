-- ===== src/Analysis/Outbox/Rows.antt =====
-- What the queries of the outbox do to its rows: modules/analysis/repository.py.
use mail_control.Base.{
  ℕ, ◌+◌, ◌-◌, ◌≤◌, ◌≡◌, refl, Bool, some, List, [], ◌∷◌, arith, find_first, update_first, count_if,
  Bool-cases, inl, inr,
}
use mail_control.Mail.Messages.{OutboxEvent, is_event}
use mail_control.Mail.Messages.Outbox.{EventsAreUnique}
use mail_control.Analysis.Outbox.{max_attempts}

count_found :
    (p : OutboxEvent → Bool) (x : OutboxEvent) (es : List OutboxEvent)
    → find_first p es ≡ some x
    → 1 ≤ count_if (is_event x.aggregate_id) es
count_found p x [] h = ground arith
count_found p x (e ∷ es) h = elim (Bool-cases (p e)) [
  | inl hit ↦ ground (arith, h, hit)
  | inr miss ↦ ground (arith, h, miss, count_found p x es)
]

-- Where ids are unique, the row that a test finds is the row of its id.
pub find_by_id :
    (p : OutboxEvent → Bool) (x : OutboxEvent) (es : List OutboxEvent)
    → EventsAreUnique es
    → find_first p es ≡ some x
    → find_first (is_event x.aggregate_id) es ≡ some x
find_by_id p x [] u h = ground arith
find_by_id p x (e ∷ es) u h = elim (Bool-cases (p e)) [
  | inl hit ↦ ground (arith, h, hit)
  | inr miss ↦ elim (Bool-cases (is_event x.aggregate_id e)) [
    | inl own ↦
        absurd (ground (arith, own, u x.aggregate_id, count_found p x es (ground (arith, h, miss))))
    | inr other ↦
        rw other (find_by_id p x es (λ id. ground (arith, u id)) (ground (arith, h, miss)))
  ]
]

-- Two writes to the row of an id, the first of which keeps the id, are one write.
pub update_twice :
    (id : ℕ) (f g : OutboxEvent → OutboxEvent) (es : List OutboxEvent)
    → ((e : OutboxEvent) → (f e).aggregate_id ≡ e.aggregate_id)
    → update_first (is_event id) g (update_first (is_event id) f es)
      ≡ update_first (is_event id) (λ e. g (f e)) es
update_twice id f g [] keep = refl
update_twice id f g (e ∷ es) keep = ground (arith, keep e, update_twice id f g es keep)

-- A write that keeps ids keeps how often each stands in the table.
pub count_kept :
    (id k : ℕ) (f : OutboxEvent → OutboxEvent) (es : List OutboxEvent)
    → ((e : OutboxEvent) → (f e).aggregate_id ≡ e.aggregate_id)
    → count_if (is_event k) (update_first (is_event id) f es) ≡ count_if (is_event k) es
count_kept id k f [] keep = refl
count_kept id k f (e ∷ es) keep = ground (arith, keep e, count_kept id k f es keep)

-- The claims that an event has left.
abbrev pub claims_left : OutboxEvent → ℕ
claims_left e = max_attempts - e.attempts

abbrev pub budget : List OutboxEvent → ℕ
budget [] = 0
budget (e ∷ es) = claims_left e + budget es

pub budget-update_found :
    (p : OutboxEvent → Bool) (f : OutboxEvent → OutboxEvent) (x : OutboxEvent)
    (es : List OutboxEvent)
    → find_first p es ≡ some x
    → budget (update_first p f es) + claims_left x ≡ budget es + claims_left (f x)
budget-update_found p f x [] h = ground arith
budget-update_found p f x (e ∷ es) h = elim (Bool-cases (p e)) [
  | inl hit ↦ ground (arith, h, hit)
  | inr miss ↦ ground (arith, h, miss, budget-update_found p f x es)
]
