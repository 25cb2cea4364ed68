-- ===== src/Mail/Gmail/Request/Bounds.antt =====
-- A call ends after five requests at most.
use mail_control.Base.{
  ℕ, zero, suc, ◌+◌, ◌-◌, ◌≤◌, ◌<◌, ◌≡◌, String, Bool, true, false, Option, some, [], ◌∷◌, arith,
  refl, ◌⊎◌, inl, inr, if◌then◌else◌, length, length-append,
}
use mail_control.Base.Exec.{Result}
use mail_control.Mail.Http.{Reply}
use mail_control.Mail.Gmail.Request.{
  Outcome, Loop, Step, done, again, step, request_loop, first_loop,
}

-- Requests that the loop may still send.
abbrev pub budget : Loop → ℕ
budget s = (4 - s.attempt) + (if s.refreshed then 0 else 1)

-- The requests sent are accounted for by the attempts counted and the refresh.
abbrev pub IsCounted : Loop → Type 0
IsCounted s = length s.sent + budget s ≤ 5

abbrev continues : {E : Type 0} → Step E → Bool
continues (done o s) = false
continues (again s) = true

abbrev pub loop_of : {E : Type 0} → Step E → Loop
loop_of (done o s) = s
loop_of (again s) = s

pub Step-cases :
    {E : Type 0} (t : Step E)
    → ((o : Outcome E) × (s : Loop) × (t ≡ done o s)) ⊎ ((s : Loop) × (t ≡ again s))
Step-cases (done o s) = inl (o, s, refl)
Step-cases (again s) = inr (s, refl)

module _ {E : Type 0} (replies : ℕ → Reply) (refresh : Option (String → Result E String))
    (clock jitter : ℕ → ℕ) where
  step_spends :
      (s : Loop)
      → s.attempt < 4
      → (length (loop_of (step replies refresh clock jitter s)).sent ≡ length s.sent + 1)
        × (continues (step replies refresh clock jitter s) ≡ true
            → (budget (loop_of (step replies refresh clock jitter s)) + 1 ≤ budget s)
              × ((loop_of (step replies refresh clock jitter s)).attempt < 4))
  unfolding step
  step_spends s h = (ground (arith, length-append s.sent (s.token ∷ [])), λ c. ground arith)

  loop_ends :
      (fuel : ℕ) (s : Loop)
      → budget s ≤ fuel
      → s.attempt < 4
      → IsCounted s
      → (r : Outcome E × Loop) × (request_loop replies refresh clock jitter fuel s ≡ some r)
        × (length r.1.sent ≤ 5)
  unfolding request_loop
  loop_ends zero s b a c = absurd (omega arith)
  loop_ends (suc fuel) s b a c = elim (Step-cases (step replies refresh clock jitter s)) [
    | inl (o, s', e) ↦ ((o, s'), rw (e, request_loop), ground (arith, step_spends s a, e))
    | inr (s', e) ↦
        let (n, k) = step_spends s a in
        rw (e, request_loop)
          (loop_ends fuel s' (ground (arith, k, e)) (ground (arith, k, e))
            (ground (arith, n, k, e)))
  ]

  -- Five rounds are enough fuel: whatever the provider answers, a call ends, after at most five
  -- requests, and so after at most four attempts and one refresh of the token.
  pub request_ends :
      (token : String)
      → (r : Outcome E × Loop) × (request_loop replies refresh clock jitter 5 (first_loop token)
          ≡ some r)
        × (length r.1.sent ≤ 5)
  request_ends token = loop_ends 5 (first_loop token) (omega arith) (omega arith) (omega arith)
