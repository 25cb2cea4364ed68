-- ===== src/Mail/Microsoft/Request/Bounds.antt =====
-- Tokens go to the provider's origin alone, in five requests at most.
use mail_control.Base.{
  ℕ, zero, suc, ◌+◌, ◌-◌, ◌≤◌, ◌≡◌, String, Bool, true, false, ◌||◌, not, Option, [], ◌∷◌, ◌++◌,
  ◌==◌, ltb, leb, arith, refl, ◌⊎◌, inl, inr, if◌then◌else◌, length, length-append, all, all-append,
  ◌∙◌, or_else, Bool-cases,
}
use mail_control.Base.Exec.{Result}
use mail_control.Mail.Http.{Reply}
use mail_control.Mail.Microsoft.Request.{
  Url, LastError, Outcome, Loop, Round, finished, failed, round, rounds, request, first_loop,
  is_foreign, graph_max_attempts, refused_origin,
}

abbrev loop_of : {E : Type 0} → Round E → Loop
loop_of (finished o s) = s
loop_of (failed last retry_at asked s) = s

Round-cases :
    {E : Type 0} (t : Round E)
    → ((o : Outcome E) × (s : Loop) × (t ≡ finished o s))
      ⊎ ((last : LastError) × (retry_at asked : Option ℕ) × (s : Loop) × (t
            ≡ failed last retry_at asked s))
Round-cases (finished o s) = inl (o, s, refl)
Round-cases (failed last retry_at asked s) = inr (last, retry_at, asked, s, refl)

abbrev refresh_left : Loop → ℕ
refresh_left s = if s.refreshed then 0 else 1

-- What was sent went to the provider; what was slept was no longer than 30 s.
abbrev pub is_home : Url × String → Bool
is_home (url, token) = not (is_foreign url)

abbrev pub is_short : ℕ → Bool
is_short d = leb d 30000

module _ {E : Type 0} (replies : ℕ → Reply) (refresh : Option (String → Result E String))
    (jitter : ℕ → ℕ) (url : Url) where
  round_spends :
      (s : Loop)
      → let s' = loop_of (round replies refresh jitter url s) in
        (length s'.sent + refresh_left s' ≤ length s.sent + refresh_left s + 1)
        × (is_foreign url ≡ false → all is_home s.sent ≡ true → all is_home s'.sent ≡ true)
        × (s'.slept ≡ s.slept)
  unfolding round
  round_spends s = (grind (arith, length-append), λ f h. grind (arith, all-append), ground arith)

  rounds_spend :
      (k : ℕ) (s : Loop)
      → is_foreign url ≡ false
      → all is_home s.sent ≡ true
      → all is_short s.slept ≡ true
      → let s' = (rounds replies refresh jitter url k s).1 in
        (length s'.sent ≤ length s.sent + refresh_left s + k)
        × (all is_home s'.sent ≡ true)
        × (all is_short s'.slept ≡ true)
  unfolding rounds
  rounds_spend zero s f h l = (omega arith, h, l)
  rounds_spend (suc k) s f h l = elim (Round-cases (round replies refresh jitter url s)) [
    | inl (o, s', e) ↦
        let (n, k', z) = round_spends s in
        rw (e, rounds)
          (
            ground (arith, n, k' f h, z, e),
            ground (arith, n, k' f h, z, e),
            ground (arith, n, k' f h, z, e, l),
          )
    | inr (last, t, asked, s', e) ↦
        let (n, k', z) = round_spends s in
        let delay = or_else asked (jitter (graph_max_attempts - suc k)) in
        let s'' : Loop = record s' { slept = s'.slept ++ delay ∷ [] } in
        let home : all is_home s'.sent ≡ true = ground (arith, k' f h, e) in
        let size : length s'.sent + refresh_left s' ≤ length s.sent + refresh_left s + 1 =
          ground (arith, n, e) in
        let short : all is_short s'.slept ≡ true = ground (arith, z, e, l) in
        rw (e, rounds)
          (elim (Bool-cases (k == 0 || ltb 30000 delay)) [
            | inl stop ↦ rw stop (omega arith, home, short)
            | inr go ↦
                let (m, a, b) =
                  rounds_spend k s'' f home
                    (all-append is_short s'.slept (delay ∷ []) ∙ ground (arith, short)) in
                rw go (omega arith, a, b)
          ])
  ]

  -- A request goes to Microsoft Graph and nowhere else, whatever the provider answers: a foreign
  -- continuation is refused before anything is sent. At most five requests are sent, and no delay
  -- between them is longer than 30 seconds.
  pub request_bounded :
      (token : String)
      → let (o, s) = request replies refresh jitter url (first_loop token) in
        (length s.sent ≤ 5)
        × (all is_home s.sent ≡ true)
        × (all is_short s.slept ≡ true)
        × (is_foreign url ≡ true → (o ≡ refused_origin) × (s.sent ≡ []))
  unfolding request
  request_bounded token = elim (Bool-cases (is_foreign url)) [
    | inl away ↦ rw away (omega arith, refl, refl, λ h. (refl, refl))
    | inr home ↦
        let (n, a, b) = rounds_spend graph_max_attempts (first_loop token) home refl refl in
        rw home (n, a, b, λ h. absurd (cc))
  ]
