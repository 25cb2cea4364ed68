-- ===== src/Mail/Push/Pubsub/Sender.antt =====
-- Whose push requests are accepted.
use mail_control.Base.{
  ℕ, ◌≡◌, refl, String, Bool, true, ◌&&◌, not, Option, none, some, List, [], ◌∷◌, arith, inl, inr,
  Bool-cases, Option-cases, same, same_opt, truthy_opt, eq_iff, All, ltb, ◌∙◌, ap,
}
use mail_control.Base.Exec.{is_ok}
use mail_control.Identity.Models.{TextOps}
use mail_control.Mail.Push.Pubsub.{
  Claims, PushRequest, bearer, Cache, is_cached, token_tail, is_accepted, on_claims, on_token,
  verify_pubsub_push_request,
}

-- At some time Google named the expected account for the token, as a verified address, and the
-- expected audience where there is one.
pub record IsNamed (tokeninfo : ℕ → String → Option Claims) (r : PushRequest) (token : String)
    : Type 0 where
  pub asked_at : ℕ
  pub claims : Claims
  pub answered : tokeninfo asked_at token ≡ some claims
  pub account : claims.email ≡ r.expected_service_account
  pub verified : claims.email_verified ≡ true
  pub audience : truthy_opt r.expected_audience ≡ true → claims.audience ≡ r.expected_audience

-- A named token ends like this one.
abbrev pub IsVouched : (ℕ → String → Option Claims) → PushRequest → String → Type 0
IsVouched tokeninfo r tail =
    (token : String) × (token_tail token ≡ tail) × IsNamed tokeninfo r token

same_opt_sound : (a b : Option String) → same_opt same a b ≡ true → a ≡ b
same_opt_sound none none h = refl
same_opt_sound none (some b) h = absurd (ground (arith, h))
same_opt_sound (some a) none h = absurd (ground (arith, h))
same_opt_sound (some a) (some b) h = ap some (ground (arith, h, eq_iff a b))

-- A request of a time, with the parts that its sender chooses.
pub record Attempt : Type 0 where
  pub at : ℕ
  pub authorization : Option String
  pub provided_token : Option String

module _ (ops : TextOps) (tokeninfo : ℕ → String → Option Claims) (r : PushRequest) where
  abbrev pub request_of : Attempt → PushRequest
  request_of a = record r { authorization = a.authorization; provided_token = a.provided_token }

  -- The cache after the requests of a list, under the settings that `r` holds.
  unfoldable pub verify_all : List Attempt → Cache → Cache
  verify_all [] cache = cache
  verify_all (a ∷ rest) cache =
      verify_all rest (verify_pubsub_push_request ops (tokeninfo a.at) a.at (request_of a) cache).1

  abbrev IsEarned : Cache → Type 0
  IsEarned cache = All (λ (tail, ends). IsVouched tokeninfo r tail) cache

  accepted-IsNamed :
      (a : Attempt) (token : String) (c : Claims)
      → tokeninfo a.at token ≡ some c
      → is_accepted ops (tokeninfo a.at) a.at (request_of a) c ≡ true
      → IsNamed tokeninfo r token
  accepted-IsNamed a token c answered h = record {
    asked_at = a.at;
    claims = c;
    answered = answered;
    account = same_opt_sound c.email r.expected_service_account (ground (arith, h));
    verified = ground (arith, h);
    audience = λ set. same_opt_sound c.audience r.expected_audience (ground (arith, h, set));
  }

  cached-IsVouched :
      (now : ℕ) (tail : String) (cache : Cache)
      → IsEarned cache
      → is_cached now tail cache ≡ true
      → IsVouched tokeninfo r tail
  cached-IsVouched now tail [] k h = absurd (ground (arith, h))
  cached-IsVouched now tail ((t, ends) ∷ rest) k h =
      elim (Bool-cases (same t tail && ltb now ends)) [
        | inl here ↦
            let (token, e, named) = k.0 in
            let own : t ≡ tail = ground (arith, here, eq_iff t tail) in (token, e ∙ own, named)
        | inr other ↦ cached-IsVouched now tail rest k.1 (ground (arith, h, other))
      ]

  -- What a request with a bearer token leaves in the cache, and whether it is accepted.
  token_checked :
      (a : Attempt) (cache : Cache)
      → IsEarned cache
      → IsEarned
          (on_token ops (tokeninfo a.at) a.at (request_of a) (bearer a.authorization) cache).1
        × (is_ok
                (on_token ops (tokeninfo a.at) a.at (request_of a) (bearer a.authorization) cache).0
              ≡ true
            → (rest : String) × (bearer a.authorization ≡ some rest)
              × IsVouched tokeninfo r (token_tail (ops.strip rest)))
  unfolding on_token on_claims
  token_checked a cache k = elim (Option-cases (bearer a.authorization)) [
    | inl missing ↦ rw (on_token, missing) (k, λ h. absurd (ground (arith, h)))
    | inr (rest, shown) ↦
        let token = ops.strip rest in
        elim (Bool-cases (is_cached a.at (token_tail token) cache)) [
          | inl cached ↦
              rw (on_token, shown, cached)
                (k, λ h. (rest, refl, cached-IsVouched a.at (token_tail token) cache k cached))
          | inr new ↦ elim (Option-cases (tokeninfo a.at token)) [
            | inl failed ↦ rw (on_token, shown, new, failed) (k, λ h. absurd (ground (arith, h)))
            | inr (c, answered) ↦
                elim (Bool-cases (is_accepted ops (tokeninfo a.at) a.at (request_of a) c)) [
                  | inr other ↦
                      rw (on_token, shown, new, answered, on_claims, other)
                        (k, λ h. absurd (ground (arith, h)))
                  | inl accepted ↦
                      let named = accepted-IsNamed a token c answered accepted in
                      rw (on_token, shown, new, answered, on_claims, accepted)
                        (((token, refl, named), k), λ h. (rest, refl, (token, refl, named)))
                ]
          ]
        ]
  ]

  abbrev is_wrong : Attempt → Bool
  is_wrong a =
      truthy_opt r.verification_token && not (same_opt same a.provided_token r.verification_token)

  verify-IsEarned :
      (a : Attempt) (cache : Cache)
      → IsEarned cache
      → IsEarned (verify_pubsub_push_request ops (tokeninfo a.at) a.at (request_of a) cache).1
  unfolding verify_pubsub_push_request
  verify-IsEarned a cache k = elim (Bool-cases (is_wrong a)) [
    | inl bad ↦ rw (verify_pubsub_push_request, bad) k
    | inr good ↦ elim (Bool-cases (truthy_opt r.expected_service_account)) [
      | inl set ↦ rw (verify_pubsub_push_request, good, set) (token_checked a cache k).0
      | inr unset ↦ rw (verify_pubsub_push_request, good, unset) k
    ]
  ]

  verify_all-IsEarned :
      (attempts : List Attempt) (cache : Cache)
      → IsEarned cache
      → IsEarned (verify_all attempts cache)
  unfolding verify_all
  verify_all-IsEarned [] cache k = k
  verify_all-IsEarned (a ∷ rest) cache k = verify_all-IsEarned rest _ (verify-IsEarned a cache k)

  -- Under settings that stay, from an empty cache and after any requests: one that is accepted shows
  -- the shared token where one is set; and where a service account is expected, it bears a token that
  -- has the last 32 characters of one for which Google named that account at some time, as a
  -- verified address, and the expected audience where there is one.
  pub verified_sender :
      (earlier : List Attempt) (a : Attempt)
      → is_ok
          (verify_pubsub_push_request ops
            (tokeninfo a.at)
            a.at
            (request_of a)
            (verify_all earlier [])).0
        ≡ true
      → (truthy_opt r.verification_token ≡ true → a.provided_token ≡ r.verification_token)
        × (truthy_opt r.expected_service_account ≡ true
            → (rest : String) × (bearer a.authorization ≡ some rest)
              × IsVouched tokeninfo r (token_tail (ops.strip rest)))
  unfolding verify_pubsub_push_request
  verified_sender earlier a h =
      let cache = verify_all earlier [] in
      elim (Bool-cases (is_wrong a)) [
        | inl bad ↦ absurd (ground (arith, (rw (verify_pubsub_push_request, bad) at h)))
        | inr good ↦ (
          λ set. same_opt_sound a.provided_token r.verification_token (ground (arith, good, set)),
          λ expected.
              (token_checked a cache (verify_all-IsEarned earlier [] tt)).1
                (rw (verify_pubsub_push_request, good, expected) at h),
        )
      ]
