-- ===== src/Mail/Gmail/Request.antt =====
-- `GmailClient._request` of modules/mail/gmail.py: bounded retries, and one refresh of the token.
pub mod Bounds
use mail_control.Base.{
  ℕ, zero, suc, ◌+◌, ◌-◌, ◌*◌, String, Bool, true, false, ◌&&◌, ◌||◌, not, Option, none, some, List,
  [], ◌∷◌, ◌++◌, ◌==◌, ltb, leb, max, if◌then◌else◌, any, same, length, truthy,
}
use mail_control.Base.Exec.{Result, ok, err}
use mail_control.Mail.Http.{
  Response, Reply, request_error, too_large, answered, is_transient_status, is_success,
  gmail_retry_at,
}

-- Why the last attempt failed.
pub data LastError : Type 0 where
  no_response : LastError
  http_status : ℕ → LastError

pub data Outcome (E : Type 0) : Type 0 where
  -- The body, empty for `{}`.
  returned : String → Outcome E
  status_error : ℕ → Outcome E
  transient_error : LastError → Option ℕ → Outcome E
  refresh_error : E → Outcome E
  -- A ValueError, of a body over the limit or one that is no JSON.
  value_error : Outcome E

-- The local variables of the loop, the token in the headers, the tokens of the requests sent so
-- far and the delays slept.
pub record Loop : Type 0 where
  pub attempt : ℕ
  pub refreshed : Bool
  pub token : String
  pub sent : List String
  pub slept : List ℕ

pub data Step (E : Type 0) : Type 0 where
  done : Outcome E → Loop → Step E
  again : Loop → Step E

-- {"rateLimitExceeded", "userRateLimitExceeded"}
abbrev pub is_rate_limit : String → Bool
is_rate_limit reason = same reason "rateLimitExceeded" || same reason "userRateLimitExceeded"

abbrev pub is_limited : Response → Bool
is_limited r = r.status_code == 403 && any is_rate_limit r.reasons

abbrev pub retries : Response → Bool
retries r = is_transient_status r.status_code || is_limited r

abbrev beyond : ℕ → Option ℕ → Bool
beyond limit none = false
beyond limit (some t) = ltb limit t

abbrev pub wait_for : ℕ → ℕ → Option ℕ → ℕ
wait_for delay now none = delay
wait_for delay now (some t) = max delay (t - now)

module _ {E : Type 0} (replies : ℕ → Reply) (refresh : Option (String → Result E String))
    (clock jitter : ℕ → ℕ) where
  -- The end of the loop's body: count the attempt, then give up or sleep. `clock n` is the time
  -- after the n-th request, `jitter n` the random delay after the n-th attempt.
  next_attempt : LastError → Option ℕ → Loop → Step E
  next_attempt last retry_at s =
      if leb 4 (s.attempt + 1)
      then done (transient_error last retry_at) (record s { attempt = s.attempt + 1 })
      else again (record s {
        attempt = s.attempt + 1;
        slept = s.slept ++ wait_for (jitter s.attempt) (clock (length s.sent)) retry_at ∷ [];
      })

  -- `response.json() if response.content else {}`
  abbrev body_of : Response → Outcome E
  body_of r = if truthy r.content && not r.is_json then value_error else returned r.content

  on_response : Response → Loop → Step E
  unfolding next_attempt
  on_response r s =
      if not (retries r)
      then done (if is_success r.status_code then body_of r else status_error r.status_code) s
      else if beyond (clock (length s.sent) + 30000) (gmail_retry_at r)
      then done (transient_error (http_status r.status_code) (gmail_retry_at r)) s
      else next_attempt (http_status r.status_code) (gmail_retry_at r) s

  on_refresh : Result E String → Loop → Step E
  on_refresh (ok token) s = again (record s { token = token; refreshed = true })
  on_refresh (err e) s = done (refresh_error e) s

  -- A 401 refreshes the token, once, where a callback is given.
  on_reply : Reply → Option (String → Result E String) → Loop → Step E
  unfolding on_response on_refresh
  on_reply request_error callback s = next_attempt no_response none s
  on_reply too_large callback s = done value_error s
  on_reply (answered r) none s = on_response r s
  on_reply (answered r) (some f) s =
      if r.status_code == 401 && not s.refreshed then on_refresh (f s.token) s else on_response r s

  unfoldable pub step : Loop → Step E
  unfolding on_reply
  step s = on_reply (replies (length s.sent)) refresh (record s { sent = s.sent ++ s.token ∷ [] })

  -- `while attempt < 4`, with fuel; `none` means that the fuel ran out.
  unfoldable pub request_loop : ℕ → Loop → Option (Outcome E × Loop)
  request_loop zero s = none
  request_loop (suc fuel) s = elim (step s) [
    | done o s' ↦ some (o, s')
    | again s' ↦ request_loop fuel s'
  ]

abbrev pub first_loop : String → Loop
first_loop token = record { attempt = 0; refreshed = false; token = token; sent = []; slept = [] }
