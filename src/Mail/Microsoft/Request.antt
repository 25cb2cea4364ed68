-- ===== src/Mail/Microsoft/Request.antt =====
-- `MicrosoftGraphClient.request` of modules/mail/microsoft.py: bounded retries within the
-- provider's origin, and one refresh of the token.
pub mod Bounds
use mail_control.Base.{
  ℕ, zero, suc, ◌+◌, ◌-◌, ◌*◌, String, Bool, true, false, ◌&&◌, ◌||◌, not, Option, none, some, List,
  [], ◌∷◌, ◌++◌, ◌==◌, ltb, leb, max, if◌then◌else◌, same, length, truthy, or_else,
}
use mail_control.Base.Exec.{Result, ok, err}
use mail_control.Mail.Http.{
  Response, Reply, request_error, too_large, answered, is_transient_status, is_success,
}

-- The parts of `urlparse(path_or_url)` that the guard reads; a path has no `netloc`.
pub record Url : Type 0 where
  pub scheme : String
  pub netloc : String
  pub path : String

pub data LastError : Type 0 where
  no_response : LastError
  http_status : ℕ → LastError

pub data Outcome (E : Type 0) : Type 0 where
  -- The body, empty for `{}`.
  returned : String → Outcome E
  status_error : ℕ → Outcome E
  transient_error : LastError → Option ℕ → Outcome E
  refresh_error : E → Outcome E
  refused_origin : Outcome E
  -- A ValueError, of a body over the limit or one that is no JSON.
  value_error : Outcome E

-- The local variables of the loop, the token in the headers, what was sent so far (where to, and
-- with which token) and the delays slept.
pub record Loop : Type 0 where
  pub refreshed : Bool
  pub token : String
  pub sent : List (Url × String)
  pub slept : List ℕ

-- How a round of the loop ends: with an outcome, or with the error of the attempt, the deadline
-- that the provider gave, and the delay that it asked for.
pub data Round (E : Type 0) : Type 0 where
  finished : Outcome E → Loop → Round E
  failed : LastError → Option ℕ → Option ℕ → Loop → Round E

abbrev pub is_foreign : Url → Bool
is_foreign url =
    truthy url.netloc
    && (not (same url.scheme "https") || not (same url.netloc "graph.microsoft.com"))

abbrev pub graph_max_attempts : ℕ
graph_max_attempts = 4

module _ {E : Type 0} (replies : ℕ → Reply) (refresh : Option (String → Result E String))
    (jitter : ℕ → ℕ) (url : Url) where
  abbrev send : Loop → Loop
  send s = record s { sent = s.sent ++ (url, s.token) ∷ [] }

  -- `response.json() if response.content else {}`
  abbrev body_of : Response → Outcome E
  body_of r = if truthy r.content && not r.is_json then value_error else returned r.content

  -- The `else` branch of the `try` statement.
  on_response : Response → Loop → Round E
  on_response r s =
      if not (is_transient_status r.status_code)
      then finished (if is_success r.status_code then body_of r else status_error r.status_code) s
      else failed (http_status r.status_code) r.header_deadline r.header_delay s

  on_reply : Reply → Loop → Round E
  unfolding on_response
  on_reply request_error s = failed no_response none none s
  on_reply too_large s = finished value_error s
  on_reply (answered r) s = on_response r s

  -- After a 401: a new token, and the request once more.
  resend : Result E String → Loop → Round E
  unfolding on_reply
  resend (err e) s = finished (refresh_error e) s
  resend (ok token) s =
      on_reply (replies (length s.sent)) (send (record s { token = token; refreshed = true }))

  on_first : Reply → Option (String → Result E String) → Loop → Round E
  unfolding resend
  on_first request_error callback s = failed no_response none none s
  on_first too_large callback s = finished value_error s
  on_first (answered r) none s = on_response r s
  on_first (answered r) (some f) s =
      if r.status_code == 401 && not s.refreshed then resend (f s.token) s else on_response r s

  unfoldable pub round : Loop → Round E
  unfolding on_first
  round s = on_first (replies (length s.sent)) refresh (send s)

  -- The `for` loop, by the rounds left: after the last one, or a delay over 30 s, it gives up.
  unfoldable pub rounds : ℕ → Loop → Outcome E × Loop
  rounds zero s = (transient_error no_response none, s)
  rounds (suc k) s = elim (round s) [
    | finished o s' ↦ (o, s')
    | failed last retry_at asked s' ↦
        let delay = or_else asked (jitter (graph_max_attempts - suc k)) in
        let rest = rounds k (record s' { slept = s'.slept ++ delay ∷ [] }) in
        if k == 0 || ltb 30000 delay then (transient_error last retry_at, s') else rest
  ]

  unfoldable pub request : Loop → Outcome E × Loop
  unfolding rounds
  request s = if is_foreign url then (refused_origin, s) else rounds graph_max_attempts s

abbrev pub first_loop : String → Loop
first_loop token = record { refreshed = false; token = token; sent = []; slept = [] }
