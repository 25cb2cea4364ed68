-- ===== src/Mail/Http.antt =====
-- What a provider's HTTP interface answers, and the bounded download of modules/mail/http.py.
use mail_control.Base.{
  ℕ, ◌+◌, ◌*◌, ◌≤◌, ◌≡◌, String, Bool, ◌&&◌, ◌||◌, Option, none, some, List, [], ◌∷◌, ◌++◌, arith,
  ◌==◌, ltb, leb, max, if◌then◌else◌, length, length-append, append_assoc, append-nil,
}
use mail_control.Base.Exec.{Result, ok, err}

-- Times and delays of the retry loops are in milliseconds.
pub record Response : Type 0 where
  pub status_code : ℕ
  -- `error.errors[].reason` of a JSON body that has this form.
  pub reasons : List String
  -- The deadline in the `Retry-After` header, and the one in the text of a JSON error.
  pub header_deadline : Option ℕ
  pub text_deadline : Option ℕ
  -- The finite delay that the `Retry-After` header asks for, no less than 0.
  pub header_delay : Option ℕ
  pub content : String
  -- `response.json()` reads the content.
  pub is_json : Bool

-- `bounded_request` raises `httpx.RequestError`, the ValueError of a body over the limit, or returns a
-- response.
pub data Reply : Type 0 where
  request_error : Reply
  too_large : Reply
  answered : Response → Reply

-- {429, 500, 502, 503, 504}
abbrev pub is_transient_status : ℕ → Bool
is_transient_status n = n == 429 || n == 500 || n == 502 || n == 503 || n == 504

abbrev pub is_success : ℕ → Bool
is_success n = leb 200 n && ltb n 300

-- `max(deadlines) if deadlines else None`
abbrev pub later : Option ℕ → Option ℕ → Option ℕ
later none none = none
later (some a) none = some a
later none (some b) = some b
later (some a) (some b) = some (max a b)

abbrev pub gmail_retry_at : Response → Option ℕ
gmail_retry_at r = later r.header_deadline r.text_deadline

-- MAX_PROVIDER_RESPONSE_BYTES
abbrev pub max_provider_response_bytes : ℕ
max_provider_response_bytes = 30 * 1024 * 1024

pub data DownloadError : Type 0 where
  exceeds_limit : DownloadError

-- The loop over the decoded chunks; a body is its bytes.
read_chunks : List (List ℕ) → List ℕ → Result DownloadError (List ℕ)
read_chunks [] body = ok body
read_chunks (chunk ∷ chunks) body =
    let rest = read_chunks chunks (body ++ chunk) in
    if ltb max_provider_response_bytes (length body + length chunk) then err exceeds_limit else rest

unfoldable pub bounded_body : List (List ℕ) → Result DownloadError (List ℕ)
unfolding read_chunks
bounded_body chunks = read_chunks chunks []

abbrev pub joined : List (List ℕ) → List ℕ
joined [] = []
joined (chunk ∷ chunks) = chunk ++ joined chunks

read_chunks_within :
    (chunks : List (List ℕ)) (body : List ℕ)
    → length body + length (joined chunks) ≤ max_provider_response_bytes
    → read_chunks chunks body ≡ ok (body ++ joined chunks)
unfolding read_chunks
read_chunks_within [] body h = rw append-nil
read_chunks_within (chunk ∷ chunks) body h = ground (
  arith,
  length-append chunk (joined chunks),
  length-append body chunk,
  append_assoc body chunk (joined chunks),
  read_chunks_within chunks (body ++ chunk),
)

read_chunks_beyond :
    (chunks : List (List ℕ)) (body : List ℕ)
    → length body ≤ max_provider_response_bytes
    → max_provider_response_bytes + 1 ≤ length body + length (joined chunks)
    → read_chunks chunks body ≡ err exceeds_limit
unfolding read_chunks
read_chunks_beyond [] body k h = absurd (omega arith)
read_chunks_beyond (chunk ∷ chunks) body k h = ground (
  arith,
  length-append chunk (joined chunks),
  length-append body chunk,
  read_chunks_beyond chunks (body ++ chunk),
)

-- A download is the whole body when that has at most 30 MiB, and an error otherwise, however the
-- body is cut into chunks.
pub bounded_body_exact :
    (chunks : List (List ℕ))
    → (length (joined chunks) ≤ max_provider_response_bytes
        → bounded_body chunks ≡ ok (joined chunks))
      × (max_provider_response_bytes + 1 ≤ length (joined chunks)
          → bounded_body chunks ≡ err exceeds_limit)
unfolding bounded_body
bounded_body_exact chunks = (
  λ h. read_chunks_within chunks [] (omega arith),
  λ h. read_chunks_beyond chunks [] (omega arith) (omega arith),
)
