-- ===== src/Mail/Push/Pubsub.antt =====
-- The envelope of a Pub/Sub push and its sender: `decode_pubsub_payload` and
-- `verify_pubsub_push_request` of modules/mail/gmail_push.py.
pub mod Sender
use mail_control.Base.{
  ℕ, zero, suc, ◌+◌, ◌-◌, String, Bool, true, false, ◌&&◌, not, Option, none, some, List, [], ◌∷◌,
  ltb, min, max, same, same_opt, any, if◌then◌else◌, truthy, truthy_opt, or_else, is_none,
}
use mail_control.Base.Exec.{Result, ok, err}
use mail_control.Identity.Models.{TextOps}
use mail_control.Identity.Tokens.{append_text}

abbrev pub text_length : String → ℕ
text_length String.[] = 0
text_length (String.◌∷◌ c s) = suc (text_length s)

-- `s[n:]`
abbrev pub drop_text : ℕ → String → String
drop_text zero s = s
drop_text (suc n) String.[] = String.[]
drop_text (suc n) (String.◌∷◌ c s) = drop_text n s

-- `token[-32:]`
unfoldable pub token_tail : String → String
token_tail token = drop_text (text_length token - 32) token

-- `"=" * (-len(encoded) % 4)`, by the length modulo 4.
abbrev pub padding : String → String
padding String.[] = String.[]
padding (String.◌∷◌ a String.[]) = "==="
padding (String.◌∷◌ a (String.◌∷◌ b String.[])) = "=="
padding (String.◌∷◌ a (String.◌∷◌ b (String.◌∷◌ c String.[]))) = "="
padding (String.◌∷◌ a (String.◌∷◌ b (String.◌∷◌ c (String.◌∷◌ d rest)))) = padding rest

-- The envelope's `message`, where it is a dictionary, with `data` where that is a text.
pub record Envelope : Type 0 where
  pub message : Option (Option String)

-- The payload's two keys, where they have one of the types that are accepted.
pub record Payload : Type 0 where
  pub email_address : Option String
  pub history_id : Option String

pub data PushFault : Type 0 where
  value_error : String → PushFault
  library_error : PushFault

module _ (casefold : String → String) (decode : String → Option Payload) where
  checked : Option Payload → Result PushFault (String × String)
  checked none = err library_error
  checked (some p) = elim p.email_address [
    | none ↦ err (value_error "Gmail push payload omitted emailAddress or historyId")
    | some email ↦ elim p.history_id [
      | none ↦ err (value_error "Gmail push payload omitted emailAddress or historyId")
      | some history_id ↦ ok (casefold email, history_id)
    ]
  ]

  -- `decode` stands for Base64, UTF-8 and JSON.
  pub decode_pubsub_payload : Envelope → Result PushFault (String × String)
  unfolding checked
  decode_pubsub_payload e = elim e.message [
    | none ↦ err (value_error "Pub/Sub envelope omitted message")
    | some encoded ↦
        if truthy_opt encoded
        then checked
            (decode (append_text (or_else encoded String.[]) (padding (or_else encoded String.[]))))
        else err (value_error "Pub/Sub message omitted data")
  ]

pub record Claims : Type 0 where
  pub email : Option String
  pub email_verified : Bool
  pub audience : Option String
  pub expires_at : ℕ

pub record PushRequest : Type 0 where
  pub authorization : Option String
  pub verification_token : Option String
  pub provided_token : Option String
  pub expected_service_account : Option String
  pub expected_audience : Option String

-- `s.removeprefix("Bearer ")`, where `s.startswith("Bearer ")`.
abbrev pub after_prefix : String → String → Option String
after_prefix String.[] s = some s
after_prefix (String.◌∷◌ c p) String.[] = none
after_prefix (String.◌∷◌ c p) (String.◌∷◌ d s) =
    let rest = after_prefix p s in
    if same (String.◌∷◌ c String.[]) (String.◌∷◌ d String.[]) then rest else none

abbrev pub bearer : Option String → Option String
bearer none = none
bearer (some s) = after_prefix "Bearer " s

-- The tails of the tokens that were accepted, with the times at which they end.
abbrev pub Cache : Type 0
Cache = List (String × ℕ)

abbrev pub is_cached : ℕ → String → Cache → Bool
is_cached now tail cache = any (λ (t, ends). same t tail && ltb now ends) cache

-- `tokeninfo` is the answer of oauth2.googleapis.com.
module _ (ops : TextOps) (tokeninfo : String → Option Claims) (now : ℕ) (r : PushRequest) where
  abbrev pub is_accepted : Claims → Bool
  is_accepted c =
      same_opt same c.email r.expected_service_account
      && c.email_verified
      && (if truthy_opt r.expected_audience
          then same_opt same c.audience r.expected_audience
          else true)

  -- `max(min(expires_at - now, 300), 10)`
  abbrev pub cache_seconds : ℕ → ℕ
  cache_seconds expires_at = max (min (expires_at - now) 300) 10

  on_claims : String → Option Claims → Cache → Result PushFault (Unit {0}) × Cache
  on_claims token none cache = (err library_error, cache)
  on_claims token (some c) cache =
      if is_accepted c
      then (ok tt, (token_tail token, now + cache_seconds c.expires_at) ∷ cache)
      else (err (value_error "unexpected Pub/Sub token"), cache)

  on_token : Option String → Cache → Result PushFault (Unit {0}) × Cache
  unfolding on_claims
  on_token none cache = (err (value_error "missing Pub/Sub bearer token"), cache)
  on_token (some rest) cache =
      let token = ops.strip rest in
      if is_cached now (token_tail token) cache
      then (ok tt, cache)
      else on_claims token (tokeninfo token) cache

  -- `verify_pubsub_push_request`; one message stands for its three complaints about the claims.
  unfoldable pub verify_pubsub_push_request : Cache → Result PushFault (Unit {0}) × Cache
  unfolding on_token
  verify_pubsub_push_request cache =
      if truthy_opt r.verification_token
        && not (same_opt same r.provided_token r.verification_token)
      then (err (value_error "invalid Pub/Sub verification token"), cache)
      else if truthy_opt r.expected_service_account
      then on_token (bearer r.authorization) cache
      else (ok tt, cache)
