-- ===== src/Mail/Push/Dedupe.antt =====
-- The keys in Redis by which a notification is taken once, and the queue of jobs.
use mail_control.Base.{
  ℕ, ◌+◌, String, Bool, true, false, ◌&&◌, not, List, [], ◌∷◌, ◌++◌, ◌==◌, ltb, same, any,
  filter_by, if◌then◌else◌,
}

-- `mail-control:gmail-push:{account.id}:{history_id}` and
-- `mail-control:microsoft-graph:{subscription_id}:{dedupe_id}`, by their parts.
pub data DedupeKey : Type 0 where
  gmail_push : ℕ → String → DedupeKey
  microsoft_graph : String → String → DedupeKey

unfoldable pub same_key : DedupeKey → DedupeKey → Bool
same_key (gmail_push a h) (gmail_push b k) = a == b && same h k
same_key (microsoft_graph s i) (microsoft_graph t j) = same s t && same i j
same_key _ _ = false

-- A job on `mail.sync.gmail` or `mail.sync.microsoft`: the two ids of its body.
pub record SyncJob : Type 0 where
  pub tenant_id : ℕ
  pub mail_account_id : ℕ

-- The keys with the times at which they end, and what was published.
pub record PushState : Type 0 where
  pub keys : List (DedupeKey × ℕ)
  pub published : List SyncJob

-- Whether Redis and the broker answer. `ttl` is the dedupe window of the settings.
pub record Services : Type 0 where
  pub now : ℕ
  pub ttl : ℕ
  pub redis_is_up : Bool
  pub broker_takes : SyncJob → Bool

abbrev pub is_live : ℕ → DedupeKey → DedupeKey × ℕ → Bool
is_live now key (k, ends) = same_key k key && ltb now ends

abbrev pub is_held : ℕ → DedupeKey → PushState → Bool
is_held now key s = any (is_live now key) s.keys

-- `redis.set(key, "1", ex=ttl, nx=True)`: whether it was set; with Redis down it counts as set.
unfoldable pub claim_key : Services → DedupeKey → PushState → Bool × PushState
claim_key env key s =
    if not env.redis_is_up
    then (true, s)
    else if is_held env.now key s
    then (false, s)
    else (true, record s { keys = (key, env.now + env.ttl) ∷ s.keys })

-- `redis.delete(key)`
abbrev pub delete_key : DedupeKey → PushState → PushState
delete_key key s = record s { keys = filter_by (λ (k, ends). not (same_key k key)) s.keys }

-- `enqueue_gmail_sync`, `enqueue_microsoft_sync`
abbrev pub publish : SyncJob → PushState → PushState
publish job s = record s { published = s.published ++ job ∷ [] }
