-- ===== src/System/Alerts.antt =====
-- modules/system/telegram_alerts.py: incidents announced once, and their recovery. `FreshnessAlerts`
-- of mail_freshness.py is the same class over other keys.
pub mod Incidents
pub mod Monitor
use mail_control.Base.{
  ◌≡◌, ℕ, String, Bool, true, false, ◌&&◌, ◌||◌, not, Option, none, some, List, [], ◌∷◌, ◌++◌,
  if◌then◌else◌, truthy, truthy_opt, clip, or_else,
}
use mail_control.System.Redis.{
  Channel, Key, alert_active, alert_dedupe, Redis, get, set_nx, delete, getdel,
}

-- What is sent to the chat.
pub data Notice : Type 0 where
  attention : ℕ → String → Notice
  recovered : ℕ → Notice

pub record AlertSettings : Type 0 where
  pub channel : Channel
  pub token : String
  pub chat_id : String
  pub dedupe_seconds : ℕ

pub record AlertState : Type 0 where
  pub redis : Redis
  pub sent : List Notice

-- Which of the calls to Redis and Telegram succeed in one method call.
pub record Network : Type 0 where
  pub claim_works : Bool
  pub dedupe_works : Bool
  pub send_works : Bool
  pub delete_works : Bool

-- SHA-256 of the normalized text, cut to 24 hexadecimal digits: never empty.
pub record Fingerprint : Type 0 where
  pub of_detail : String → String
  pub of_detail_truthy : (s : String) → truthy (of_detail s) ≡ true

module _ (print : Fingerprint) (settings : AlertSettings) (now : ℕ) where
  abbrev pub configured : Bool
  configured = truthy settings.token && truthy settings.chat_id

  abbrev pub active_key : ℕ → Key
  active_key account = alert_active settings.channel account

  abbrev pub dedupe_key : ℕ → String → Key
  dedupe_key account fingerprint = alert_dedupe settings.channel account fingerprint

  -- `_send`, and the deletion of both keys when it fails.
  announce : ℕ → String → String → Network → AlertState → AlertState
  announce account detail fingerprint net s =
      if net.send_works
      then record s { sent = s.sent ++ attention account (clip 500 detail) ∷ [] }
      else if net.delete_works
      then record s {
        redis = delete (delete s.redis (dedupe_key account fingerprint)) (active_key account);
      }
      else s

  -- The second SET of the `try` block; when it raises, the method logs and returns.
  set_dedupe : ℕ → String → String → Network → AlertState → AlertState
  unfolding announce
  set_dedupe account detail fingerprint net s =
      if net.dedupe_works
      then announce account detail fingerprint net (record s {
        redis =
            (set_nx s.redis now (dedupe_key account fingerprint) "1"
              (some settings.dedupe_seconds)).1;
      })
      else s

  unfoldable pub account_issue : ℕ → String → Network → AlertState → AlertState
  unfolding set_dedupe
  account_issue account detail net s =
      let fingerprint = print.of_detail detail in
      let (claimed, redis') = set_nx s.redis now (active_key account) fingerprint none in
      if not configured || not net.claim_works
      then s
      else if claimed
      then set_dedupe account detail fingerprint net (record s { redis = redis' })
      else s

  unfoldable pub account_recovered : ℕ → Network → AlertState → AlertState
  account_recovered account net s =
      let (found, redis') = getdel s.redis now (active_key account) in
      let fingerprint = or_else found String.[] in
      if not configured || not net.claim_works
      then s
      else if not (truthy_opt found)
      then record s { redis = redis' }
      else record {
        redis = if net.delete_works then delete redis' (dedupe_key account fingerprint) else redis';
        sent = if net.send_works then s.sent ++ recovered account ∷ [] else s.sent;
      }
