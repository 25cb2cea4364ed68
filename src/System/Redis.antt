-- ===== src/System/Redis.antt =====
-- The Redis commands that the program uses, over its own key formats: one constructor for each
-- f-string. A value may carry the time at which it expires.
use mail_control.Base.{
  ℕ, ◌+◌, String, Bool, true, false, ◌&&◌, Option, none, some, ◌==◌, same, ltb, if◌then◌else◌,
  is_some,
}
use mail_control.Mail.Account.{MailProvider, gmail, microsoft}

-- The two classes that derive alert keys.
pub data Channel : Type 0 where
  account_alerts freshness_alerts : Channel

pub data Key : Type 0 where
  alert_active : Channel → ℕ → Key
  alert_dedupe : Channel → ℕ → String → Key
  sync_lock : MailProvider → ℕ → Key
  cooldown : MailProvider → ℕ → Key
  gmail_push : ℕ → String → Key

abbrev pub same_channel : Channel → Channel → Bool
same_channel account_alerts account_alerts = true
same_channel freshness_alerts freshness_alerts = true
same_channel _ _ = false

abbrev pub same_provider : MailProvider → MailProvider → Bool
same_provider gmail gmail = true
same_provider microsoft microsoft = true
same_provider _ _ = false

abbrev pub same_key : Key → Key → Bool
same_key (alert_active c a) (alert_active d b) = same_channel c d && a == b
same_key (alert_dedupe c a f) (alert_dedupe d b g) = same_channel c d && a == b && same f g
same_key (sync_lock p a) (sync_lock q b) = same_provider p q && a == b
same_key (cooldown p a) (cooldown q b) = same_provider p q && a == b
same_key (gmail_push a h) (gmail_push b k) = a == b && same h k
same_key _ _ = false

pub record Entry : Type 0 where
  pub value : String
  pub expires_at : Option ℕ

pub record Redis : Type 0 where
  pub entry : Key → Option Entry

abbrev pub is_live : ℕ → Entry → Bool
is_live now e = elim e.expires_at [ none ↦ true | some t ↦ ltb now t ]

abbrev live_value : ℕ → Option Entry → Option String
live_value now none = none
live_value now (some e) = if is_live now e then some e.value else none

-- GET
abbrev pub get : Redis → ℕ → Key → Option String
get r now k = live_value now (r.entry k)

abbrev pub exists : Redis → ℕ → Key → Bool
exists r now k = is_some (get r now k)

-- SET, with EX where a number of seconds is given
abbrev pub set : Redis → ℕ → Key → String → Option ℕ → Redis
set r now k v ex = record {
  entry = λ j.
      if same_key k j
      then some
          (record { value = v; expires_at = elim ex [ none ↦ none | some s ↦ some (now + s) ] })
      else r.entry j;
}

-- SET … NX: whether it was set, and the store
abbrev pub set_nx : Redis → ℕ → Key → String → Option ℕ → Bool × Redis
set_nx r now k v ex = if exists r now k then (false, r) else (true, set r now k v ex)

-- DEL of one key
abbrev pub delete : Redis → Key → Redis
delete r k = record { entry = λ j. if same_key k j then none else r.entry j }

-- GETDEL
abbrev pub getdel : Redis → ℕ → Key → Option String × Redis
getdel r now k = (get r now k, delete r k)
