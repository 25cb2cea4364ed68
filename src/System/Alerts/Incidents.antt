-- ===== src/System/Alerts/Incidents.antt =====
-- An incident is announced once, until the account recovers.
use mail_control.Base.{
  ℕ, ◌≡◌, ◌≢◌, String, Bool, true, false, ◌&&◌, not, none, some, List, [], ◌∷◌, ◌++◌, arith, refl,
  ◌∙◌, ap, ◌==◌, clip, filter_by, filter_by-append, append-nil, All,
}
use mail_control.System.Redis.{
  Channel, account_alerts, freshness_alerts, alert_active, Redis, exists, same_channel,
}
use mail_control.System.Alerts.{
  Notice, attention, recovered, AlertSettings, AlertState, Network, Fingerprint, account_issue,
  account_recovered, configured,
}

pub data Call : Type 0 where
  issue : ℕ → ℕ → String → Network → Call
  recover : ℕ → ℕ → Network → Call

abbrev pub about : ℕ → Notice → Bool
about a (attention b detail) = a == b
about a (recovered b) = a == b

-- The call does not report that account `a` has recovered.
abbrev pub IsSilentOn : ℕ → Call → Type 0
IsSilentOn a (issue now b detail net) = Unit
IsSilentOn a (recover now b net) = b ≢ a

pub same_channel_self : (c : Channel) → same_channel c c ≡ true
same_channel_self account_alerts = refl
same_channel_self freshness_alerts = refl

module _ (print : Fingerprint) (settings : AlertSettings) where
  -- The time of a call is its first argument.
  pub serve : Call → AlertState → AlertState
  serve (issue now b detail net) s = account_issue print settings now b detail net s
  serve (recover now b net) s = account_recovered print settings now b net s

  pub serve_all : List Call → AlertState → AlertState
  serve_all [] s = s
  serve_all (c ∷ cs) s = serve_all cs (serve c s)

  -- The incident of an account is open: its active key is set, with no expiry.
  pub record IsOpen (a : ℕ) (s : AlertState) : Type 0 where
    pub fingerprint : String
    pub at_key :
        s.redis.entry (alert_active settings.channel a)
        ≡ some (record { value = fingerprint; expires_at = none })

  issue_keeps :
      (a : ℕ) (now b : ℕ) (detail : String) (net : Network) (s : AlertState) (o : IsOpen a s)
      → let s' = account_issue print settings now b detail net s in
        (s'.redis.entry (alert_active settings.channel a)
          ≡ s.redis.entry (alert_active settings.channel a))
        × (filter_by (about a) s'.sent ≡ filter_by (about a) s.sent)
  unfolding account_issue
  issue_keeps a now b detail net s o = ground (
    arith,
    o.at_key,
    same_channel_self settings.channel,
    filter_by-append (about a) s.sent (attention b (clip 500 detail) ∷ []),
    append-nil (filter_by (about a) s.sent),
  )

  recover_keeps :
      (a : ℕ) (now b : ℕ) (net : Network) (s : AlertState)
      → b ≢ a
      → let s' = account_recovered print settings now b net s in
        (s'.redis.entry (alert_active settings.channel a)
          ≡ s.redis.entry (alert_active settings.channel a))
        × (filter_by (about a) s'.sent ≡ filter_by (about a) s.sent)
  unfolding account_recovered
  recover_keeps a now b net s h = ground (
    arith,
    same_channel_self settings.channel,
    filter_by-append (about a) s.sent (recovered b ∷ []),
    append-nil (filter_by (about a) s.sent),
  )

  serve_keeps :
      (a : ℕ) (c : Call) (s : AlertState)
      → IsSilentOn a c
      → IsOpen a s
      → IsOpen a (serve c s) × (filter_by (about a) (serve c s).sent ≡ filter_by (about a) s.sent)
  unfolding serve
  serve_keeps a (issue now b detail net) s h o =
      let (k, f) = issue_keeps a now b detail net s o in
      (record { fingerprint = o.fingerprint; at_key = k ∙ o.at_key }, f)
  serve_keeps a (recover now b net) s h o =
      let (k, f) = recover_keeps a now b net s h in
      (record { fingerprint = o.fingerprint; at_key = k ∙ o.at_key }, f)

  -- While an incident is open, whatever issues are reported, of that account and of others, with any
  -- detail and at any times, and whatever other accounts recover, nothing more is sent about the
  -- account: also for another error, and after the dedupe key has ended.
  pub open_incident_is_silent :
      (a : ℕ) (cs : List Call) (s : AlertState)
      → IsOpen a s
      → All (IsSilentOn a) cs
      → filter_by (about a) (serve_all cs s).sent ≡ filter_by (about a) s.sent
  unfolding serve_all
  open_incident_is_silent a [] s o h = refl
  open_incident_is_silent a (c ∷ cs) s o h =
      let (o', f) = serve_keeps a c s h.0 o in open_incident_is_silent a cs (serve c s) o' h.1 ∙ f

  -- The first report of an issue, with Redis and Telegram at work: one notice, and the incident is
  -- open.
  first_issue_announces :
      (now a : ℕ) (detail : String) (net : Network) (s : AlertState)
      → configured print settings now ≡ true
      → (net.claim_works && net.dedupe_works && net.send_works) ≡ true
      → exists s.redis now (alert_active settings.channel a) ≡ false
      → let s' = account_issue print settings now a detail net s in
        IsOpen a s' × (s'.sent ≡ s.sent ++ attention a (clip 500 detail) ∷ [])
  unfolding account_issue
  first_issue_announces now a detail net s c w e = (
    record {
      fingerprint = print.of_detail detail;
      at_key = ground (arith, same_channel_self settings.channel);
    },
    ground arith,
  )

  -- When the notice cannot be delivered and the keys are deleted, nothing is sent and no incident
  -- is open, so the next report tries again.
  undelivered_issue_reopens :
      (now a : ℕ) (detail : String) (net : Network) (s : AlertState)
      → (net.claim_works && net.dedupe_works && not net.send_works && net.delete_works) ≡ true
      → exists s.redis now (alert_active settings.channel a) ≡ false
      → configured print settings now ≡ true
      → let s' = account_issue print settings now a detail net s in
        (s'.redis.entry (alert_active settings.channel a) ≡ none) × (s'.sent ≡ s.sent)
  unfolding account_issue
  undelivered_issue_reopens now a detail net s w e c =
      ground (arith, same_channel_self settings.channel)

  IsOpen-without_notice :
      (now a : ℕ) (detail : String) (net : Network) (s : AlertState)
      → configured print settings now ≡ true
      → net.claim_works ≡ true
      → net.dedupe_works ≡ false
      → exists s.redis now (alert_active settings.channel a) ≡ false
      → IsOpen a (account_issue print settings now a detail net s)
  unfolding account_issue
  IsOpen-without_notice now a detail net s c w d e = record {
    fingerprint = print.of_detail detail;
    at_key = ground (arith, same_channel_self settings.channel);
  }

  nothing_sent :
      (now a : ℕ) (detail : String) (net : Network) (s : AlertState)
      → net.dedupe_works ≡ false
      → (account_issue print settings now a detail net s).sent ≡ s.sent
  unfolding account_issue
  nothing_sent now a detail net s d = ground arith

  -- When the second write to Redis fails, the incident is open though nothing was sent: until the
  -- account recovers no report of it is ever announced.
  pub lost_alert :
      (now a : ℕ) (detail : String) (net : Network) (s : AlertState) (cs : List Call)
      → configured print settings now ≡ true
      → net.claim_works ≡ true
      → net.dedupe_works ≡ false
      → exists s.redis now (alert_active settings.channel a) ≡ false
      → All (IsSilentOn a) cs
      → filter_by (about a) (serve_all cs (account_issue print settings now a detail net s)).sent
        ≡ filter_by (about a) s.sent
  lost_alert now a detail net s cs c w d e h =
      open_incident_is_silent a cs (account_issue print settings now a detail net s)
        (IsOpen-without_notice now a detail net s c w d e) h
      ∙ ap (filter_by (about a)) (nothing_sent now a detail net s d)

  -- The dedupe key is written and never read: what is sent is the same whatever dedupe keys, with
  -- whatever expiry, the store holds.
  dedupe_key_is_never_read :
      (now a : ℕ) (detail : String) (net : Network) (s : AlertState) (r : Redis)
      → r.entry (alert_active settings.channel a) ≡ s.redis.entry (alert_active settings.channel a)
      → (account_issue print settings now a detail net (record s { redis = r })).sent
        ≡ (account_issue print settings now a detail net s).sent
  unfolding account_issue
  dedupe_key_is_never_read now a detail net s r h = ground arith

  -- A recovery is announced only for an account whose incident is open, and it closes it.
  recovery_closes :
      (now a : ℕ) (net : Network) (s : AlertState)
      → configured print settings now ≡ true
      → net.claim_works ≡ true
      → let s' = account_recovered print settings now a net s in
        (s'.redis.entry (alert_active settings.channel a) ≡ none)
        × (exists s.redis now (alert_active settings.channel a) ≡ false → s'.sent ≡ s.sent)
  unfolding account_recovered
  recovery_closes now a net s c w =
      (ground (arith, same_channel_self settings.channel), λ e. ground arith)
