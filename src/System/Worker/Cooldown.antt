-- ===== src/System/Worker/Cooldown.antt =====
-- The cooldown after a temporary failure of the provider.
use mail_control.Base.{
  ℕ, ◌+◌, ◌≡◌, true, false, Option, arith, Bool-cases, inl, inr, ltb, ==_self, not, ◌||◌,
}
use mail_control.Mail.Account.{gmail}
use mail_control.Mail.TokenManager.{is_unavailable}
use mail_control.Mail.Gmail.Client.{SyncError}
use mail_control.System.Redis.{cooldown, exists}
use mail_control.System.Alerts.{account_issue}
use mail_control.System.Worker.{
  Message, acked, WorkerState, Surroundings, cooling, cooldown_seconds, is_addressed, report,
  cool_down, on_sync_error, process_message,
}

-- The cooldown outlasts the report of the failure.
cooled :
    (w : Surroundings) (e : SyncError) (t : Option ℕ) (s : WorkerState) (now account : ℕ)
    → s.store.object.id ≡ account
    → ltb now (w.failed_at + cooldown_seconds w.failed_at t) ≡ true
    → exists (report w e (cool_down w t s)).alerts.redis now (cooldown gmail account) ≡ true
unfolding report cool_down account_issue
cooled w e t s now account i h = ground (arith, i, ==_self account)

-- A temporary failure pauses the account: a delivery that meets the state which the handler of the
-- failure has left is acknowledged and does nothing, where Redis answers, until 300 seconds have passed and until 300
-- seconds after the time that the provider named.
cooling_pauses :
    (w w' : Surroundings) (m m' : Message) (e : SyncError) (t : Option ℕ) (s : WorkerState)
    → w.faults.set_raises ≡ false
    → m'.reads_tenant ≡ true
    → w'.faults.exists_raises ≡ false
    → s.store.object.id ≡ s.store.row.id
    → ltb w'.now (w.failed_at + cooldown_seconds w.failed_at t) ≡ true
    → let s' = (on_sync_error w m e (cooling t) s).1 in process_message w' m' s' ≡ (acked, s')
unfolding on_sync_error report cool_down process_message
cooling_pauses w w' m m' e t s sets reads answers i h =
    let r = s.store.row in
    let c = cooled w e t s w'.now r.id i h in
    let readable : not m'.reads_tenant ≡ false = ground (arith, reads) in
    elim (Bool-cases (not (is_addressed m' r) || is_unavailable r.status)) [
      | inl other ↦ ground (arith, sets, reads, other)
      | inr held ↦ ground (arith, sets, reads, answers, held, c)
    ]
