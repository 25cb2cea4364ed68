-- ===== src/Mail/Gmail/Sync/Ends.antt =====
-- The steps between the loops over pages do not run out of fuel.
use mail_control.Base.{
  ℕ, ◌≡◌, ◌≢◌, String, Bool, not, Option, none, some, List, [], ◌∷◌, arith, refl, Bool-cases, inl,
  inr, ◌&&◌, truthy,
}
use mail_control.Base.Exec.{Result, ok, err, Result-cases}
use mail_control.Base.Exec.Avoids.{Avoids, Avoids-then, Avoids-if, Avoids-pure}
use mail_control.Mail.Messages.{MailDb}
use mail_control.Mail.Gmail.Values.{GmailMessage}
use mail_control.Mail.Gmail.Client.{
  Env, Fault, FaultKind, message_not_found, SyncState, Sync, out_of_fuel,
}
use mail_control.Mail.Gmail.Sync.{
  ask, or_fault, request, queued, store_message, on_message, refresh_message, refresh_all, visit,
  reconcile, import_state, new_checkpoint, contains, set_add, is_empty,
}

-- The action does not run out of fuel in that state.
abbrev pub HasFuel : {A : Type 0} → Sync A → SyncState → Type 0
HasFuel m s = Avoids out_of_fuel m s

module _ (env : Env) where
  queued_calls :
      (o : Option MailDb) (created : Bool) (s : SyncState)
      → ((queued env o created s).1.calls ≡ s.calls) × HasFuel (queued env o created) s
  unfolding queued
  queued_calls none created s = (refl, record { at = λ h. absurd (cc) })
  queued_calls (some db) created s = (refl, record { at = λ h. absurd (cc) })

  pub request_ends :
      {A : Type 0} (call : ℕ → Result Fault A) (s : SyncState) → HasFuel (request env call) s
  unfolding request ask or_fault
  request_ends call s = record {
    at = elim (Result-cases (call s.calls)) [
      | inl (a, e) ↦ rw (e, or_fault) (λ h. absurd (cc))
      | inr (x, e) ↦ rw (e, or_fault) (λ h. absurd (cc))
    ];
  }

  pub request_answer :
      {A : Type 0} (call : ℕ → Result Fault A) (s : SyncState) (a : A)
      → (request env call s).0 ≡ ok a
      → call s.calls ≡ ok a
  unfolding request ask or_fault
  request_answer call s a h = elim (Result-cases (call s.calls)) [
    | inl (b, e) ↦ ground (arith, e, h)
    | inr (x, e) ↦ absurd (ground (arith, e, h))
  ]

  store_ends : (m : GmailMessage) (s : SyncState) → HasFuel (store_message env m) s
  unfolding store_message
  store_ends m s = record { at = (queued_calls _ _ _).1.at }

  on_message_ends :
      (id : String) (r : Result Fault GmailMessage) (s : SyncState)
      → HasFuel (on_message env id r) s
  unfolding on_message
  on_message_ends id (ok m) s = store_ends m s
  on_message_ends id (err f) s = record { at = go f.kind refl }
    where
      go : (k : FaultKind) → f.kind ≡ k → (on_message env id (err f) s).0 ≢ err out_of_fuel
      go message_not_found e = rw (e, on_message) (λ h. absurd (cc))
      go _ e = rw (e, on_message) (λ h. absurd (cc))

  refresh_ends : (id : String) (s : SyncState) → HasFuel (refresh_message env id) s
  unfolding refresh_message ask
  refresh_ends id s = record { at = (on_message_ends id (env.client.get_message s.calls id) _).at }

  pub refresh_all_ends : (ids : List String) (s : SyncState) → HasFuel (refresh_all env ids) s
  unfolding refresh_all
  refresh_all_ends [] s = Avoids-pure tt s
  refresh_all_ends (id ∷ ids) s =
      Avoids-then (refresh_message env id) _ s (refresh_ends id s)
        (λ _ e. refresh_all_ends ids (refresh_message env id s).1)

  pub visit_ends :
      (refresh : Bool) (existing ids seen : List String) (s : SyncState)
      → HasFuel (visit env refresh existing ids seen) s
  unfolding visit
  visit_ends refresh existing [] seen s = Avoids-pure seen s
  visit_ends refresh existing (id ∷ ids) seen s =
      Avoids-if (not refresh && contains existing id) _ _ s
        (λ _. visit_ends refresh existing ids (set_add id seen) s)
        (λ _.
          Avoids-then (refresh_message env id) _ s (refresh_ends id s)
            (λ _ e. visit_ends refresh existing ids (set_add id seen) (refresh_message env id s).1))

  pub reconcile_ends : (ids seen : List String) (s : SyncState) → HasFuel (reconcile env ids seen) s
  unfolding reconcile
  reconcile_ends [] seen s = Avoids-pure tt s
  reconcile_ends (id ∷ ids) seen s =
      Avoids-if (contains seen id) _ _ s (λ _. reconcile_ends ids seen s)
        (λ _.
          Avoids-then (refresh_message env id) _ s (refresh_ends id s)
            (λ _ e. reconcile_ends ids seen (refresh_message env id s).1))

  pub import_state_ends :
      (state : Option (String × Bool)) (existing : List String) (s : SyncState)
      → HasFuel (import_state env state existing) s
  unfolding import_state
  import_state_ends (some state) existing s = Avoids-pure state s
  import_state_ends none existing s =
      Avoids-then (request env env.client.profile) (new_checkpoint env (not (is_empty existing))) s
        (request_ends env.client.profile s)
        (λ baseline e.
          checkpoint_ends (not (is_empty existing)) baseline (request env env.client.profile s).1)
    where
      checkpoint_ends :
          (refresh : Bool) (baseline : Option String) (t : SyncState)
          → HasFuel (new_checkpoint env refresh baseline) t
      checkpoint_ends refresh none t = record { at = λ h. absurd (cc) }
      checkpoint_ends refresh (some b) t = record {
        at = elim (Bool-cases (truthy b)) [
          | inl full ↦ rw (full, new_checkpoint) (λ h. absurd (cc))
          | inr empty ↦ rw (empty, new_checkpoint) (λ h. absurd (cc))
        ];
      }
