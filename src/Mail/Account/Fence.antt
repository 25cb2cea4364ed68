-- ===== src/Mail/Account/Fence.antt =====
-- What a conditional write guarantees: modules/mail/auth_state.py.
use mail_control.Base.{
  String, ◌≡◌, ◌≢◌, refl, ◌⊎◌, Option, none, some, true, false, arith, same, same_self, ==_self,
  same_opt, Bool, ◌==◌, eq_iff, ◌∙◌, subst, inl, inr, Bool-cases, List, [], ◌∷◌, All, or_else,
}
use mail_control.Mail.Account.{
  AccountStatus, Values, Store, ProviderError, connected, syncing, error, reauth_required,
  disconnected, update_account_if_current, update_account_state, mark_reauth_if_current, flush,
  assign, reauth_values, error_text, same_status, allowed, Tracked, MailAccount,
}

same_opt_self :
    {A : Type 0} (eq : A → A → Bool)
    → ((a : A) → eq a a ≡ true)
    → (o : Option A) → same_opt eq o o ≡ true
same_opt_self eq h none = refl
same_opt_self eq h (some a) = h a

same_status_self : (a : AccountStatus) → same_status a a ≡ true
same_status_self connected = refl
same_status_self _ = refl

-- The statuses in which an account may be written: not paused, and out of `reauth_required` only
-- by another write of that status.
abbrev pub MayWrite : AccountStatus → Values → Type 0
MayWrite disconnected v = ⊥
MayWrite reauth_required v = v.new_status ≡ some reauth_required
MayWrite _ v = Unit {0}

may_write : (a : AccountStatus) (v : Values) → allowed a v ≡ true → MayWrite a v
may_write connected v h = tt
may_write syncing v h = tt
may_write error v h = tt
may_write reauth_required v h = ground arith
may_write disconnected v h = ground arith

MayWrite-allowed : (a : AccountStatus) (v : Values) → MayWrite a v → allowed a v ≡ true
MayWrite-allowed connected v h = refl
MayWrite-allowed syncing v h = refl
MayWrite-allowed error v h = refl
MayWrite-allowed reauth_required v h = rw h
MayWrite-allowed disconnected v h = absurd h

-- The row is the account's, it still holds the expected grant, and its status admits the write.
pub record IsCurrent (s : Store) (g : String) (v : Values) : Type 0 where
  pub same_id : s.row.id ≡ s.object.id
  pub same_tenant : s.row.tenant_id ≡ s.object.tenant_id
  pub same_grant : s.row.encrypted_refresh_token ≡ g
  pub may : MayWrite s.row.status v

-- A write that is applied found the row current, and the row then has the new values.
pub update_applied :
    (s : Store) (g : String) (v : Values)
    → (update_account_if_current s g v).1 ≡ true
    → IsCurrent s g v
      × ((update_account_if_current s g v).0.row ≡ record s.row { auth = assign v s.row.auth })
unfolding update_account_if_current
update_applied s g v h = (
  ground (arith, eq_iff s.row.encrypted_refresh_token g, may_write s.row.status v),
  ground (arith),
)

-- A write to a current row is applied.
update_current :
    (s : Store) (g : String) (v : Values)
    → IsCurrent s g v
    → (update_account_if_current s g v).1 ≡ true
unfolding update_account_if_current
update_current s g v h =
    ground (arith, eq_iff s.row.encrypted_refresh_token g, MayWrite-allowed s.row.status v h.may)

-- A write that is not applied leaves the row alone and refreshes the object from it.
update_refused :
    (s : Store) (g : String) (v : Values)
    → (update_account_if_current s g v).1 ≡ false
    → let s' = (update_account_if_current s g v).0 in
      (s'.row ≡ s.row) × (s'.object.auth ≡ s.row.auth)
unfolding update_account_if_current
update_refused s g v h = ground arith

update_clean :
    (s : Store) (g : String) (v : Values)
    → let s' = (update_account_if_current s g v).0 in s'.object.auth ≡ s'.loaded
unfolding update_account_if_current
update_clean s g v = ground arith

flush_clean : (s : Store) → s.object.auth ≡ s.loaded → (flush s).row ≡ s.row
unfolding flush
flush_clean s h =
    rw h
      (simp (same_opt_self same same_self, same_opt_self ◌==◌ ==_self, same_self, same_status_self))

-- Whatever the object held, a flush after a conditional write changes nothing in the row.
pub update-flush :
    (s : Store) (g : String) (v : Values)
    → let s' = (update_account_if_current s g v).0 in (flush s').row ≡ s'.row
update-flush s g v = flush_clean (update_account_if_current s g v).0 (update_clean s g v)

-- A conditional write of some process: its view of the account, and what it asks for.
pub data Request : Type 0 where
  state : Values → Option ProviderError → Request
  reauth : ProviderError → Request

-- The grant that a request presents.
unfoldable pub presents : Tracked → Request → String
presents t (state v none) = t.object.encrypted_refresh_token
presents t (state v (some e)) = or_else e.expected_grant t.object.encrypted_refresh_token
presents t (reauth e) = or_else e.expected_grant t.object.encrypted_refresh_token

perform : Store → Request → Store × Bool
unfolding update_account_state mark_reauth_if_current
perform s (state v e) = update_account_state s v e
perform s (reauth e) = mark_reauth_if_current s e

-- The row after the requests of a list of processes, in the order in which they take effect.
pub perform_all : MailAccount → List (Tracked × Request) → MailAccount
unfolding perform
perform_all r [] = r
perform_all r ((t, q) ∷ rest) = perform_all (perform (record { row = r; tracked = t }) q).0.row rest

-- The account is paused, or a newer authorization has replaced the grant.
abbrev pub IsSuperseded : MailAccount → Tracked × Request → Type 0
IsSuperseded r (t, q) = (r.status ≡ disconnected) ⊎ (presents t q ≢ r.encrypted_refresh_token)

pub update_superseded :
    (s : Store) (g : String) (v : Values)
    → (s.row.status ≡ disconnected) ⊎ (g ≢ s.row.encrypted_refresh_token)
    → (update_account_if_current s g v).0.row ≡ s.row
unfolding update_account_if_current
update_superseded s g v h = ground (arith, eq_iff s.row.encrypted_refresh_token g)

perform_superseded :
    (r : MailAccount) (t : Tracked) (q : Request)
    → IsSuperseded r (t, q)
    → (perform (record { row = r; tracked = t }) q).0.row ≡ r
unfolding perform presents
perform_superseded r t (state v none) h = update_superseded (record { row = r; tracked = t }) _ v h
perform_superseded r t (state v (some e)) h =
    update_superseded (record { row = r; tracked = t }) _ v h
perform_superseded r t (reauth e) h = update_superseded (record { row = r; tracked = t }) _ _ h

-- However many processes write with superseded views, and in whatever order, the row stays as it
-- is: an older operation replaces no new grant and wakes no paused account.
pub perform_all_superseded :
    (r : MailAccount) (ws : List (Tracked × Request))
    → All (IsSuperseded r) ws
    → perform_all r ws ≡ r
unfolding perform_all
perform_all_superseded r [] h = refl
perform_all_superseded r ((t, q) ∷ rest) h =
    rw (perform_superseded r t q h.0) (perform_all_superseded r rest h.1)

-- A conditional write that is applied is what the row says after the next flush.
pub update_row :
    (s : Store) (v : Values) (e : Option ProviderError)
    → (update_account_state s v e).1 ≡ true
    → (flush (update_account_state s v e).0).row ≡ record s.row { auth = assign v s.row.auth }
unfolding update_account_state
update_row s v none h =
    update-flush s s.object.encrypted_refresh_token v
    ∙ (update_applied s s.object.encrypted_refresh_token v h).1
update_row s v (some e) h =
    let g = or_else e.expected_grant s.object.encrypted_refresh_token in
    update-flush s g v ∙ (update_applied s g v h).1

-- A paused account is not marked.
pub mark_paused :
    (store : Store) (e : ProviderError)
    → store.row.status ≡ disconnected
    → ((mark_reauth_if_current store e).0.row ≡ store.row)
      × ((mark_reauth_if_current store e).1 ≡ false)
unfolding mark_reauth_if_current
mark_paused store e h =
    let v = reauth_values (error_text e.message) in
    let g = or_else e.expected_grant store.object.encrypted_refresh_token in
    (
      update_superseded store g v (inl h),
      elim (Bool-cases (update_account_if_current store g v).1) [
        | inl applied ↦
            absurd (subst (λ st. MayWrite st v) h (update_applied store g v applied).0.may)
        | inr refused ↦ refused
      ],
    )
