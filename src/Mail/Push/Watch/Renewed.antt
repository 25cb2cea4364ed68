-- ===== src/Mail/Push/Watch/Renewed.antt =====
-- What a renewal of a Gmail watch leaves.
use mail_control.Base.{◌≡◌, refl, String, true, false, Option, some, [], clip}
use mail_control.Base.Exec.{ok, err}
use mail_control.Mail.Account.{Store, disconnected, mark_reauth_if_current, ProviderError}
use mail_control.Mail.Account.Fence.{mark_paused}
use mail_control.Mail.Push.Watch.{
  GmailWatchState, reauth, other_fault, Renewal, Row, on_fault, renew_row, renew_gmail_watch,
}

-- How a watch that could not be renewed is shown.
pub record IsMarked (status message : String) (row : Row) : Type 0 where
  pub state :
      (w : GmailWatchState) × (row.state ≡ some w)
      × (w.status ≡ status)
      × (w.last_error ≡ some message)
  pub not_counted : row.is_renewed ≡ false

module _ (env : Renewal) where
  -- A round for an account counts it as renewed just when its watch was renewed; an account whose
  -- refused grant is superseded, and one that was paused meanwhile, is not written and nobody is
  -- alerted; every other error is written to the watch's row, a new one if it has none.
  renew_row_outcome :
      (store : Store) (state : Option GmailWatchState)
      → ((w : GmailWatchState)
          → renew_gmail_watch env store.object state ≡ ok w
          → ((renew_row env store state).state ≡ some w)
            × ((renew_row env store state).is_renewed ≡ true))
        × ((message : String)
            → renew_gmail_watch env store.object state ≡ err (other_fault message)
            → IsMarked "error" (clip 2000 message) (renew_row env store state))
        × ((e : ProviderError)
            → renew_gmail_watch env store.object state ≡ err (reauth e)
            → (mark_reauth_if_current store e).1 ≡ true
            → IsMarked "reauth_required" e.message (renew_row env store state))
        × (store.row.status ≡ disconnected
            → (e : ProviderError) → renew_gmail_watch env store.object state ≡ err (reauth e)
            → ((renew_row env store state).store.row ≡ store.row)
              × ((renew_row env store state).notices ≡ []))
  unfolding renew_row on_fault
  renew_row_outcome store state = (
    λ w h. rw (renew_row, h) (refl, refl),
    λ message h. rw (renew_row, h) (record { state = (_, refl, refl, refl); not_counted = refl }),
    λ e h applied.
        rw (renew_row, h)
          (rw (on_fault, applied) (record { state = (_, refl, refl, refl); not_counted = refl })),
    λ paused e h.
        let (same_row, refused) = mark_paused store e paused in
        rw (renew_row, h) (rw (on_fault, refused) (same_row, refl)),
  )
