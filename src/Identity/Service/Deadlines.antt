-- ===== src/Identity/Service/Deadlines.antt =====
-- The absolute deadline of a session and its chain of rotations: modules/identity/service.py.
use mail_control.Base.{
  ◌+◌, ◌*◌, ℕ, ◌≡◌, List, [], ◌∷◌, arith, find_first, all, all-append, all-update_first, leb, Bool,
  true, ◌∙◌, refl, some, ◌&&◌,
}
use mail_control.Identity.Models.{RefreshSession}
use mail_control.Identity.Tokens.{Settings}
use mail_control.Identity.Database.{Database, Library, revoke}
use mail_control.Identity.Service.{new_session}
use mail_control.Identity.Service.Calls.{Call, signed_in_at, serve_all, IsLasting, serve_all_lasts}

-- A session has one of the starts, and expires no later than the absolute session length after it.
abbrev pub is_bounded : Settings → (ℕ → Bool) → RefreshSession → Bool
is_bounded settings starts s =
    starts s.created_at && leb s.expires_at (s.created_at + settings.session_absolute_hours * 3600)

all_found :
    (q p : RefreshSession → Bool) (xs : List RefreshSession) (s : RefreshSession)
    → all q xs ≡ true
    → find_first p xs ≡ some s
    → q s ≡ true
all_found q p [] s h f = absurd (ground (arith, f))
all_found q p (x ∷ xs) s h f = ground (arith, h, f, all_found q p xs s)

module _ (lib : Library) (settings : Settings) (starts : ℕ → Bool) where
  bounded-IsLasting : IsLasting lib settings (all (is_bounded settings starts)) starts
  bounded-IsLasting = record {
    added = λ user env t xs h s. ground (
      arith,
      all-append (is_bounded settings starts) xs (new_session lib settings user env t ∷ []),
      h,
      s,
    );
    revoked =
        λ p t xs h. all-update_first (is_bounded settings starts) p (revoke t) (λ x. refl) xs ∙ h;
    started = λ p xs s h f. ground (arith, all_found (is_bounded settings starts) p xs s h f);
  }

  -- Let `starts` hold of the times at which the sessions that are there began and at which calls sign
  -- somebody in. Whatever is called, and in whatever order, every session then has such a start, the
  -- sessions that rotations made too, and expires at the latest after the absolute session length
  -- from it.
  pub serve_all_bounded :
      (cs : List Call) (db : Database)
      → all (λ c. all starts (signed_in_at c)) cs ≡ true
      → all (is_bounded settings starts) db.sessions ≡ true
      → all (is_bounded settings starts) (serve_all lib settings cs db).sessions ≡ true
  serve_all_bounded cs db s h =
      serve_all_lasts lib settings (all (is_bounded settings starts)) starts bounded-IsLasting cs db
        s h
