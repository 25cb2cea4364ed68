-- ===== src/Saas/Limits.antt =====
-- How many active users a workspace may have, and addresses that no two of its users share.
use mail_control.Base.{
  ℕ, ◌+◌, ◌≤◌, ◌≡◌, String, Bool, true, false, none, some, List, [], ◌∷◌, arith, refl, eq_iff,
  count_if, find_first, update_first, count_if-append, count_if-find_first, count_if-update_first,
  find_first_passes, Option-cases, inl, inr,
}
use mail_control.Base.Exec.{ok, err}
use mail_control.Identity.Models.{User, TextOps, admin}
use mail_control.Identity.Roles.{HttpException, Principal, require_role, validate_managed_user}
use mail_control.Saas.{
  Workspace, CreateWorkspaceUser, UpdateWorkspaceUser, create_user, update_user, max_users_of,
  active_users, is_active_in, has_email, is_user, patched, new_user,
}

-- No two users of a workspace share a normalized address.
abbrev pub EmailsAreUnique : Workspace → Type 0
EmailsAreUnique w = (t : ℕ) (e : String) → count_if (has_email t e) w.users ≤ 1

module _ (text : TextOps) (hash_password : String → String) (p : Principal) where
  -- A created user is counted in its plan: the workspace then has at most the plan's number of
  -- active users.
  pub create_user_within_limit :
      (form : CreateWorkspaceUser) (w : Workspace) {u : User}
      → (create_user text hash_password p form w).0 ≡ ok u
      → (limit : ℕ) × (max_users_of w p.claims.tenant_id ≡ some limit)
        × (active_users (create_user text hash_password p form w).1 p.claims.tenant_id ≤ limit)
  unfolding create_user
  create_user_within_limit form w h = elim (Option-cases (max_users_of w p.claims.tenant_id)) [
    | inl missing ↦ ground arith
    | inr (limit, e) ↦ (
      limit,
      e,
      ground (
        arith,
        count_if-append (is_active_in p.claims.tenant_id) w.users
            (new_user text hash_password p.claims.tenant_id form w.next_id ∷ []),
      ),
    )
  ]

  -- A refused creation changes nothing.
  pub create_user_refused :
      (form : CreateWorkspaceUser) (w : Workspace) {e : HttpException}
      → (create_user text hash_password p form w).0 ≡ err e
      → (create_user text hash_password p form w).1 ≡ w
  unfolding create_user
  create_user_refused form w h = ground arith

  pub create_user-EmailsAreUnique :
      (form : CreateWorkspaceUser) (w : Workspace)
      → EmailsAreUnique w
      → EmailsAreUnique (create_user text hash_password p form w).1
  unfolding create_user
  create_user-EmailsAreUnique form w h t e =
      let tenant_id = p.claims.tenant_id in
      let normalized = text.casefold (text.strip form.email) in
      ground (
        arith,
        h t e,
        eq_iff normalized e,
        count_if-append (has_email t e) w.users
            (new_user text hash_password tenant_id form w.next_id ∷ []),
        count_if-find_first (has_email tenant_id normalized) w.users,
      )

update_first-EmailsAreUnique :
    (q : User → Bool) (form : UpdateWorkspaceUser) (xs : List User) (t : ℕ) (e : String)
    → count_if (has_email t e) (update_first q (patched form) xs) ≡ count_if (has_email t e) xs
update_first-EmailsAreUnique q form [] t e = refl
update_first-EmailsAreUnique q form (x ∷ xs) t e =
    ground (arith, update_first-EmailsAreUnique q form xs t e)

pub update_user-EmailsAreUnique :
    (id : ℕ) (p : Principal) (form : UpdateWorkspaceUser) (w : Workspace)
    → EmailsAreUnique w
    → EmailsAreUnique (update_user id p form w).1
unfolding update_user
update_user-EmailsAreUnique id p form w h t e =
    ground
      (arith, h t e, update_first-EmailsAreUnique (is_user p.claims.tenant_id id) form w.users t e)

-- A refused change of a user changes nothing.
pub update_user_refused :
    (id : ℕ) (p : Principal) (form : UpdateWorkspaceUser) (w : Workspace) {e : HttpException}
    → (update_user id p form w).0 ≡ err e
    → (update_user id p form w).1 ≡ w
unfolding update_user
update_user_refused id p form w h = ground arith

-- Reactivating a user asks for no room in the plan: an inactive user that the principal manages
-- becomes active whatever the limit is, and the count of active users grows by one.
reactivation_ignores_limit :
    (id : ℕ) (p : Principal) (w : Workspace) (u : User)
    → require_role admin p ≡ ok p
    → find_first (is_user p.claims.tenant_id id) w.users ≡ some u
    → validate_managed_user p u ≡ ok tt
    → u.is_active ≡ false
    → let w' = (update_user id p (record { role = none; is_active = some true }) w).1 in
      active_users w' p.claims.tenant_id ≡ active_users w p.claims.tenant_id + 1
unfolding update_user
reactivation_ignores_limit id p w u r f v i = ground (
  arith,
  count_if-update_first (is_user p.claims.tenant_id id) (is_active_in p.claims.tenant_id)
      (patched (record { role = none; is_active = some true })) u w.users,
  find_first_passes (is_user p.claims.tenant_id id) u w.users,
)
