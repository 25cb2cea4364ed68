-- ===== src/Saas/Hierarchy.antt =====
-- Who may change whom, over sequences of requests.
use mail_control.Base.{
  ℕ, ◌≡◌, String, Bool, true, List, [], ◌∷◌, arith, refl, leb, ◌==◌, ◌∙◌, ◌||◌, append-nil,
  filter_by, find_first, filter_by-append, filter_by-transfer, find_first_passes,
  filter_by-update_first, Option-cases, inl, inr, not, All,
}
use mail_control.Identity.Models.{owner, User, TextOps, same_role}
use mail_control.Identity.Roles.{
  Principal, require_role, validate_managed_role, validate_managed_user, rank,
}
use mail_control.Saas.Limits.{
  EmailsAreUnique, create_user-EmailsAreUnique, update_user-EmailsAreUnique,
}
use mail_control.Saas.{
  Workspace, CreateWorkspaceUser, UpdateWorkspaceUser, create_user, update_user, is_user, patched,
  new_user,
}

-- A user whose role is not below the principal's, or who belongs to another workspace.
abbrev pub out_of_reach : Principal → User → Bool
out_of_reach p u = leb (rank p.user.role) (rank u.role) || not (u.tenant_id == p.claims.tenant_id)

pub data Request : Type 0 where
  create : Principal → CreateWorkspaceUser → Request
  update : Principal → ℕ → UpdateWorkspaceUser → Request

abbrev pub sender : Request → Principal
sender (create p form) = p
sender (update p id form) = p

module _ (text : TextOps) (hash_password : String → String) where
  create_keeps_others :
      (p : Principal) (form : CreateWorkspaceUser) (w : Workspace)
      → filter_by (out_of_reach p) (create_user text hash_password p form w).1.users
        ≡ filter_by (out_of_reach p) w.users
  unfolding create_user require_role validate_managed_role
  create_keeps_others p form w = ground (
    arith,
    filter_by-append (out_of_reach p) w.users
        (new_user text hash_password p.claims.tenant_id form w.next_id ∷ []),
    append-nil (filter_by (out_of_reach p) w.users),
  )

update_keeps_others :
    (id : ℕ) (p : Principal) (form : UpdateWorkspaceUser) (w : Workspace)
    → filter_by (out_of_reach p) (update_user id p form w).1.users
      ≡ filter_by (out_of_reach p) w.users
unfolding update_user require_role validate_managed_role validate_managed_user
update_keeps_others id p form w =
    elim (Option-cases (find_first (is_user p.claims.tenant_id id) w.users)) [
      | inl missing ↦ ground arith
      | inr (u, e) ↦ ground (
        arith,
        find_first_passes (is_user p.claims.tenant_id id) u w.users,
        filter_by-update_first (is_user p.claims.tenant_id id) (out_of_reach p) (patched form) u
            w.users,
      )
    ]

pub owner_rank :
    (u : User) (p : Principal) → same_role u.role owner ≡ true → out_of_reach p u ≡ true
owner_rank u p h = ground arith

module _ (text : TextOps) (hash_password : String → String) where
  pub serve : Request → Workspace → Workspace
  serve (create p form) w = (create_user text hash_password p form w).1
  serve (update p id form) w = (update_user id p form w).1

  serve_keeps_others :
      (r : Request) (w : Workspace)
      → filter_by (out_of_reach (sender r)) (serve r w).users
        ≡ filter_by (out_of_reach (sender r)) w.users
  unfolding serve
  serve_keeps_others (create p form) w = create_keeps_others text hash_password p form w
  serve_keeps_others (update p id form) w = update_keeps_others id p form w

  pub serve_all : List Request → Workspace → Workspace
  serve_all [] w = w
  serve_all (r ∷ rs) w = serve_all rs (serve r w)

  -- Users that no sender of the requests can reach, since their roles are not below the senders'
  -- or they belong to other workspaces, are left exactly as they were, and none is added.
  pub serve_all_keeps_others :
      (q : User → Bool) (rs : List Request) (w : Workspace)
      → All (λ r. (u : User) → q u ≡ true → out_of_reach (sender r) u ≡ true) rs
      → filter_by q (serve_all rs w).users ≡ filter_by q w.users
  unfolding serve_all
  serve_all_keeps_others q [] w h = refl
  serve_all_keeps_others q (r ∷ rs) w h =
      serve_all_keeps_others q rs (serve r w) h.1
      ∙ filter_by-transfer q (out_of_reach (sender r)) h.0 (serve r w).users w.users
          (serve_keeps_others r w)

  owners_out_of_reach :
      (rs : List Request)
      → All (λ r. (u : User) → same_role u.role owner ≡ true → out_of_reach (sender r) u ≡ true) rs
  owners_out_of_reach [] = tt
  owners_out_of_reach (r ∷ rs) = (λ u h. owner_rank u (sender r) h, owners_out_of_reach rs)

  -- Whatever is requested, by whomever, the owners of all workspaces stay exactly as they are.
  pub serve_all_keeps_owners :
      (rs : List Request) (w : Workspace)
      → filter_by (λ u. same_role u.role owner) (serve_all rs w).users
        ≡ filter_by (λ u. same_role u.role owner) w.users
  serve_all_keeps_owners rs w =
      serve_all_keeps_others (λ u. same_role u.role owner) rs w (owners_out_of_reach rs)

  serve-EmailsAreUnique :
      (r : Request) (w : Workspace) → EmailsAreUnique w → EmailsAreUnique (serve r w)
  unfolding serve
  serve-EmailsAreUnique (create p form) w h =
      create_user-EmailsAreUnique text hash_password p form w h
  serve-EmailsAreUnique (update p id form) w h = update_user-EmailsAreUnique id p form w h

  -- Whatever is requested, no workspace ever has two users with one normalized address.
  pub serve_all-EmailsAreUnique :
      (rs : List Request) (w : Workspace) → EmailsAreUnique w → EmailsAreUnique (serve_all rs w)
  unfolding serve_all
  serve_all-EmailsAreUnique [] w h = h
  serve_all-EmailsAreUnique (r ∷ rs) w h =
      serve_all-EmailsAreUnique rs (serve r w) (serve-EmailsAreUnique r w h)
