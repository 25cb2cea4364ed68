-- ===== src/Tests/Saas.antt =====
-- A workspace with a full plan at concrete requests.
use mail_control.Base.{
  ℕ, ◌≡◌, ◌≤◌, Bool, true, false, none, some, List, [], ◌∷◌, refl, arith, filter_by,
}
use mail_control.Base.Exec.{ok}
use mail_control.Identity.Models.{User, owner, operator, viewer, same_role}
use mail_control.Identity.Roles.{require_role, validate_managed_role}
use mail_control.Saas.Models.{Plan, SubscriptionStatus}
use mail_control.Saas.{
  Workspace, CreateWorkspaceUser, create_user, max_users_of, active_users, new_user,
}
use mail_control.Saas.Limits.{create_user_within_limit, EmailsAreUnique}
use mail_control.Saas.Hierarchy.{
  Request, create, update, serve_all, owner_rank, serve_all_keeps_others, serve_all-EmailsAreUnique,
}
use mail_control.Tests.Identity.{text, ana, principal}

abbrev ben : User
ben = record ana {
  id = 8;
  email_normalized = "ben@example.com";
  role = operator;
  is_active = false;
}

abbrev plan : ℕ → Plan
plan limit = record {
  id = 1;
  code = "starter";
  max_accounts = 1;
  max_users = limit;
  max_messages_month = 100;
}

-- Ana owns the workspace, and Ben is inactive.
abbrev workspace : ℕ → Workspace
workspace limit = record {
  users = ana ∷ ben ∷ [];
  plans = plan limit ∷ [];
  subscriptions =
      record {
        tenant_id = 3;
        plan_id = 1;
        status = SubscriptionStatus.active;
        period_start = 0;
        period_end = 100;
      }
      ∷ [];
  next_id = 9;
}

abbrev eva : CreateWorkspaceUser
eva = record { email = "eva@example.com"; display_name = "Eva"; password = "secret"; role = viewer }

creates :
    (create_user text (λ s. s) principal eva (workspace 2)).0 ≡ ok (new_user text (λ s. s) 3 eva 9)
unfolding create_user require_role validate_managed_role
creates = refl

create_user_within_limit_example :
    (limit : ℕ) × (max_users_of (workspace 2) 3 ≡ some limit)
    × (active_users (create_user text (λ s. s) principal eva (workspace 2)).1 3 ≤ limit)
create_user_within_limit_example =
    create_user_within_limit text (λ s. s) principal eva (workspace 2) creates

abbrev requests : List Request
requests =
    create principal eva
    ∷ update principal 8 (record { role = some viewer; is_active = some true })
    ∷ update principal 7 (record { role = some viewer; is_active = none })
    ∷ []

abbrev is_ana : User → Bool
is_ana u = same_role u.role owner

serve_all_keeps_others_example :
    filter_by is_ana (serve_all text (λ s. s) requests (workspace 2)).users
    ≡ filter_by is_ana (workspace 2).users
serve_all_keeps_others_example =
    serve_all_keeps_others text (λ s. s) is_ana requests (workspace 2)
      (
        λ u h. owner_rank u principal h,
        (λ u h. owner_rank u principal h, (λ u h. owner_rank u principal h, tt)),
      )

abbrev alone : Workspace
alone = record (workspace 2) { users = ana ∷ [] }

alone-EmailsAreUnique : EmailsAreUnique alone
alone-EmailsAreUnique t e = ground arith

serve_all-EmailsAreUnique_example : EmailsAreUnique (serve_all text (λ s. s) requests alone)
serve_all-EmailsAreUnique_example =
    serve_all-EmailsAreUnique text (λ s. s) requests alone alone-EmailsAreUnique
