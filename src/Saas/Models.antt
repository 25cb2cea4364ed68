-- ===== src/Saas/Models.antt =====
-- modules/saas/models.py. Ids and times (seconds) are numbers.
use mail_control.Base.{ℕ, String}

pub data SubscriptionStatus : Type 0 where
  trialing active past_due canceled : SubscriptionStatus

pub record Plan : Type 0 where
  pub id : ℕ
  pub code : String
  pub max_accounts : ℕ
  pub max_users : ℕ
  pub max_messages_month : ℕ

pub record TenantSubscription : Type 0 where
  pub tenant_id : ℕ
  pub plan_id : ℕ
  pub status : SubscriptionStatus
  pub period_start : ℕ
  pub period_end : ℕ
