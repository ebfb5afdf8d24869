-- ===== src/Model/Records.antt =====
-- server/src/types/models: what the repositories return. A date is its time in milliseconds, and
-- a value that may be null is an `Option`.
use home_gate.Model.Enums.{
  IntegrationProvider, AccountType, SubscriptionStatus, FailedOperation, PolicyEffect, UserStatus,
  InviteRevokedReason, ScheduledTask,
}
use home_gate.Common.{ℕ, String, Bool, Option, List}

pub record User : Type 0 where
  pub id : String
  pub email : String
  pub username : String
  pub first_name : String
  pub last_name : String
  pub is_admin : Bool
  pub status : UserStatus
  pub avatar_url : Option String
  pub created_at : ℕ
  -- A column that UserModel leaves out.
  pub deleted_at : Option ℕ

pub record UserOAuthIdentity : Type 0 where
  pub id : String
  pub user_id : String
  pub provider_id : ℕ
  pub profile_id : String
  pub created_at : ℕ

pub record OAuthProvider : Type 0 where
  pub id : ℕ
  pub name : String
  pub enabled : Bool

-- `payload` is the JSON text of the field `data`.
pub record Session : Type 0 where
  pub id : String
  pub user_id : Option String
  pub sid : String
  pub payload : String
  pub ip_address : Option String
  pub user_agent : Option String
  pub device : Option String
  pub browser : Option String
  pub expires_at : ℕ
  pub created_at : ℕ

pub record Service : Type 0 where
  pub id : ℕ
  pub name : String
  pub slug : String
  pub enabled : Bool
  pub url : Option String
  pub image_url : Option String
  pub account_type : AccountType
  pub integration_provider : Option IntegrationProvider
  pub account_source_service_id : Option ℕ
  pub default_allowed : Bool

pub record Subscription : Type 0 where
  pub id : String
  pub user_id : String
  pub service_id : ℕ
  pub status : SubscriptionStatus
  pub auto_renew : Bool
  pub derived_from_subscription_id : Option String
  pub created_at : ℕ
  pub updated_at : ℕ
  pub expires_at : Option ℕ
  pub provisioned_at : Option ℕ
  pub failed_at : Option ℕ
  pub cancelled_at : Option ℕ
  pub last_error : Option String
  pub failed_operation : Option FailedOperation
  pub retry_count : ℕ

pub record ExternalUserAccount : Type 0 where
  pub id : String
  pub subscription_id : String
  pub user_id : String
  pub service_id : ℕ
  pub external_account_id : Option String
  pub username : Option String
  pub email : Option String
  pub created_at : ℕ
  pub updated_at : ℕ

pub record UserServicePolicy : Type 0 where
  pub id : String
  pub user_id : String
  pub service_id : ℕ
  pub effect : PolicyEffect
  pub accounts_per_service : ℕ
  pub created_by_user_id : Option String
  pub created_at : ℕ

pub record InviteAccount : Type 0 where
  pub id : String
  pub invite_id : String
  pub service_id : ℕ
  pub service_name : String
  pub username : Option String
  pub email : Option String
  pub account_id : Option String

pub record Invite : Type 0 where
  pub id : String
  pub token : String
  pub email : Option String
  pub is_admin : Bool
  pub expires_at : ℕ
  pub created_at : ℕ
  pub used_at : Option ℕ
  pub revoked_at : Option ℕ
  pub revoked_reason : Option InviteRevokedReason
  pub failed_attempts : ℕ
  pub created_by_user_id : Option String
  pub used_by_user_id : Option String
  pub revoked_by_user_id : Option String
  pub accounts : List InviteAccount

pub record TaskConfig : Type 0 where
  pub enabled : Bool
  pub run_on_startup : Bool
  pub cron_expression : String

-- What the row of the system's metadata has of a task: a field may be missing.
pub record StoredTaskConfig : Type 0 where
  pub enabled : Option Bool
  pub run_on_startup : Option Bool
  pub cron_expression : Option String

pub record TaskRun : Type 0 where
  pub id : String
  pub task_name : ScheduledTask
  pub started_at : ℕ
  pub finished_at : ℕ
  pub success : Bool
  pub error_message : Option String

-- A cron job of the scheduler's registry.
pub record CronJob : Type 0 where
  pub name : ScheduledTask
  pub cron_expression : String
  pub is_active : Bool

-- Of a line of the log, what removals read.
pub record Log : Type 0 where
  pub id : String
  pub session_id : Option String
  pub created_at : ℕ
