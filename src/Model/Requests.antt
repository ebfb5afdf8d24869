-- ===== src/Model/Requests.antt =====
-- What the services send to the repositories (server/src/types/models) and to the integrations
-- (server/src/types/params/accountIntegration.ts). A field that may be left undefined is an
-- `Option`; a nullable one under it is an `Option (Option A)`.
use home_gate.Common.{ℕ, String, Bool, Option, none}
use home_gate.Model.Enums.{SubscriptionStatus, FailedOperation}

pub record CreateSubscription : Type 0 where
  pub user_id : String
  pub service_id : ℕ
  pub status : SubscriptionStatus
  pub auto_renew : Option Bool
  pub expires_at : Option (Option ℕ)
  pub derived_from_subscription_id : Option (Option String)
  pub provisioned_at : Option (Option ℕ)

pub record UpdateSubscription : Type 0 where
  pub user_id : String
  pub service_id : ℕ
  pub status : Option SubscriptionStatus
  pub auto_renew : Option Bool
  pub derived_from_subscription_id : Option (Option String)
  pub expires_at : Option (Option ℕ)
  pub provisioned_at : Option (Option ℕ)
  pub failed_at : Option (Option ℕ)
  pub cancelled_at : Option (Option ℕ)
  pub last_error : Option (Option String)
  pub failed_operation : Option (Option FailedOperation)

-- `{ userId, serviceId }`, to which each caller adds the fields that it sets.
abbrev pub of_subscription : String → ℕ → UpdateSubscription
of_subscription user_id service_id = record {
  user_id = user_id;
  service_id = service_id;
  status = none;
  auto_renew = none;
  derived_from_subscription_id = none;
  expires_at = none;
  provisioned_at = none;
  failed_at = none;
  cancelled_at = none;
  last_error = none;
  failed_operation = none;
}

pub record ExternalAccountData : Type 0 where
  pub external_account_id : Option String
  pub username : Option String
  pub email : Option String

pub record ApplicationUser : Type 0 where
  pub id : String
  pub username : String
  pub is_active : Bool
  pub is_admin : Bool

-- `GetApplicationUserResult` and `CreateApplicationUserResult`
pub record ApplicationUserResult : Type 0 where
  pub user : Option ApplicationUser
  pub ok : Bool

pub record FilterApplicationUser : Type 0 where
  pub username : Option String
  pub email : Option String
  pub user_service_account_id : Option String

pub record CreateApplicationUser : Type 0 where
  pub username : Option String
  pub password : Option String
  pub email : Option String
  pub display_name : Option String

pub record ApplicationUserRequirements : Type 0 where
  pub username : Bool
  pub password : Bool
  pub email : Bool
  pub display_name : Bool
