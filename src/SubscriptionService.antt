-- ===== src/SubscriptionService.antt =====
-- server/src/api/services/subscriptions.service.ts: what its methods share. Each group of methods
-- has a child module.
pub mod Responses
pub mod Subscribing
pub mod Linking
pub mod Cancelling
pub mod Changing
pub mod Switching
use home_gate.Common.{
  ℕ, String, Bool, ◌&&◌, Option, none, some, List, [], ltb, if◌then◌else◌, holds,
}
use home_gate.Model.{
  SubscriptionStatus, FailedOperation, is_active, is_managed, Service, Subscription,
  ExternalUserAccount, of_subscription, World,
}
use home_gate.Effects.{Error, M, ◌>>◌, pure, expect, not_found, http, plain}
use home_gate.Environment.{Environment}
use home_gate.Repositories.Subscriptions
use home_gate.Repositories.Accounts
use home_gate.Repositories.Policies
use home_gate.Provisioners.Managed.{LifecycleContext}

-- `status === active && !!expiresAt && expiresAt.getTime() > Date.now()`
abbrev pub is_currently_active : ℕ → Subscription → Bool
is_currently_active now s = is_active s.status && holds (λ t. ltb now t) s.expires_at

abbrev pub to_safe_error_message : Error → String
to_safe_error_message (http status text) = text
to_safe_error_message (plain text) = text
to_safe_error_message _ = "Unknown subscription error"

module _ (env : Environment) where
  -- Of the given time, or of the current one.
  abbrev pub get_default_expiration_date : ℕ → ℕ
  get_default_expiration_date start = env.add_days 30 start

  unfoldable pub get_raw_by_id : String → M Subscription
  get_raw_by_id id w =
      expect (Subscriptions.find_by_id env id w) (http not_found "Subscription not found") w

  -- `policy?.accountsPerService ?? 1`
  unfoldable pub get_account_cap : String → ℕ → World → ℕ
  get_account_cap user_id service_id w = elim (Policies.find env user_id service_id w) [
    | none ↦ 1
    | some policy ↦ policy.accounts_per_service
  ]

  unfoldable pub build_lifecycle_context :
      Subscription → Service → String → Option (List ExternalUserAccount) → World → LifecycleContext
  build_lifecycle_context s service email accounts w = record {
    user_id = s.user_id;
    email = email;
    service = service;
    subscription = s;
    accounts = elim accounts [
      | some given ↦ given
      | none ↦
          if is_managed service.account_type
          then Accounts.find_by_subscription_id env s.id w
          else []
    ];
  }

  unfoldable pub mark_subscription_failed : String → ℕ → String → FailedOperation → M (Unit {0})
  mark_subscription_failed user_id service_id last_error failed_operation w =
      (Subscriptions.update env (record (of_subscription user_id service_id) {
        status = some SubscriptionStatus.failed;
        failed_at = some (some w.now);
        failed_operation = some (some failed_operation);
        last_error = some (some last_error);
      })
          >> pure tt)
        w
