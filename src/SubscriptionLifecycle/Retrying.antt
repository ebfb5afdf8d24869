-- ===== src/SubscriptionLifecycle/Retrying.antt =====
-- `retryFailedOperation` and `clearFailure`.
pub mod Outcomes
use home_gate.Common.{
  ℕ, String, Bool, true, false, not, Option, none, some, List, [], ◌∷◌, if◌then◌else◌, holds,
}
use home_gate.Model.{
  SubscriptionStatus, FailedOperation, is_failed, ExternalUserAccount, of_subscription,
}
use home_gate.Effects.{M, ◌>>◌, pure, gets, throw_if, expect, bad_request, conflict, http, ◌>>=◌}
use home_gate.Environment.{Environment}
use home_gate.Repositories.Subscriptions
use home_gate.Repositories.Services
use home_gate.Provisioners
use home_gate.Provisioners.Managed.{LifecycleContext, is_missing}
use home_gate.UserService
use home_gate.UserService.{UserResponse}
use home_gate.SubscriptionService.{build_lifecycle_context}

module _ (env : Environment) where
  pub clear_failure : String → ℕ → SubscriptionStatus → Bool → M (Unit {0})
  clear_failure user_id service_id status is_cancel w =
      (Subscriptions.update env (record (of_subscription user_id service_id) {
        status = some status;
        last_error = some none;
        failed_at = some none;
        failed_operation = some none;
        cancelled_at = if is_cancel then some (some w.now) else none;
      })
          >> pure tt)
        w

  -- The loop that collects the accounts that the vendor still has.
  pub present_accounts : LifecycleContext → List ExternalUserAccount → M (List ExternalUserAccount)
  present_accounts ctx [] = pure []
  present_accounts ctx (account ∷ rest) = do
    status ← Provisioners.get_external_account_status env ctx account
    others ← present_accounts ctx rest
    pure (if is_missing status then others else account ∷ others)

  unfoldable pub retry_cancellation : String → ℕ → LifecycleContext → M Bool
  retry_cancellation user_id service_id ctx = do
    Provisioners.deprovision env ctx
    Subscriptions.delete env user_id service_id
    pure true

  pub retry_expiration : String → ℕ → LifecycleContext → M Bool
  unfolding clear_failure
  retry_expiration user_id service_id ctx = do
    Provisioners.disable env ctx
    clear_failure user_id service_id SubscriptionStatus.expired false
    pure true

  pub retry_sync : String → ℕ → LifecycleContext → M Bool
  unfolding clear_failure present_accounts
  retry_sync user_id service_id ctx = do
    present ← present_accounts ctx ctx.accounts
    elim present [
      | [] ↦ clear_failure user_id service_id SubscriptionStatus.cancelled true
      | a ∷ others ↦
          clear_failure user_id service_id SubscriptionStatus.active false
          >> Provisioners.enable env (record ctx { accounts = a ∷ others })
    ]
    pure true

  -- The body of the `try`; its `catch` logs and throws the error again.
  unfoldable pub retry : FailedOperation → String → ℕ → LifecycleContext → M Bool
  unfolding retry_cancellation retry_expiration retry_sync
  retry FailedOperation.cancellation = retry_cancellation
  retry FailedOperation.expiration = retry_expiration
  retry FailedOperation.sync = retry_sync
  retry FailedOperation.provisioning = retry_sync

  -- The operation that is retried: a missing one and `provisioning` are refused.
  abbrev retryable : Option FailedOperation → Option FailedOperation
  retryable none = none
  retryable (some FailedOperation.provisioning) = none
  retryable (some operation) = some operation

  unfoldable pub retry_failed_operation : String → ℕ → String → M Bool
  unfolding retry
  retry_failed_operation user_id service_id current_user_id = do
    current_user ← gets (UserService.get_user_by_id env current_user_id)
    throw_if (not (holds (λ (u : UserResponse). u.is_admin) current_user))
        (http bad_request "Unauthorized: admin access required to retry a failed operation")
    found ← gets (Subscriptions.find env user_id service_id)
    s ← expect found (http conflict "Account is not in a failed state")
    throw_if (not (is_failed s.status)) (http conflict "Account is not in a failed state")
    operation ←
        expect (retryable s.failed_operation)
          (http bad_request "Use subscribe() to retry failed provisioning")
    found_user ← gets (UserService.get_user_by_id env user_id)
    user ← expect found_user (http bad_request "User does not exist")
    found_service ← gets (Services.find_by_id env service_id)
    service ← expect found_service (http bad_request "Service does not exist")
    ctx ← gets (build_lifecycle_context env s service user.email none)
    retry operation user_id service_id ctx
