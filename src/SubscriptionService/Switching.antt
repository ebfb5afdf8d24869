-- ===== src/SubscriptionService/Switching.antt =====
-- `setDisabledStatus` of subscriptions.service.ts: an administrator disables or enables a
-- subscription.
pub mod Outcomes
pub mod Enabling
pub mod Settled
use home_gate.Common.{ℕ, String, Bool, true, not, ◌&&◌, none, some, [], ◌∷◌, if◌then◌else◌}
use home_gate.Model.{
  SubscriptionStatus, FailedOperation, is_disabled, ExternalUserAccount, of_subscription,
  subscription_changed,
}
use home_gate.Effects.{
  Error, M, ◌>>◌, pure, throw, gets, throw_if, expect, try_catch, for_each, bad_request, conflict,
  http, ◌>>=◌,
}
use home_gate.Environment.{Environment, emit}
use home_gate.Cascade.{on_deactivated, on_reactivated}
use home_gate.Repositories.Subscriptions
use home_gate.Repositories.Accounts
use home_gate.Repositories.Services
use home_gate.Provisioners
use home_gate.Provisioners.Managed.{LifecycleContext, is_missing, message}
use home_gate.UserService
use home_gate.SubscriptionService.{
  is_currently_active, build_lifecycle_context, mark_subscription_failed, to_safe_error_message,
}

module _ (env : Environment) where
  -- One round of the loop that drops the rows whose account is gone.
  pub drop_stale : LifecycleContext → ExternalUserAccount → M (Unit {0})
  drop_stale ctx account = do
    status ← Provisioners.get_external_account_status env ctx account
    if is_missing status then Accounts.delete env account.id else pure tt

  -- The body of the `try`; `disable` is `isDisableOperation`.
  unfoldable pub switch : Bool → SubscriptionStatus → String → ℕ → LifecycleContext → M Bool
  unfolding drop_stale
  switch disable status user_id service_id ctx = do
    Subscriptions.update env (record (of_subscription user_id service_id) {
      status = some (if disable then SubscriptionStatus.disabling else SubscriptionStatus.enabling);
    })
    if disable
        then Provisioners.disable env ctx
        else (for_each (drop_stale ctx) ctx.accounts >> Provisioners.enable env ctx)
    updated ← Subscriptions.update env (record (of_subscription user_id service_id) {
      status = some status;
      last_error = some none;
    })
    elim updated [
      | none ↦ pure tt
      | some s ↦
          if disable then on_deactivated env s SubscriptionStatus.disabled else on_reactivated env s
    ]
    emit (subscription_changed user_id)
    pure true

  unfoldable pub fail_switch : String → ℕ → Error → M Bool
  fail_switch user_id service_id e = do
    mark_subscription_failed env user_id service_id (to_safe_error_message e)
        FailedOperation.cancellation
    throw e

  unfoldable pub set_disabled_status : String → ℕ → SubscriptionStatus → M Bool
  unfolding switch fail_switch
  set_disabled_status user_id service_id status = do
    found_user ← gets (UserService.get_user_by_id env user_id)
    user ←
        expect found_user
          (http bad_request (message ("User does not exist, userId: " ∷ user_id ∷ [])))
    found_service ← gets (Services.find_by_id env service_id)
    service ← expect found_service (http bad_request "Service does not exist")
    found ← gets (Subscriptions.find env user_id service_id)
    s ← expect found (http conflict "User is not subscribed to the service")
    now ← gets (λ w. w.now)
    throw_if (is_disabled status && not (is_currently_active now s))
        (http conflict "User account is not currently active")
    throw_if (not (is_disabled status) && not (is_disabled s.status))
        (http conflict "User account is not currently disabled")
    ctx ← gets (build_lifecycle_context env s service user.email none)
    try_catch (switch (is_disabled status) status user_id service_id ctx)
        (fail_switch user_id service_id)
