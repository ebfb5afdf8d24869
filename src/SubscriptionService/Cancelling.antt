-- ===== src/SubscriptionService/Cancelling.antt =====
-- `delete` of subscriptions.service.ts: the immediate cancellation.
pub mod Outcomes
use home_gate.Common.{String, Bool, true, not, ◌&&◌, none, some, [], ◌∷◌, ◌==◌, nat_eq, string_eq}
use home_gate.Model.{
  SubscriptionStatus, FailedOperation, is_referenced, Service, Subscription, of_subscription,
  subscription_changed,
}
use home_gate.Effects.{
  Error, M, pure, throw, gets, throw_if, expect, try_catch, bad_request, conflict, http, ◌>>=◌,
  ◌>>◌,
}
use home_gate.Environment.{Environment, emit}
use home_gate.Repositories.Subscriptions
use home_gate.Repositories.Services
use home_gate.Provisioners
use home_gate.Provisioners.Managed.{message}
use home_gate.UserService
use home_gate.UserService.{UserResponse}
use home_gate.SubscriptionService.{
  get_raw_by_id, is_currently_active, build_lifecycle_context, mark_subscription_failed,
  to_safe_error_message,
}

module _ (env : Environment) where
  -- The body of the `try`.
  unfoldable pub cancel : Subscription → Service → UserResponse → M Bool
  cancel s service user = do
    Subscriptions.update env (record (of_subscription s.user_id s.service_id) {
      status = some SubscriptionStatus.cancelling;
    })
    ctx ← gets (build_lifecycle_context env s service user.email none)
    Provisioners.deprovision env ctx
    Subscriptions.delete env s.user_id s.service_id
    emit (subscription_changed user.id)
    pure true

  unfoldable pub fail_cancellation : Subscription → Error → M Bool
  fail_cancellation s e = do
    mark_subscription_failed env s.user_id s.service_id (to_safe_error_message e)
        FailedOperation.cancellation
    throw e

  unfoldable pub delete : String → String → M Bool
  unfolding cancel fail_cancellation get_raw_by_id
  delete subscription_id current_user_id = do
    s ← get_raw_by_id env subscription_id
    found_user ← gets (UserService.get_user_by_id env s.user_id)
    found_current ← gets (UserService.get_user_by_id env current_user_id)
    let no_user =
        http bad_request (message ("User does not exist, userId: " ∷ current_user_id ∷ []))
    user ← expect found_user no_user
    current_user ← expect found_current no_user
    throw_if (not current_user.is_admin && not (current_user_id == s.user_id))
        (http bad_request "A non-admin user cannot delete a subscription for another user.")
    found_service ← gets (Services.find_by_id env s.service_id)
    service ← expect found_service (http bad_request "Service does not exist")
    throw_if (is_referenced service.account_type) (
        http bad_request
          "Unsubscribe from the account source service to remove access to this service.")
    now ← gets (λ w. w.now)
    throw_if (not (is_currently_active now s))
        (http conflict "User is not subscribed to the service")
    try_catch (cancel s service user) (fail_cancellation s)
