-- ===== src/SubscriptionService/Subscribing.antt =====
-- `subscribe` of subscriptions.service.ts.
pub mod Rejections
pub mod Activating
pub mod Results
use home_gate.Common.{
  ℕ, String, Bool, true, false, not, ◌&&◌, ◌||◌, Option, none, some, List, [], ◌∷◌, if◌then◌else◌,
  is_some, head?,
}
use home_gate.Model.{
  SubscriptionStatus, FailedOperation, is_active, is_failed, is_disabled, is_managed, is_referenced,
  Service, Subscription, ExternalUserAccount, UpdateSubscription, of_subscription,
  ExternalAccountData, World, subscription_changed,
}
use home_gate.Effects.{
  Error, M, ◌>>◌, pure, throw, gets, throw_if, expect, try_catch, bad_request, conflict,
  internal_server_error, http, ◌>>=◌,
}
use home_gate.Environment.{Environment, emit}
use home_gate.Access.{assert_can_subscribe}
use home_gate.Cascade.{on_activated}
use home_gate.Repositories.Subscriptions
use home_gate.Repositories.Accounts
use home_gate.Repositories.Services
use home_gate.Provisioners
use home_gate.Provisioners.Managed.{ProvisionContext}
use home_gate.UserService
use home_gate.SubscriptionService.{
  get_default_expiration_date, mark_subscription_failed, to_safe_error_message,
}
use home_gate.SubscriptionService.Responses.{SubscriptionResponse, compose_subscription_response}

-- SubscriptionCreateRequestDto
pub record SubscriptionCreateRequest : Type 0 where
  pub service_id : ℕ
  pub service_username : Option String
  pub service_password : Option String
  pub confirm_service_password : Option String
  pub email : Option String
  pub auto_renew : Option Bool

unfoldable pub validate_subscription_request : Service → SubscriptionCreateRequest → M (Unit {0})
validate_subscription_request service request = do
  throw_if (is_referenced service.account_type)
      (http bad_request "Subscribe to the account source service to access this service.")
  throw_if
      (is_managed service.account_type
        && (not (is_some request.confirm_service_password)
            || not (is_some request.service_password)
            || not (is_some request.service_username)))
      (http bad_request "Username or password not provided for a managed service.")

abbrev is_provisioning : Option FailedOperation → Bool
is_provisioning (some FailedOperation.provisioning) = true
is_provisioning _ = false

abbrev ended : SubscriptionStatus → Bool
ended SubscriptionStatus.cancelled = true
ended SubscriptionStatus.expired = true
ended _ = false

unfoldable pub is_resubscribe_allowed : Subscription → Bool
is_resubscribe_allowed s =
    if is_active s.status
    then false
    else if is_failed s.status
    then is_provisioning s.failed_operation
    else ended s.status

-- `if (existing && !isResubscribeAllowed(existing)) …`
unfoldable pub check_resubscribe : Option Subscription → M (Unit {0})
unfolding is_resubscribe_allowed
check_resubscribe none = pure tt
check_resubscribe (some existing) =
    if not (is_resubscribe_allowed existing)
    then throw_if (is_disabled existing.status) (http conflict "User is not allowed to subscribe")
      >> throw (http conflict "User already subscribed to the service")
    else pure tt

module _ (env : Environment) where
  unfoldable pub upsert_provisioning :
      Option Subscription → String → ℕ → Option Bool → ℕ → M Subscription
  upsert_provisioning none user_id service_id auto_renew expires_at = do
    created ← Subscriptions.create env (record {
      user_id = user_id;
      service_id = service_id;
      status = SubscriptionStatus.provisioning;
      auto_renew = auto_renew;
      expires_at = some (some expires_at);
      derived_from_subscription_id = none;
      provisioned_at = none;
    })
    expect created (http internal_server_error "Failed to create subscription record")
  upsert_provisioning (some existing) user_id service_id auto_renew expires_at = do
    updated ← Subscriptions.update env (record (of_subscription user_id service_id) {
      status = some SubscriptionStatus.provisioning;
      auto_renew = auto_renew;
      expires_at = some (some expires_at);
      last_error = some none;
      failed_at = some none;
      cancelled_at = some none;
    })
    expect updated (http internal_server_error "Failed to update subscription record")

  pub upsert_external_account : Subscription → ExternalAccountData → M (Unit {0})
  upsert_external_account s account w = elim (Accounts.find_by_subscription_id env s.id w) [
    | existing ∷ _ ↦ (Accounts.update env existing.id account >> pure tt) w
    | [] ↦ (Accounts.create env s.id s.user_id s.service_id account >> pure tt) w
  ]

  abbrev pub store_account : Subscription → Option ExternalAccountData → M (Unit {0})
  store_account s none = pure tt
  store_account s (some account) = upsert_external_account s account

  abbrev pub activation : String → ℕ → ℕ → UpdateSubscription
  activation user_id service_id now = record (of_subscription user_id service_id) {
    status = some SubscriptionStatus.active;
    provisioned_at = some (some now);
    last_error = some none;
    failed_at = some none;
    failed_operation = some none;
  }

  -- The body of the `try`.
  unfoldable pub activate :
      ProvisionContext → Subscription → List ExternalUserAccount → M SubscriptionResponse
  unfolding upsert_external_account
  activate ctx s existing_accounts = do
    account ← Provisioners.provision env ctx
    store_account s account
    now ← gets (λ w. w.now)
    updated ← Subscriptions.update env (activation ctx.user_id ctx.service.id now)
    activated ← expect updated (http internal_server_error "Failed to activate subscription")
    emit (subscription_changed ctx.user_id)
    if is_managed ctx.service.account_type then on_activated env activated else pure tt
    gets (compose_subscription_response env activated existing_accounts account (some ctx.service))

  -- The `catch`: the subscription is marked and the error goes on.
  unfoldable pub fail_provisioning : {A : Type 0} → String → ℕ → Error → M A
  fail_provisioning user_id service_id e = do
    mark_subscription_failed env user_id service_id (to_safe_error_message e)
        FailedOperation.provisioning
    throw e

  abbrev pub accounts_of : Option Subscription → World → List ExternalUserAccount
  accounts_of none w = []
  accounts_of (some existing) w = Accounts.find_by_subscription_id env existing.id w

  -- The `ProvisionContext` of a subscription request.
  abbrev pub context :
      SubscriptionCreateRequest
      → String
      → String
      → Service
      → Option Subscription
      → Option ExternalUserAccount
      → ProvisionContext
  context request user_id email service existing account = record {
    user_id = user_id;
    user_email = email;
    service = service;
    username = request.service_username;
    password = request.service_password;
    email = request.email;
    existing_subscription = existing;
    existing_account = account;
    reusable_account = none;
  }

  -- Everything that `subscribe` does before it writes: the checks, and what they have read.
  unfoldable pub prepare : SubscriptionCreateRequest → String → M ProvisionContext
  unfolding validate_subscription_request check_resubscribe
  prepare request user_id = do
    found_user ← gets (UserService.get_user_by_id env user_id)
    user ← expect found_user (http bad_request "User does not exist")
    found_service ← gets (Services.find_by_id env request.service_id)
    service ← expect found_service (http bad_request "Service not available")
    throw_if (not service.enabled) (http bad_request "Service not available")
    validate_subscription_request service request
    assert_can_subscribe env user_id service
    existing ← gets (Subscriptions.find env user_id request.service_id)
    check_resubscribe existing
    existing_accounts ← gets (accounts_of existing)
    Provisioners.validate env
        (context request user_id user.email service existing (head? existing_accounts))

  unfoldable pub subscribe : SubscriptionCreateRequest → String → M SubscriptionResponse
  unfolding prepare upsert_provisioning activate fail_provisioning
  subscribe request user_id = do
    ctx ← prepare request user_id
    existing_accounts ← gets (accounts_of ctx.existing_subscription)
    now ← gets (λ w. w.now)
    s ←
        upsert_provisioning ctx.existing_subscription user_id request.service_id request.auto_renew
          (get_default_expiration_date env now)
    try_catch (activate ctx s existing_accounts) (fail_provisioning user_id request.service_id)
