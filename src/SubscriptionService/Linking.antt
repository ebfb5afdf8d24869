-- ===== src/SubscriptionService/Linking.antt =====
-- `addAccount`, `deleteAccount` and `resetAccountPassword` of subscriptions.service.ts: the external
-- accounts that are linked to one subscription.
pub mod Limits
use home_gate.Common.{
  ℕ, String, Bool, true, not, ◌&&◌, Option, none, some, [], ◌∷◌, leb, ◌==◌, if◌then◌else◌, holds,
  nat_eq, string_eq,
}
use home_gate.Model.{is_managed, Service, Subscription, ExternalUserAccount, subscription_changed}
use home_gate.Effects.{
  M, pure, gets, throw_if, expect, bad_request, forbidden, not_found, conflict,
  internal_server_error, http, returned, threw, ◌>>=◌, ◌>>◌,
}
use home_gate.Environment.{Environment, emit}
use home_gate.Repositories.Accounts
use home_gate.Repositories.Services
use home_gate.Provisioners
use home_gate.Provisioners.Managed.{message}
use home_gate.UserService
use home_gate.UserService.{UserResponse}
use home_gate.SubscriptionService.{
  get_raw_by_id, get_account_cap, is_currently_active, build_lifecycle_context,
}
use home_gate.SubscriptionService.Responses.{SubscriptionResponse, get_by_id}

-- SubscriptionAddAccountRequestDto
pub record AddAccountRequest : Type 0 where
  pub service_username : Option String
  pub service_password : Option String
  pub email : Option String

module _ (env : Environment) where
  -- `if (subscription.userId !== currentUserId) …`: another user must be an administrator.
  unfoldable pub assert_owner_or_admin : Subscription → String → String → M (Unit {0})
  assert_owner_or_admin s current_user_id text w =
      throw_if
        (not (s.user_id == current_user_id)
          && not (
              holds (λ (u : UserResponse). u.is_admin)
                (UserService.get_user_by_id env current_user_id w)))
        (http forbidden text) w

  unfoldable pub find_service : Subscription → M Service
  find_service s w =
      expect (Services.find_by_id env s.service_id w) (http bad_request "Service does not exist") w

  unfoldable pub find_user : String → M UserResponse
  find_user user_id w =
      expect (UserService.get_user_by_id env user_id w) (http bad_request "User does not exist") w

  unfoldable pub assert_can_add_account : Subscription → Service → M ℕ
  assert_can_add_account s service w =
      let cap = get_account_cap env s.user_id service.id w in
      if leb cap (Accounts.count_by_subscription_id env s.id w)
      then threw
          (http conflict (
            message (
              "Subscription already has the maximum allowed number of accounts ("
              ∷ env.number_to_string cap
              ∷ ")"
              ∷ [])))
          w
      else returned cap w

  -- The body of the `try` of `addAccount`.
  unfoldable pub link_account :
      String → Subscription → Service → UserResponse → AddAccountRequest → M SubscriptionResponse
  link_account subscription_id s service user request = do
    ctx ← Provisioners.validate env (record {
      user_id = s.user_id;
      user_email = user.email;
      service = service;
      username = request.service_username;
      password = request.service_password;
      email = request.email;
      existing_subscription = some s;
      existing_account = none;
      reusable_account = none;
    })
    provisioned ← Provisioners.provision env ctx
    account ← expect provisioned (http internal_server_error "No account was provisioned")
    Accounts.create env s.id s.user_id s.service_id account
    emit (subscription_changed s.user_id)
    get_by_id env subscription_id

  unfoldable pub add_account : String → AddAccountRequest → String → M SubscriptionResponse
  unfolding assert_owner_or_admin find_service find_user assert_can_add_account link_account
      get_raw_by_id
  add_account subscription_id request current_user_id = do
    s ← get_raw_by_id env subscription_id
    assert_owner_or_admin s current_user_id "You can only add accounts to your own subscription"
    now ← gets (λ w. w.now)
    throw_if (not (is_currently_active now s)) (http conflict "Subscription is not active")
    service ← find_service s
    throw_if (not (is_managed service.account_type))
        (http bad_request "Only managed services can have multiple linked accounts")
    assert_can_add_account s service
    user ← find_user s.user_id
    link_account subscription_id s service user request

  -- `!account || account.subscriptionId !== subscription.id`
  unfoldable pub find_linked : Subscription → String → M ExternalUserAccount
  find_linked s account_id w =
      let absent = http not_found "Linked account not found for this subscription" in
      elim (Accounts.find_by_id env account_id w) [
        | none ↦ threw absent w
        | some account ↦
            if not (account.subscription_id == s.id) then threw absent w else returned account w
      ]

  pub reset_account_password : String → String → String → String → M Bool
  unfolding find_service find_user find_linked get_raw_by_id
  reset_account_password subscription_id current_user_id account_id new_password = do
    s ← get_raw_by_id env subscription_id
    throw_if (not (s.user_id == current_user_id))
        (http forbidden "You can only reset a password on your own subscription")
    service ← find_service s
    throw_if (not (is_managed service.account_type))
        (http bad_request "This subscription has no password to reset")
    account ← find_linked s account_id
    user ← find_user s.user_id
    ctx ← gets (build_lifecycle_context env s service user.email none)
    Provisioners.reset_password env ctx account new_password
    pure true

  -- The body of the `try` of `deleteAccount`.
  unfoldable pub unlink :
      Subscription → Service → UserResponse → ExternalUserAccount → Bool → M Bool
  unlink s service user account deprovision_external = do
    ctx ← gets (build_lifecycle_context env s service user.email (some (account ∷ [])))
    if deprovision_external then Provisioners.deprovision env ctx else pure tt
    Accounts.delete env account.id
    emit (subscription_changed s.user_id)
    pure true

  unfoldable pub delete_account : String → String → String → Bool → M Bool
  unfolding assert_owner_or_admin find_service find_user find_linked unlink get_raw_by_id
  delete_account subscription_id account_id current_user_id deprovision_external = do
    s ← get_raw_by_id env subscription_id
    assert_owner_or_admin s current_user_id
        "You can only delete accounts from your own subscription"
    service ← find_service s
    throw_if (not (is_managed service.account_type))
        (http bad_request "Only managed services have linked accounts to delete")
    account ← find_linked s account_id
    count ← gets (Accounts.count_by_subscription_id env s.id)
    throw_if (leb count 1) (http conflict "Cannot delete the last linked account of a subscription")
    user ← find_user s.user_id
    unlink s service user account deprovision_external
