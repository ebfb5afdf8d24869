-- ===== src/SubscriptionLifecycle/Expiring.antt =====
-- `disableAllForUser` and `processSubscriptions`: the bulk changes of subscriptions.
pub mod Decisions
pub mod Rounds
use home_gate.Common.{
  ℕ, String, Bool, true, false, ◌&&◌, Option, none, some, List, [], ◌∷◌, ltb, ◌==◌, if◌then◌else◌,
  nat_eq, string_eq,
}
use home_gate.Model.{SubscriptionStatus, FailedOperation, is_active, Subscription, of_subscription}
use home_gate.Effects.{
  Error, M, ◌>>◌, pure, gets, expect, try_catch, for_each, bad_request, http, returned, threw,
  ◌>>=◌,
}
use home_gate.Environment.{Environment}
use home_gate.Cascade.{on_expiry_changed, on_deactivated}
use home_gate.Repositories.Subscriptions
use home_gate.Repositories.Services
use home_gate.Provisioners
use home_gate.UserService
use home_gate.UserService.{UserResponse}
use home_gate.SubscriptionService.{
  build_lifecycle_context, get_default_expiration_date, to_safe_error_message,
}

abbrev pub terminal_status : Option ℕ → SubscriptionStatus
terminal_status none = SubscriptionStatus.disabled
terminal_status (some t) = SubscriptionStatus.expired

abbrev pub terminal_error : Option ℕ → Option String
terminal_error none = some "Active subscription had no expiration date"
terminal_error (some t) = none

module _ (env : Environment) where
  -- The `try` of `disableAllForUser`; its `catch` logs and goes on.
  disable_vendor_accounts : UserResponse → Subscription → M (Unit {0})
  disable_vendor_accounts user s w =
      try_catch
        (elim (Services.find_by_id env s.service_id w) [
          | none ↦ pure tt
          | some service ↦
              Provisioners.disable env (build_lifecycle_context env s service user.email none w)
        ])
        (λ e. pure tt) w

  disable_one : UserResponse → Subscription → M (Unit {0})
  unfolding disable_vendor_accounts
  disable_one user s = do
    disable_vendor_accounts user s
    Subscriptions.update env (record (of_subscription s.user_id s.service_id) {
      status = some SubscriptionStatus.disabled;
      auto_renew = some false;
    })
    pure tt

  unfoldable pub disable_all_for_user : String → M (Unit {0})
  unfolding disable_one
  disable_all_for_user user_id w =
      let subscriptions =
        Subscriptions.find_many env (λ s. s.user_id == user_id && is_active s.status) w in
      elim subscriptions [
        | [] ↦ returned tt w
        | s ∷ rest ↦ elim (UserService.get_user_by_id env user_id w) [
          | none ↦ returned tt w
          | some user ↦ for_each (disable_one user) (s ∷ rest) w
        ]
      ]

  unfoldable pub disable_external_account : Subscription → M (Unit {0})
  disable_external_account s = do
    found_service ← gets (Services.find_by_id env s.service_id)
    service ← expect found_service (http bad_request "Service does not exist")
    found_user ← gets (UserService.get_user_by_id env s.user_id)
    user ← expect found_user (http bad_request "User does not exist")
    ctx ← gets (build_lifecycle_context env s service user.email none)
    Provisioners.disable env ctx

  -- An expired subscription that renews itself.
  pub auto_renew : Subscription → ℕ → M (Unit {0})
  auto_renew s expires_at = do
    renewed ← Subscriptions.update env (record (of_subscription s.user_id s.service_id) {
      expires_at = some (some (get_default_expiration_date env expires_at));
      last_error = some none;
      failed_at = some none;
    })
    elim renewed [ none ↦ pure tt | some r ↦ on_expiry_changed env r ]

  unfoldable pub terminate : Subscription → M (Unit {0})
  unfolding disable_external_account
  terminate s = do
    disable_external_account s
    updated ← Subscriptions.update env (record (of_subscription s.user_id s.service_id) {
      status = some (terminal_status s.expires_at);
      last_error = some (terminal_error s.expires_at);
      failed_at = some none;
    })
    elim updated [ none ↦ pure tt | some u ↦ on_deactivated env u (terminal_status s.expires_at) ]

  -- The body of the `try` of `processSubscriptions`.
  unfoldable pub process_one : ℕ → Subscription → M (Unit {0})
  process_one now s = elim s.expires_at [
    | none ↦ terminate s
    | some t ↦ if ltb now t then pure tt else if s.auto_renew then auto_renew s t else terminate s
  ]

  pub fail_expiration : Subscription → Error → M (Unit {0})
  fail_expiration s e w =
      (Subscriptions.update env (record (of_subscription s.user_id s.service_id) {
        status = some SubscriptionStatus.failed;
        last_error = some (some (to_safe_error_message e));
        failed_at = some (some w.now);
        failed_operation = some (some FailedOperation.expiration);
      })
          >> pure tt)
        w

  -- The loop of `processSubscriptions`, with its flag `success`.
  pub process_all : ℕ → Bool → List Subscription → M Bool
  process_all now success [] w = returned success w
  process_all now success (s ∷ rest) w = elim (process_one now s w) [
    | returned _ w' ↦ process_all now success rest w'
    | threw e w' ↦ elim (fail_expiration s e w') [
      | returned _ w'' ↦ process_all now false rest w''
      | threw e' w'' ↦ threw e' w''
    ]
  ]

  unfoldable pub process_subscriptions : M Bool
  process_subscriptions w =
      process_all w.now true (Subscriptions.find_many env (λ s. is_active s.status) w) w
