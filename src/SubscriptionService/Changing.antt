-- ===== src/SubscriptionService/Changing.antt =====
-- `update`, `setAutoRenew`, `renew` and `activateFromPolicy` of subscriptions.service.ts.
pub mod Renewal
use home_gate.Common.{
  ℕ, String, Bool, true, not, ◌&&◌, Option, none, some, ltb, ◌==◌, if◌then◌else◌, is_some, nat_eq,
  string_eq,
}
use home_gate.Model.{
  SubscriptionStatus, is_referenced, Service, Subscription, of_subscription, subscription_changed,
}
use home_gate.Effects.{
  M, pure, gets, throw_if, expect, bad_request, forbidden, http, returned, ◌>>=◌, ◌>>◌,
}
use home_gate.Environment.{Environment, emit}
use home_gate.Cascade.{on_expiry_changed, created_from, refreshed}
use home_gate.Repositories.Subscriptions
use home_gate.Repositories.Services
use home_gate.SubscriptionService.{get_raw_by_id, get_default_expiration_date, is_currently_active}
use home_gate.SubscriptionService.Responses.{SubscriptionResponse, get_by_id, hydrate}
use home_gate.SubscriptionService.Switching.{set_disabled_status}

-- SubscriptionPatchRequestDto
pub record SubscriptionPatchRequest : Type 0 where
  pub enabled : Option Bool
  pub auto_renew : Option Bool

-- `expiresAt && expiresAt.getTime() > Date.now() ? expiresAt : new Date()`
abbrev pub base_date : ℕ → Option ℕ → ℕ
base_date now none = now
base_date now (some t) = if ltb now t then t else now

module _ (env : Environment) where
  abbrev set_auto_renew_of : Subscription → Bool → M (Unit {0})
  set_auto_renew_of s auto_renew = do
    updated ←
        Subscriptions.update env
          (record (of_subscription s.user_id s.service_id) { auto_renew = some auto_renew })
    throw_if (not (is_some updated)) (http bad_request "Failed to update auto-renew")

  pub update : String → SubscriptionPatchRequest → M SubscriptionResponse
  unfolding get_raw_by_id
  update subscription_id patch = do
    throw_if (not (is_some patch.enabled) && not (is_some patch.auto_renew))
        (http bad_request "No fields provided to update")
    s ← get_raw_by_id env subscription_id
    elim patch.enabled [
      | none ↦ pure true
      | some enabled ↦
          set_disabled_status env s.user_id s.service_id
            (if enabled then SubscriptionStatus.active else SubscriptionStatus.disabled)
    ]
    elim patch.auto_renew [ none ↦ pure tt | some auto_renew ↦ set_auto_renew_of s auto_renew ]
    get_by_id env subscription_id

  pub set_auto_renew : String → String → Bool → M SubscriptionResponse
  unfolding get_raw_by_id
  set_auto_renew subscription_id current_user_id auto_renew = do
    s ← get_raw_by_id env subscription_id
    throw_if (not (s.user_id == current_user_id))
        (http forbidden "You can only modify your own subscription")
    found_service ← gets (Services.find_by_id env s.service_id)
    service ← expect found_service (http bad_request "Service does not exist")
    throw_if (is_referenced service.account_type)
        (http bad_request "Manage auto-renew through the account source service.")
    set_auto_renew_of s auto_renew
    get_by_id env subscription_id

  pub renew : String → M SubscriptionResponse
  unfolding get_raw_by_id
  renew subscription_id = do
    s ← get_raw_by_id env subscription_id
    now ← gets (λ w. w.now)
    let new_expires_at = get_default_expiration_date env (base_date now s.expires_at)
    updated ← Subscriptions.update env (record (of_subscription s.user_id s.service_id) {
      expires_at = some (some new_expires_at);
      last_error = some none;
    })
    renewed ← expect updated (http bad_request "Failed to renew subscription")
    on_expiry_changed env renewed
    gets (λ w. hydrate env w renewed)

  -- The last part of `activateFromPolicy`, once the source is known to be active.
  mirror_source : Subscription → String → Service → M (Unit {0})
  mirror_source source user_id service = do
    existing ← gets (Subscriptions.find env user_id service.id)
    now ← gets (λ w. w.now)
    if is_some existing
        then Subscriptions.update env (record (refreshed source service.id) { user_id = user_id })
        else Subscriptions.create env
            (record (created_from source service.id now) { user_id = user_id })
    emit (subscription_changed user_id)

  pub activate_from_policy : String → Service → M (Unit {0})
  unfolding mirror_source
  activate_from_policy user_id service w =
      if not (is_referenced service.account_type)
      then returned tt w
      else elim service.account_source_service_id [
        | none ↦ returned tt w
        | some source_service_id ↦ elim (Subscriptions.find env user_id source_service_id w) [
          | none ↦ returned tt w
          | some source ↦
              if not (is_currently_active w.now source)
              then returned tt w
              else mirror_source source user_id service w
        ]
      ]
