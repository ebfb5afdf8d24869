-- ===== src/SubscriptionService/Subscribing/Rejections.antt =====
-- What `subscribe` demands before it writes.
use home_gate.Common.{
  String, ◌≡◌, refl, inl, inr, true, false, Option, some, arith, Option-cases, is_some, head?,
}
use home_gate.Model.{is_referenced, Service, Subscription, World}
use home_gate.Effects.{Error, Outcome, final, succeeds, returned, threw}
use home_gate.Environment.{Environment, OnlyCalls}
use home_gate.Access.{can_subscribe, assert_can_subscribe_lem}
use home_gate.Repositories.Subscriptions
use home_gate.Repositories.Services
use home_gate.Provisioners.Writes
use home_gate.Provisioners.Managed.{ProvisionContext}
use home_gate.UserService
use home_gate.UserService.{UserResponse}
use home_gate.SubscriptionService.Subscribing.{
  SubscriptionCreateRequest, is_resubscribe_allowed, prepare, subscribe, context, accounts_of,
}

-- The guards of `subscribe`, with what they have found.
pub record Guarded (env : Environment) (request : SubscriptionCreateRequest) (user_id : String)
    (w : World) (ctx : ProvisionContext) : Type 0 where
  pub known_user : is_some (UserService.get_user_by_id env user_id w) ≡ true
  pub known_service : Services.find_by_id env request.service_id w ≡ some ctx.service
  pub enabled : ctx.service.enabled ≡ true
  pub own_accounts : is_referenced ctx.service.account_type ≡ false
  pub allowed : can_subscribe env user_id ctx.service w ≡ true
  pub existing : ctx.existing_subscription ≡ Subscriptions.find env user_id request.service_id w
  pub ended :
      (s : Subscription) → ctx.existing_subscription ≡ some s → is_resubscribe_allowed s ≡ true
  pub same_user : ctx.user_id ≡ user_id

module _ (env : Environment) (request : SubscriptionCreateRequest) (user_id : String)
    (w : World) where
  abbrev existing : Option Subscription
  existing = Subscriptions.find env user_id request.service_id w

  abbrev first_context : UserResponse → Service → ProvisionContext
  first_context user service =
      context env request user_id user.email service existing (head? (accounts_of env existing w))

  prepare-OnlyCalls_found :
      (user : UserResponse) (service : Service)
      → UserService.get_user_by_id env user_id w ≡ some user
      → Services.find_by_id env request.service_id w ≡ some service
      → OnlyCalls w (final (prepare env request user_id w))
  unfolding prepare
  prepare-OnlyCalls_found user service f g = ground (
    arith,
    assert_can_subscribe_lem env user_id service w,
    Writes.validate-OnlyCalls env w (first_context user service),
  )

  -- Whatever `prepare` answers, no row and no event is written before it.
  pub prepare-OnlyCalls : OnlyCalls w (final (prepare env request user_id w))
  unfolding prepare
  prepare-OnlyCalls = elim (Option-cases (UserService.get_user_by_id env user_id w)) [
    | inl e ↦ ground arith
    | inr (user, f) ↦ elim (Option-cases (Services.find_by_id env request.service_id w)) [
      | inl e ↦ ground arith
      | inr (service, g) ↦ prepare-OnlyCalls_found user service f g
    ]
  ]

  prepare-Guarded_found :
      (user : UserResponse) (service : Service) (ctx : ProvisionContext) (w' : World)
      → UserService.get_user_by_id env user_id w ≡ some user
      → Services.find_by_id env request.service_id w ≡ some service
      → prepare env request user_id w ≡ returned ctx w'
      → Guarded env request user_id w ctx
  unfolding prepare
  prepare-Guarded_found user service ctx w' f g e = ground (
    arith,
    assert_can_subscribe_lem env user_id service w,
    Writes.validate-same env w (first_context user service) ctx w',
  )

  pub prepare-Guarded :
      (ctx : ProvisionContext) (w' : World)
      → prepare env request user_id w ≡ returned ctx w'
      → Guarded env request user_id w ctx
  unfolding prepare
  prepare-Guarded ctx w' e = elim (Option-cases (UserService.get_user_by_id env user_id w)) [
    | inl no_user ↦ absurd (ground arith)
    | inr (user, f) ↦ elim (Option-cases (Services.find_by_id env request.service_id w)) [
      | inl no_service ↦ absurd (ground arith)
      | inr (service, g) ↦ prepare-Guarded_found user service ctx w' f g e
    ]
  ]

  -- Where one of the checks of `subscribe` refuses the request, `subscribe` throws the same error, and
  -- neither a row nor an event is written.
  pub subscribe_refused :
      (e : Error) (w' : World)
      → prepare env request user_id w ≡ threw e w'
      → (subscribe env request user_id w ≡ threw e w') × OnlyCalls w w'
  unfolding subscribe
  subscribe_refused e w' h = (ground arith, ground (arith, prepare-OnlyCalls))

  -- A subscription is granted only if the user exists, the service exists, is enabled and is not
  -- REFERENCED, access is allowed by policy or default, and a subscription that is there already has
  -- ended or failed while it was provisioned.
  pub subscribe-Guarded :
      succeeds (subscribe env request user_id w) ≡ true
      → (ctx : ProvisionContext) × Guarded env request user_id w ctx
  unfolding subscribe
  subscribe-Guarded h = go (prepare env request user_id w) refl
    where
      go :
          (o : Outcome ProvisionContext)
          → prepare env request user_id w ≡ o
          → (ctx : ProvisionContext) × Guarded env request user_id w ctx
      go (returned ctx w') e = (ctx, prepare-Guarded ctx w' e)
      go (threw e' w') e = absurd (ground arith)
