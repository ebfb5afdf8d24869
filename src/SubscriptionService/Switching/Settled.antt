-- ===== src/SubscriptionService/Switching/Settled.antt =====
-- How `setDisabledStatus` ends, its `catch` included.
use home_gate.Cascade.Returning.{on_deactivated_returned, on_reactivated_returned}
use home_gate.UserService.{UserResponse}
use home_gate.Repositories.Subscriptions.Laws.{
  SameSubscriptions, find-after_update_self, update_found,
}
use home_gate.Provisioners.Writes.{disable-OnlyCalls}
use home_gate.Provisioners.Managed.{LifecycleContext}
use home_gate.Cascade.Deactivation.{HasStatus}
use home_gate.SubscriptionService.Switching.{switch, fail_switch, set_disabled_status}
use home_gate.SubscriptionService.{
  is_currently_active, to_safe_error_message, build_lifecycle_context, mark_subscription_failed,
}
use home_gate.Environment.{Environment, emit, OnlyCalls}
use home_gate.Model.{
  SubscriptionStatus, FailedOperation, is_disabled, Service, Subscription, UpdateSubscription,
  of_subscription, World, subscription_changed,
}
use home_gate.Effects.{Error, Outcome, final, returned, threw}
use home_gate.Common.{
  ℕ, String, ◌≡◌, refl, ap, ◌∙◌, Bool, true, false, none, some, ◌∷◌, arith, if◌then◌else◌,
}
use mathlib.Core.Path.{subst}
use home_gate.UserService
use home_gate.Provisioners
use home_gate.Repositories.Services
use home_gate.Repositories.Subscriptions
use home_gate.SubscriptionService.Switching.Outcomes
use home_gate.SubscriptionService.Switching.Enabling

module _ (env : Environment) (user_id : String) (service_id : ℕ) where
  -- The stored row has failed, with its cancellation as the failed operation and the text of the error.
  abbrev pub IsFailed : Error → World → Type 0
  IsFailed e v =
      (row : Subscription) × (Subscriptions.find env user_id service_id v ≡ some row)
      × (row.status ≡ SubscriptionStatus.failed)
      × (row.failed_operation ≡ some FailedOperation.cancellation)
      × (row.last_error ≡ some (to_safe_error_message e))

  -- The end of the method, by that of what it does at the vendor: it returns true, and the row has
  -- the status, or it throws the same error, and the row has failed.
  abbrev pub Settles : SubscriptionStatus → Outcome (Unit {0}) → Outcome Bool → Type 0
  Settles status (returned u _) o =
      (v : World) × (o ≡ returned true v) × HasStatus env user_id service_id status v
  Settles status (threw e _) o = (v : World) × (o ≡ threw e v) × IsFailed e v

module _ (env : Environment) (user_id : String) (service_id : ℕ) (w : World) (user : UserResponse)
    (service : Service) (s : Subscription)
    (known : UserService.get_user_by_id env user_id w ≡ some user)
    (found : Services.find_by_id env service_id w ≡ some service)
    (stored : Subscriptions.find env user_id service_id w ≡ some s) where
  abbrev ctx : LifecycleContext
  ctx = build_lifecycle_context env s service user.email none w

  abbrev IsStored : World → Type 0
  IsStored v = (row : Subscription) × (Subscriptions.find env user_id service_id v ≡ some row)

  abbrev failure : Error → ℕ → UpdateSubscription
  failure e now = record (of_subscription user_id service_id) {
    status = some SubscriptionStatus.failed;
    failed_at = some (some now);
    failed_operation = some (some FailedOperation.cancellation);
    last_error = some (some (to_safe_error_message e));
  }

  fail_switch_threw :
      (e : Error) (v : World)
      → IsStored v
      → (v' : World) × (fail_switch env user_id service_id e v ≡ threw e v')
        × IsFailed env user_id service_id e v'
  unfolding fail_switch mark_subscription_failed
  fail_switch_threw e v (row, f) = (
    Subscriptions.after_update env (failure e v.now) v,
    ground (arith, update_found env user_id service_id v (failure e v.now) row refl refl f),
    (
      Subscriptions.updated v.now (failure e v.now) row,
      find-after_update_self env user_id service_id v (failure e v.now) row refl refl f,
      refl,
      refl,
      refl,
    ),
  )

  abbrev marking : SubscriptionStatus → UpdateSubscription
  marking status = record (of_subscription user_id service_id) { status = some status }

  enabling_threw :
      (e : Error) (v : World)
      → Enabling.prepare env ctx (Enabling.marked env user_id service_id w ctx s stored) ≡ threw e v
      → switch env false SubscriptionStatus.active user_id service_id ctx w ≡ threw e v
  unfolding switch
  enabling_threw e v p = ground (
    arith,
    update_found env user_id service_id w (marking SubscriptionStatus.enabling) s refl refl stored,
  )

  -- What the `catch` makes of the end of the `try`.
  abbrev attempt : Outcome Bool → Outcome Bool
  attempt (returned b v) = returned b v
  attempt (threw e v) = fail_switch env user_id service_id e v

  -- The method is its `try` and `catch` where the checks pass.
  tried :
      (status : SubscriptionStatus)
      → (if is_disabled status then is_currently_active w.now s else is_disabled s.status) ≡ true
      → set_disabled_status env user_id service_id status w
        ≡ attempt (switch env (is_disabled status) status user_id service_id ctx w)
  unfolding set_disabled_status
  tried status passes = ground arith

  -- Where the `try` throws and the row is still there, the method throws the error again.
  rethrown :
      (status : SubscriptionStatus) (e : Error) (v : World)
      → (if is_disabled status then is_currently_active w.now s else is_disabled s.status) ≡ true
      → switch env (is_disabled status) status user_id service_id ctx w ≡ threw e v
      → IsStored v
      → (v' : World) × (set_disabled_status env user_id service_id status w ≡ threw e v')
        × IsFailed env user_id service_id e v'
  rethrown status e v passes p row =
      let (v', f, g) = fail_switch_threw e v row in
      (v', tried status passes ∙ (ap attempt p ∙ f), g)

  -- Where the `try` returns, so does the method.
  done :
      (status : SubscriptionStatus) (v : World)
      → (if is_disabled status then is_currently_active w.now s else is_disabled s.status) ≡ true
      → switch env (is_disabled status) status user_id service_id ctx w ≡ returned true v
      → HasStatus env user_id service_id status
          (final (switch env (is_disabled status) status user_id service_id ctx w))
      → (v' : World) × (set_disabled_status env user_id service_id status w ≡ returned true v')
        × HasStatus env user_id service_id status v'
  done status v passes p held = (
    v,
    tried status passes ∙ ap attempt p,
    subst (λ o. HasStatus env user_id service_id status (final o)) p held,
  )

  disabling_threw :
      (e : Error) (v : World)
      → Provisioners.disable env ctx (Outcomes.marked env user_id service_id w ctx s stored)
        ≡ threw e v
      → switch env true SubscriptionStatus.disabled user_id service_id ctx w ≡ threw e v
  unfolding switch
  disabling_threw e v p = ground (
    arith,
    update_found env user_id service_id w (marking SubscriptionStatus.disabling) s refl refl stored,
  )

  abbrev to_disable : World
  to_disable = Outcomes.marked env user_id service_id w ctx s stored

  abbrev settled : SubscriptionStatus → UpdateSubscription
  settled status = record (marking status) { last_error = some none }

  disabled_returned :
      (u : Unit {0}) (v : World) (row : Subscription)
      → Provisioners.disable env ctx to_disable ≡ returned u v
      → Subscriptions.find env user_id service_id v ≡ some row
      → (v' : World) × (switch env true SubscriptionStatus.disabled user_id service_id ctx w
          ≡ returned true v')
  unfolding switch emit
  disabled_returned u v row p f =
      let request = settled SubscriptionStatus.disabled in
      let (x, g) =
        on_deactivated_returned env (Subscriptions.updated v.now request row)
          SubscriptionStatus.disabled (Subscriptions.after_update env request v) in
      (
        record x { events = subscription_changed user_id ∷ x.events },
        ground (
          arith,
          update_found env user_id service_id w (marking SubscriptionStatus.disabling) s refl refl
              stored,
          update_found env user_id service_id v request row refl refl f,
        ),
      )

  disabling_row : (v : World) → OnlyCalls to_disable v → IsStored v
  disabling_row v same = (_, Outcomes.marked_row env user_id service_id w ctx s stored v same)

  -- Where user, service and subscription are found, disabling a subscription that is currently active
  -- ends as the disabling of its accounts does, which is called once the row is `disabling`: it
  -- returns true, and the row is stored as `disabled`; or it throws the same error, and the row is
  -- stored as failed in its cancellation, with the text of the error. No other error ends it, as the
  -- database answers every query and the derived rows that are changed are there.
  pub set_disabled_status-disabled :
      is_currently_active w.now s ≡ true
      → Settles env user_id service_id SubscriptionStatus.disabled
          (Provisioners.disable env (build_lifecycle_context env s service user.email none w) (
            Subscriptions.after_update env
              (record (of_subscription user_id service_id) {
                status = some SubscriptionStatus.disabling;
              })
              w))
          (set_disabled_status env user_id service_id SubscriptionStatus.disabled w)
  set_disabled_status-disabled current = go (Provisioners.disable env ctx to_disable) refl
    where
      go :
          (o : Outcome (Unit {0}))
          → Provisioners.disable env ctx to_disable ≡ o
          → Settles env user_id service_id SubscriptionStatus.disabled o
              (set_disabled_status env user_id service_id SubscriptionStatus.disabled w)
      go (threw e v) p =
          rethrown SubscriptionStatus.disabled e v current (disabling_threw e v p)
            (disabling_row v (ground (arith, disable-OnlyCalls env to_disable ctx)))
      go (returned u v) p =
          let (row, f) = disabling_row v (ground (arith, disable-OnlyCalls env to_disable ctx)) in
          let (v', g) = disabled_returned u v row p f in
          done SubscriptionStatus.disabled v' current g
            (Outcomes.switch_disabled env user_id service_id w ctx s stored (ground arith))

  abbrev to_enable : World
  to_enable = Enabling.marked env user_id service_id w ctx s stored

  enabled_returned :
      (u : Unit {0}) (v : World) (row : Subscription)
      → Enabling.prepare env ctx to_enable ≡ returned u v
      → Subscriptions.find env user_id service_id v ≡ some row
      → (v' : World) × (switch env false SubscriptionStatus.active user_id service_id ctx w
          ≡ returned true v')
  unfolding switch emit
  enabled_returned u v row p f =
      let request = settled SubscriptionStatus.active in
      let (x, g) =
        on_reactivated_returned env (Subscriptions.updated v.now request row)
          (Subscriptions.after_update env request v) in
      (
        record x { events = subscription_changed user_id ∷ x.events },
        ground (
          arith,
          update_found env user_id service_id w (marking SubscriptionStatus.enabling) s refl refl
              stored,
          update_found env user_id service_id v request row refl refl f,
        ),
      )

  enabling_row : (v : World) → SameSubscriptions to_enable v → IsStored v
  enabling_row v same = (_, Enabling.before_stored env user_id service_id w ctx s stored v same)

  -- Where user, service and subscription are found, enabling a subscription that is disabled ends as
  -- the preparation at the vendor does, which drops the rows of vanished accounts and enables the
  -- others once the row is `enabling`: it returns true, and the row is stored as `active`; or it
  -- throws the same error, and the row is stored as failed in its cancellation, with the text of the
  -- error. No other error ends it, as the database answers every query and the derived rows that are
  -- changed are there.
  pub set_disabled_status-enabled :
      is_disabled s.status ≡ true
      → Settles env user_id service_id SubscriptionStatus.active
          (Enabling.prepare env (build_lifecycle_context env s service user.email none w) (
            Subscriptions.after_update env
              (record (of_subscription user_id service_id) {
                status = some SubscriptionStatus.enabling;
              })
              w))
          (set_disabled_status env user_id service_id SubscriptionStatus.active w)
  set_disabled_status-enabled off = go (Enabling.prepare env ctx to_enable) refl
    where
      go :
          (o : Outcome (Unit {0}))
          → Enabling.prepare env ctx to_enable ≡ o
          → Settles env user_id service_id SubscriptionStatus.active o
              (set_disabled_status env user_id service_id SubscriptionStatus.active w)
      go (threw e v) p =
          rethrown SubscriptionStatus.active e v off (enabling_threw e v p)
            (enabling_row v (ground (arith, Enabling.prepare-SameSubscriptions env ctx to_enable)))
      go (returned u v) p =
          let (row, f) =
            enabling_row v (ground (arith, Enabling.prepare-SameSubscriptions env ctx to_enable)) in
          let (v', g) = enabled_returned u v row p f in
          done SubscriptionStatus.active v' off g
            (Enabling.switch_enabled env user_id service_id w ctx s stored (ground arith))
