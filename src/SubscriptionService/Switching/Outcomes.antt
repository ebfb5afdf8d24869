-- ===== src/SubscriptionService/Switching/Outcomes.antt =====
-- What disabling and enabling demand, and what they leave stored.
use home_gate.SubscriptionService.{is_currently_active, to_safe_error_message}
use home_gate.SubscriptionService.Switching.{switch, set_disabled_status}
use home_gate.Repositories.Subscriptions.Laws.{
  SameSubscriptions, find-same, find-after_update_self, update_found,
}
use home_gate.Cascade.Deactivation.{HasStatus, HasStatus-same, on_deactivated-HasStatus}
use home_gate.Common.{
  ℕ, String, ◌≡◌, refl, inl, inr, true, none, some, arith, if◌then◌else◌, Option-cases,
}
use home_gate.Model.{
  SubscriptionStatus, FailedOperation, is_disabled, Subscription, UpdateSubscription,
  of_subscription, World,
}
use home_gate.Effects.{Error, Outcome, final, succeeds, returned, threw}
use home_gate.Environment.{Environment, OnlyCalls, emit}
use home_gate.Repositories.Subscriptions
use home_gate.Repositories.Services
use home_gate.Provisioners
use home_gate.Provisioners.Writes.{disable-OnlyCalls}
use home_gate.Provisioners.Managed.{LifecycleContext}
use home_gate.Cascade.{on_deactivated}
use home_gate.UserService

module _ (env : Environment) (user_id : String) (service_id : ℕ) (w : World) where
  -- Disabling returns only for a stored subscription that is currently active, and switching to
  -- any other status only for a stored one that is disabled.
  pub set_disabled_status-guards :
      (status : SubscriptionStatus)
      → succeeds (set_disabled_status env user_id service_id status w) ≡ true
      → (s : Subscription) × (Subscriptions.find env user_id service_id w ≡ some s)
        × ((if is_disabled status then is_currently_active w.now s else is_disabled s.status)
            ≡ true)
  unfolding set_disabled_status
  set_disabled_status-guards status h =
      elim (Option-cases (UserService.get_user_by_id env user_id w)) [
        | inl e ↦ absurd (ground arith)
        | inr (user, e) ↦ elim (Option-cases (Services.find_by_id env service_id w)) [
          | inl f ↦ absurd (ground arith)
          | inr (service, f) ↦ elim (Option-cases (Subscriptions.find env user_id service_id w)) [
            | inl g ↦ absurd (ground arith)
            | inr (s, g) ↦ (s, g, ground arith)
          ]
        ]
      ]

  module _ (ctx : LifecycleContext) (s : Subscription)
      (stored : Subscriptions.find env user_id service_id w ≡ some s) where
    abbrev request : SubscriptionStatus → UpdateSubscription
    request status = record (of_subscription user_id service_id) { status = some status }

    abbrev pub marked : World
    marked = Subscriptions.after_update env (request SubscriptionStatus.disabling) w

    abbrev settled : UpdateSubscription
    settled = record (request SubscriptionStatus.disabled) { last_error = some none }

    pub marked_row :
        (v : World)
        → OnlyCalls marked v
        → Subscriptions.find env user_id service_id v
          ≡ some (Subscriptions.updated w.now (request SubscriptionStatus.disabling) s)
    marked_row v same = ground (
      arith,
      find-same env user_id service_id marked v (ground arith),
      find-after_update_self env user_id service_id w (request SubscriptionStatus.disabling) s refl
          refl stored,
    )

    -- What follows the loop over the derived subscriptions leaves the table alone.
    same_after :
        (v : World) (row : Subscription) {before : Subscription} {u : Unit {0}}
        → Subscriptions.find env user_id service_id v ≡ some before
        → Provisioners.disable env ctx marked ≡ returned u v
        → row ≡ Subscriptions.updated v.now settled before
        → SameSubscriptions
            (final (
              on_deactivated env row SubscriptionStatus.disabled
                (Subscriptions.after_update env settled v)))
            (final (switch env true SubscriptionStatus.disabled user_id service_id ctx w))
    unfolding switch emit
    same_after v row {before} f p q = ground (
      arith,
      update_found env user_id service_id w (request SubscriptionStatus.disabling) s refl refl
          stored,
      update_found env user_id service_id v settled before refl refl f,
    )

    -- Where the subscription is stored and its provisioner, called once the row is `disabling`,
    -- disables the accounts without an error, the subscription is stored as `disabled` at the end
    -- of the `try`, whether or not the subscriptions derived from it can all follow.
    pub switch_disabled :
        succeeds (Provisioners.disable env ctx marked) ≡ true
        → HasStatus env user_id service_id SubscriptionStatus.disabled
            (final (switch env true SubscriptionStatus.disabled user_id service_id ctx w))
    unfolding switch emit
    switch_disabled h = go (Provisioners.disable env ctx marked) refl h
      where
        go :
            (o : Outcome (Unit {0}))
            → Provisioners.disable env ctx marked ≡ o
            → succeeds o ≡ true
            → HasStatus env user_id service_id SubscriptionStatus.disabled
                (final (switch env true SubscriptionStatus.disabled user_id service_id ctx w))
        go (threw e v) p k = absurd (ground arith)
        go (returned u v) p k =
            let same : OnlyCalls marked v = ground (arith, disable-OnlyCalls env marked ctx) in
            let before = Subscriptions.updated w.now (request SubscriptionStatus.disabling) s in
            let row = Subscriptions.updated v.now settled before in
            let v' = Subscriptions.after_update env settled v in
            let held : HasStatus env user_id service_id SubscriptionStatus.disabled v' = (
              row,
              find-after_update_self env user_id service_id v settled before refl refl
                  (marked_row v same),
              refl,
            ) in
            let after = on_deactivated env row SubscriptionStatus.disabled v' in
            HasStatus-same env user_id service_id SubscriptionStatus.disabled (final after)
              (final (switch env true SubscriptionStatus.disabled user_id service_id ctx w))
              (same_after v row (marked_row v same) p refl)
              (on_deactivated-HasStatus env user_id service_id SubscriptionStatus.disabled row v'
                held)

    abbrev failure : Error → UpdateSubscription
    failure e = record (request SubscriptionStatus.failed) {
      failed_at = some (some w.now);
      failed_operation = some (some FailedOperation.cancellation);
      last_error = some (some (to_safe_error_message e));
    }
