-- ===== src/Cascade/Deactivation.antt =====
-- The status that a subscription keeps while the ones derived from it are changed.
use home_gate.Repositories.Subscriptions.Laws.{
  SameSubscriptions, find-same, find-after_update, update_found, update_absent,
}
use home_gate.Common.{
  ℕ, String, ◌≡◌, refl, inl, inr, none, some, arith, if◌then◌else◌, Option-cases,
}
use home_gate.Model.{
  SubscriptionStatus, is_cancelled, Subscription, UpdateSubscription, of_subscription, World,
}
use home_gate.Effects.{◌>>◌, pure, final, for_each-keeps}
use home_gate.Environment.{Environment}
use home_gate.Repositories.Subscriptions
use home_gate.Repositories.Subscriptions.{is_key, updated, after_update, update}
use home_gate.Cascade.{earliest, find_derived, on_deactivated, on_reactivated}

module _ (env : Environment) (user_id : String) (service_id : ℕ) (status : SubscriptionStatus) where
  -- The subscription of the user to the service is stored with this status.
  abbrev pub HasStatus : World → Type 0
  HasStatus w =
      (s : Subscription) × (Subscriptions.find env user_id service_id w ≡ some s)
      × (s.status ≡ status)

  pub HasStatus-same : (w w' : World) → SameSubscriptions w w' → HasStatus w → HasStatus w'
  HasStatus-same w w' h (s, f, g) =
      (s, ground (arith, f, find-same env user_id service_id w w' h), g)

  -- An update that sets this status, of whatever row.
  pub update-HasStatus :
      (request : UpdateSubscription) (w : World)
      → request.status ≡ some status
      → HasStatus w
      → HasStatus (final (update env request w))
  update-HasStatus request w e (s, h, g) =
      elim (Option-cases (Subscriptions.find env request.user_id request.service_id w)) [
        | inl f ↦ (
          s,
          ground
              (arith, update_absent env request.user_id request.service_id w request refl refl f),
          g,
        )
        | inr (existing, found) ↦ (
          if is_key request.user_id request.service_id s then updated w.now request s else s,
          ground (
            arith,
            find-after_update env user_id service_id w request,
            update_found env request.user_id request.service_id w request existing refl refl found,
          ),
          ground arith,
        )
      ]

  -- Where the source is deactivated with a status, a stored subscription that has this status
  -- keeps it, be it the source or another one, whether the loop over the derived subscriptions
  -- returns or throws.
  pub on_deactivated-HasStatus :
      (source : Subscription) (w : World)
      → HasStatus w
      → HasStatus (final (on_deactivated env source status w))
  unfolding on_deactivated
  on_deactivated-HasStatus source w h =
      for_each-keeps HasStatus
        (λ (s : Subscription) w.
          (Subscriptions.update env (record (of_subscription s.user_id s.service_id) {
            status = some status;
            cancelled_at = if is_cancelled status then some (some w.now) else none;
          })
              >> pure tt)
            w)
        (λ s v k. ground (
          arith,
          update-HasStatus
              (record (of_subscription s.user_id s.service_id) {
                status = some status;
                cancelled_at = if is_cancelled status then some (some v.now) else none;
              })
              v refl k,
        ))
        (find_derived env source.id w) w h

pub on_reactivated-HasStatus :
    (env : Environment) (user_id : String) (service_id : ℕ) (source : Subscription) (w : World)
    → HasStatus env user_id service_id SubscriptionStatus.active w
    → HasStatus env user_id service_id SubscriptionStatus.active
        (final (on_reactivated env source w))
unfolding on_reactivated
on_reactivated-HasStatus env user_id service_id source w h =
    let change : Subscription → UpdateSubscription = λ s.
      record (of_subscription s.user_id s.service_id) {
        status = some SubscriptionStatus.active;
        expires_at = some (earliest s.expires_at source.expires_at);
        cancelled_at = some none;
        last_error = some none;
        failed_at = some none;
      } in
    for_each-keeps (HasStatus env user_id service_id SubscriptionStatus.active)
      (λ s. Subscriptions.update env (change s) >> pure tt)
      (λ s v k. ground (
        arith,
        update-HasStatus env user_id service_id SubscriptionStatus.active (change s) v refl k,
      ))
      (find_derived env source.id w) w h
