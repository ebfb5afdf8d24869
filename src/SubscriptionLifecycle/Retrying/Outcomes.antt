-- ===== src/SubscriptionLifecycle/Retrying/Outcomes.antt =====
-- When a failed operation is retried, and what a retry leaves.
use home_gate.Environment.{Environment, OnlyCalls}
use home_gate.SubscriptionLifecycle.Retrying.{retry_cancellation, retry, retry_failed_operation}
use home_gate.Repositories.Subscriptions.Laws.{
  find-same, IsUniqueKey, find-cascade_delete, delete_found, IsUniqueKey-same,
}
use home_gate.Common.{
  ℕ, String, ◌≡◌, refl, ◌≢◌, inl, inr, true, none, some, arith, Option-cases, holds,
}
use home_gate.Model.{SubscriptionStatus, FailedOperation, Subscription, World}
use home_gate.Effects.{Outcome, succeeds, returned, threw}
use home_gate.Repositories.Subscriptions
use home_gate.UserService
use home_gate.Provisioners
use home_gate.Provisioners.Writes.{deprovision-OnlyCalls}
use home_gate.Provisioners.Managed.{LifecycleContext}
use home_gate.UserService.{UserResponse}

module _ (env : Environment) (user_id : String) (service_id : ℕ) (current_user_id : String)
    (w : World) where
  -- A failed operation is retried only for an administrator, on a stored subscription that has failed
  -- in an operation other than its provisioning.
  pub retry_failed_operation-guards :
      succeeds (retry_failed_operation env user_id service_id current_user_id w) ≡ true
      → (holds (λ (u : UserResponse). u.is_admin) (UserService.get_user_by_id env current_user_id w)
          ≡ true)
        × ((s : Subscription) × (Subscriptions.find env user_id service_id w ≡ some s)
            × (s.status ≡ SubscriptionStatus.failed)
            × ((operation : FailedOperation) × (s.failed_operation ≡ some operation)
                × (operation ≢ FailedOperation.provisioning)))
  unfolding retry_failed_operation
  retry_failed_operation-guards h =
      elim (Option-cases (UserService.get_user_by_id env current_user_id w)) [
        | inl e ↦ absurd (ground arith)
        | inr (admin_user, e) ↦ elim (Option-cases (Subscriptions.find env user_id service_id w)) [
          | inl f ↦ absurd (ground arith)
          | inr (s, f) ↦ elim (Option-cases s.failed_operation) [
            | inl g ↦ absurd (ground arith)
            | inr (operation, g) ↦
                (ground arith, (s, f, ground arith, (operation, g, λ p. ground arith)))
          ]
        ]
      ]

module _ (env : Environment) (user_id : String) (service_id : ℕ) (w : World) where
  -- Where the subscription is stored and no other row has its user and service, a retry of a
  -- failed cancellation that returns has deleted it.
  pub retry_cancellation-gone :
      (ctx : LifecycleContext) (s : Subscription) (w' : World)
      → Subscriptions.find env user_id service_id w ≡ some s
      → IsUniqueKey env user_id service_id w
      → retry env FailedOperation.cancellation user_id service_id ctx w ≡ returned true w'
      → Subscriptions.find env user_id service_id w' ≡ none
  unfolding retry retry_cancellation
  retry_cancellation-gone ctx s w' f unique e = go (Provisioners.deprovision env ctx w) refl
    where
      go :
          (o : Outcome (Unit {0}))
          → Provisioners.deprovision env ctx w ≡ o
          → Subscriptions.find env user_id service_id w' ≡ none
      go (threw x v) p = absurd (ground arith)
      go (returned u v) p =
          let same : OnlyCalls w v = ground (arith, deprovision-OnlyCalls env w ctx) in
          let kept : Subscriptions.find env user_id service_id v ≡ some s =
            ground (arith, find-same env user_id service_id w v (ground arith)) in
          let gone =
            find-cascade_delete env user_id service_id v s kept
              (IsUniqueKey-same env user_id service_id w v (ground arith) unique) in
          ground (arith, gone, delete_found env user_id service_id v s kept)
