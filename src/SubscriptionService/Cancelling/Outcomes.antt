-- ===== src/SubscriptionService/Cancelling/Outcomes.antt =====
-- What an immediate cancellation demands, and what it leaves.
use home_gate.Common.{
  String, ◌≡◌, refl, ◌⊎◌, inl, inr, true, false, none, some, ◌∷◌, arith, eq_iff, Bool-cases,
  Option-cases, head?,
}
use home_gate.Model.{
  SubscriptionStatus, is_referenced, Service, Subscription, UpdateSubscription, of_subscription,
  World, subscription_changed,
}
use home_gate.Effects.{Outcome, succeeds, returned, threw}
use home_gate.Environment.{Environment, OnlyCalls, emit}
use home_gate.Repositories.Subscriptions
use home_gate.Repositories.Subscriptions.Laws.{
  find-same, find-after_update_self, update_found, IsUniqueKey, find-cascade_delete, delete_found,
  IsUniqueKey-same, IsUniqueKey-after_update,
}
use home_gate.Repositories.Services
use home_gate.Provisioners
use home_gate.Provisioners.Writes.{deprovision-OnlyCalls}
use home_gate.Provisioners.Managed.{LifecycleContext}
use home_gate.UserService
use home_gate.UserService.{UserResponse}
use home_gate.SubscriptionService.{is_currently_active, build_lifecycle_context}
use home_gate.SubscriptionService.Cancelling.{cancel, delete}

-- What `delete` has checked before it changes anything.
pub record Cancellable (env : Environment) (user_id : String) (w : World) (s : Subscription)
    : Type 0 where
  pub by_owner_or_admin :
      ((u : UserResponse) × (UserService.get_user_by_id env user_id w ≡ some u)
        × (u.is_admin ≡ true))
      ⊎ (user_id ≡ s.user_id)
  pub currently_active : is_currently_active w.now s ≡ true
  pub own_accounts :
      (service : Service) × (Services.find_by_id env s.service_id w ≡ some service)
      × (is_referenced service.account_type ≡ false)

module _ (env : Environment) (subscription_id user_id : String) (w : World) where
  -- A subscription is cancelled only by its owner or an administrator, while it is currently active,
  -- and only for a service that is not REFERENCED.
  pub delete-Cancellable :
      succeeds (delete env subscription_id user_id w) ≡ true
      → (s : Subscription) × (Subscriptions.find_by_id env subscription_id w ≡ some s)
        × Cancellable env user_id w s
  unfolding delete
  delete-Cancellable h = elim (Option-cases (Subscriptions.find_by_id env subscription_id w)) [
    | inl e ↦ absurd (ground arith)
    | inr (s, e) ↦ elim (Option-cases (UserService.get_user_by_id env s.user_id w)) [
      | inl f ↦ absurd (ground arith)
      | inr (user, f) ↦ elim (Option-cases (UserService.get_user_by_id env user_id w)) [
        | inl g ↦ absurd (ground arith)
        | inr (current, g) ↦ elim (Option-cases (Services.find_by_id env s.service_id w)) [
          | inl k ↦ absurd (ground arith)
          | inr (service, k) ↦ (
            s,
            e,
            record {
              by_owner_or_admin = elim (Bool-cases current.is_admin) [
                | inl m ↦ inl (current, g, m)
                | inr m ↦ inr (ground (arith, eq_iff user_id s.user_id))
              ];
              currently_active = ground arith;
              own_accounts = (service, k, ground arith);
            },
          )
        ]
      ]
    ]
  ]

module _ (env : Environment) (s : Subscription) (service : Service) (user : UserResponse)
    (w : World) where
  abbrev cancelling : UpdateSubscription
  cancelling = record (of_subscription s.user_id s.service_id) {
    status = some SubscriptionStatus.cancelling;
  }

  abbrev first_context : World → LifecycleContext
  first_context v = build_lifecycle_context env s service user.email none v

  abbrev marked : World
  marked = Subscriptions.after_update env cancelling w

  -- The row that the update to `cancelling` leaves is there when the accounts have been deleted.
  deprovisioned_row :
      (v : World)
      → OnlyCalls marked v
      → Subscriptions.find env s.user_id s.service_id w ≡ some s
      → Subscriptions.find env s.user_id s.service_id v
        ≡ some (Subscriptions.updated w.now cancelling s)
  deprovisioned_row v same f = ground (
    arith,
    find-same env s.user_id s.service_id marked v (ground arith),
    find-after_update_self env s.user_id s.service_id w cancelling s refl refl f,
  )

  deprovisioned_gone :
      (v : World)
      → OnlyCalls marked v
      → Subscriptions.find env s.user_id s.service_id w ≡ some s
      → IsUniqueKey env s.user_id s.service_id w
      → Subscriptions.find env s.user_id s.service_id
          (Subscriptions.cascade_delete env (Subscriptions.updated w.now cancelling s) v)
        ≡ none
  deprovisioned_gone v same f unique =
      find-cascade_delete env s.user_id s.service_id v (Subscriptions.updated w.now cancelling s)
        (deprovisioned_row v same f)
        (IsUniqueKey-same env s.user_id s.service_id marked v (ground arith)
          (IsUniqueKey-after_update env s.user_id s.service_id w cancelling unique))

  cancel_returned :
      (o : Outcome (Unit {0})) (w' : World)
      → Provisioners.deprovision env (first_context marked) marked ≡ o
      → Subscriptions.find env s.user_id s.service_id w ≡ some s
      → IsUniqueKey env s.user_id s.service_id w
      → cancel env s service user w ≡ returned true w'
      → (Subscriptions.find env s.user_id s.service_id w' ≡ none)
        × (head? w'.events ≡ some (subscription_changed user.id))
  unfolding cancel emit
  cancel_returned (threw x v) w' h f unique e =
      absurd (ground (arith, update_found env s.user_id s.service_id w cancelling s refl refl f))
  cancel_returned (returned u v) w' h f unique e =
      let row = Subscriptions.updated w.now cancelling s in
      let same : OnlyCalls marked v =
        ground (arith, deprovision-OnlyCalls env marked (first_context marked)) in
      let w'' = Subscriptions.cascade_delete env row v in
      let after : w' ≡ record w'' { events = subscription_changed user.id ∷ w''.events } = ground (
        arith,
        update_found env s.user_id s.service_id w cancelling s refl refl f,
        delete_found env s.user_id s.service_id v row (deprovisioned_row v same f),
      ) in
      (
        ground (
          arith,
          deprovisioned_gone v same f unique,
          find-same env s.user_id s.service_id w'' w' (ground arith),
        ),
        ground arith,
      )

  -- Where the subscription is stored and no other row has its user and service, a cancellation
  -- that returns leaves nothing stored for them, and the event that was emitted last says that the
  -- user's subscriptions have changed.
  pub cancel-gone :
      (w' : World)
      → Subscriptions.find env s.user_id s.service_id w ≡ some s
      → IsUniqueKey env s.user_id s.service_id w
      → cancel env s service user w ≡ returned true w'
      → (Subscriptions.find env s.user_id s.service_id w' ≡ none)
        × (head? w'.events ≡ some (subscription_changed user.id))
  cancel-gone w' f unique e =
      cancel_returned (Provisioners.deprovision env (first_context marked) marked) w' refl f unique
        e
