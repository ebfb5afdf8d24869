-- ===== src/Cascade.antt =====
-- server/src/core/subscriptions/subscriptionCascade.service.ts: a REFERENCED subscription follows the
-- subscription that it is derived from.
pub mod Clamp
pub mod Activation
pub mod Mirrored
pub mod Returning
pub mod Deactivation
pub mod Expiry
pub mod Created
use home_gate.Common.{
  ℕ, String, Bool, true, false, ◌&&◌, Option, none, some, List, [], ◌∷◌, ◌++◌, ltb, leb, ◌==◌,
  if◌then◌else◌, is_value, any, nat_eq, string_eq,
}
use home_gate.Model.{
  SubscriptionStatus, is_active, is_cancelled, is_referenced, Service, Subscription,
  CreateSubscription, UpdateSubscription, of_subscription, World,
}
use home_gate.Effects.{M, ◌>>◌, pure, for_each, returned}
use home_gate.Environment.{Environment}
use home_gate.Repositories.Subscriptions
use home_gate.Repositories.Services

pub record Entitlement : Type 0 where
  pub active : Bool
  pub expires_at : Option ℕ

abbrev pub earliest : Option ℕ → Option ℕ → Option ℕ
earliest none b = b
earliest (some a) none = some a
earliest (some a) (some b) = if leb a b then some a else some b

-- `expiresAt === null || expiresAt.getTime() > Date.now()`
abbrev pub is_unexpired : ℕ → Option ℕ → Bool
is_unexpired now none = true
is_unexpired now (some t) = ltb now t

-- `a?.getTime() === b?.getTime()`
abbrev pub same_time : Option ℕ → Option ℕ → Bool
same_time none none = true
same_time (some a) (some b) = a == b
same_time (some a) none = false
same_time none (some b) = false

-- The fields that a derived subscription takes over from its active source.
abbrev mirrored : Subscription → ℕ → UpdateSubscription
mirrored source service_id = record (of_subscription source.user_id service_id) {
  status = some SubscriptionStatus.active;
  expires_at = some source.expires_at;
  auto_renew = some source.auto_renew;
  derived_from_subscription_id = some (some source.id);
}

abbrev pub created_from : Subscription → ℕ → ℕ → CreateSubscription
created_from source service_id now = record {
  user_id = source.user_id;
  service_id = service_id;
  status = SubscriptionStatus.active;
  expires_at = some source.expires_at;
  auto_renew = some source.auto_renew;
  derived_from_subscription_id = some (some source.id);
  provisioned_at = some (some now);
}

abbrev pub refreshed : Subscription → ℕ → UpdateSubscription
refreshed source service_id = record (mirrored source service_id) {
  cancelled_at = some none;
  last_error = some none;
  failed_at = some none;
}

module _ (env : Environment) where
  pub resolve_effective_entitlement : Subscription → World → Entitlement
  resolve_effective_entitlement s w =
      let own_active = is_active s.status && is_unexpired w.now s.expires_at in
      elim s.derived_from_subscription_id [
        | none ↦ record { active = own_active; expires_at = s.expires_at }
        | some source_id ↦ elim (Subscriptions.find_by_id env source_id w) [
          | none ↦ record { active = false; expires_at = s.expires_at }
          | some source ↦ record {
            active = own_active && is_active source.status && is_unexpired w.now source.expires_at;
            expires_at = earliest s.expires_at source.expires_at;
          }
        ]
      ]

  -- The `if (existing) … else …` of both methods below.
  pub mirror : Subscription → ℕ → M (Unit {0})
  mirror source service_id w = elim (Subscriptions.find env source.user_id service_id w) [
    | some existing ↦ (Subscriptions.update env (refreshed source service_id) >> pure tt) w
    | none ↦ (Subscriptions.create env (created_from source service_id w.now) >> pure tt) w
  ]

  unfoldable pub on_activated : Subscription → M (Unit {0})
  unfolding mirror
  on_activated source w =
      for_each
        (λ (service : Service).
          if is_referenced service.account_type then mirror source service.id else pure tt)
        (Services.find_enabled_by_source env source.service_id w) w

  -- The loop of `onReferencedServiceCreated`; `impacted` is the set of user ids, oldest first.
  pub mirror_sources : ℕ → List String → List Subscription → M (List String)
  mirror_sources service_id impacted [] w = returned impacted w
  mirror_sources service_id impacted (source ∷ sources) w =
      elim (is_unexpired w.now source.expires_at) [
        | false ↦ mirror_sources service_id impacted sources w
        | true ↦
            (mirror source service_id
                >> mirror_sources service_id
                    (if any (λ u. u == source.user_id) impacted
                      then impacted
                      else impacted ++ source.user_id ∷ [])
                    sources)
              w
      ]

  pub on_referenced_service_created : Service → M (List String)
  on_referenced_service_created service w = elim service.account_source_service_id [
    | none ↦ returned [] w
    | some source_service_id ↦
        mirror_sources service.id []
          (Subscriptions.find_many env
            (λ s. s.service_id == source_service_id && is_active s.status) w)
          w
  ]

  abbrev pub find_derived : String → World → List Subscription
  find_derived source_id w =
      Subscriptions.find_many env (λ s. is_value s.derived_from_subscription_id source_id) w

  unfoldable pub on_deactivated : Subscription → SubscriptionStatus → M (Unit {0})
  on_deactivated source status w =
      for_each
        (λ (s : Subscription) w.
          (Subscriptions.update env (record (of_subscription s.user_id s.service_id) {
            status = some status;
            cancelled_at = if is_cancelled status then some (some w.now) else none;
          })
              >> pure tt)
            w)
        (find_derived source.id w) w

  unfoldable pub on_reactivated : Subscription → M (Unit {0})
  on_reactivated source w =
      for_each
        (λ (s : Subscription).
          Subscriptions.update env (record (of_subscription s.user_id s.service_id) {
            status = some SubscriptionStatus.active;
            expires_at = some (earliest s.expires_at source.expires_at);
            cancelled_at = some none;
            last_error = some none;
            failed_at = some none;
          })
          >> pure tt)
        (find_derived source.id w) w

  -- One round of the loop of `onExpiryChanged`.
  pub clamp : Subscription → Subscription → M (Unit {0})
  clamp source s =
      if same_time (earliest s.expires_at source.expires_at) s.expires_at
      then pure tt
      else Subscriptions.update env
          (record (of_subscription s.user_id s.service_id) { expires_at = some source.expires_at })
        >> pure tt

  pub on_expiry_changed : Subscription → M (Unit {0})
  on_expiry_changed source w = for_each (clamp source) (find_derived source.id w) w
