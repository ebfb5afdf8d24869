-- ===== src/Cascade/Activation.antt =====
-- Mirroring an active source never harms a subscription that is active until the same time.
use home_gate.Common.{
  ℕ, String, ◌≡◌, refl, inl, inr, none, some, arith, if◌then◌else◌, Bool-cases, Option-cases,
}
use home_gate.Model.{SubscriptionStatus, is_referenced, Service, Subscription, World}
use home_gate.Effects.{pure, final, for_each-keeps}
use home_gate.Environment.{Environment}
use home_gate.Repositories.Subscriptions
use home_gate.Repositories.Subscriptions.Laws.{
  create_new, find-after_update, find-after_create, update_found,
}
use home_gate.Repositories.Subscriptions.{
  is_key, updated, after_update, after_create, create, update,
}
use home_gate.Repositories.Services
use home_gate.Cascade.{mirror, on_activated, refreshed, created_from}

-- The subscription is active until `expires_at`, and no failure is noted.
pub record Granted (expires_at : ℕ) (s : Subscription) : Type 0 where
  pub status : s.status ≡ SubscriptionStatus.active
  pub expiry : s.expires_at ≡ some expires_at
  pub no_error : s.last_error ≡ none
  pub no_failure : s.failed_at ≡ none
  pub no_operation : s.failed_operation ≡ none

module _ (env : Environment) (user_id : String) (service_id : ℕ) (expires_at : ℕ) where
  -- The subscription of the user to the service is stored, and is granted.
  abbrev pub HasGranted : World → Type 0
  HasGranted w =
      (s : Subscription) × (Subscriptions.find env user_id service_id w ≡ some s)
      × Granted expires_at s

  module _ (source : Subscription) (same : source.expires_at ≡ some expires_at) where
    mirror-HasGranted :
        (service : ℕ) (w : World) → HasGranted w → HasGranted (final (mirror env source service w))
    unfolding mirror
    mirror-HasGranted service w (s, h, g) =
        elim (Option-cases (Subscriptions.find env source.user_id service w)) [
          | inl free ↦
              let request = created_from source service w.now in
              (
                s,
                ground (
                  arith,
                  find-after_create env user_id service_id w request s h,
                  create_new env source.user_id service w request refl refl free,
                ),
                g,
              )
          | inr (existing, found) ↦
              let request = refreshed source service in
              let read = find-after_update env user_id service_id w request in
              (
                if is_key source.user_id service s then updated w.now request s else s,
                ground (
                  arith,
                  read,
                  update_found env source.user_id service w request existing refl refl found,
                ),
                ground arith,
              )
        ]

    -- Activating a source leaves a subscription granted that is granted until the expiry of the source,
    -- whether or not it is mirrored, and whether the mirroring returns or throws.
    pub on_activated-HasGranted :
        (w : World) → HasGranted w → HasGranted (final (on_activated env source w))
    unfolding on_activated
    on_activated-HasGranted w h =
        for_each-keeps HasGranted
          (λ (service : Service).
            if is_referenced service.account_type then mirror env source service.id else pure tt)
          (λ service v k. elim (Bool-cases (is_referenced service.account_type)) [
            | inl e ↦ rw e (mirror-HasGranted service.id v k)
            | inr e ↦ rw e k
          ])
          (Services.find_enabled_by_source env source.service_id w) w h
