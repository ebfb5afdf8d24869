-- ===== src/Cascade/Expiry.antt =====
-- The expiry that a source keeps while the ones derived from it are clamped.
use home_gate.Common.{
  ℕ, String, ◌≡◌, refl, inl, inr, none, some, arith, if◌then◌else◌, Bool-cases, Option-cases,
}
use home_gate.Model.{Subscription, of_subscription, World}
use home_gate.Effects.{final, for_each-keeps}
use home_gate.Environment.{Environment}
use home_gate.Repositories.Subscriptions
use home_gate.Repositories.Subscriptions.Laws.{find-after_update, update_found, update_absent}
use home_gate.Repositories.Subscriptions.{is_key, updated}
use home_gate.Cascade.{earliest, same_time, find_derived, clamp, on_expiry_changed}

module _ (env : Environment) (user_id : String) (service_id : ℕ) (t : ℕ) where
  -- The subscription of the user to the service is stored, expires at `t` and has no error.
  abbrev pub HasExpiry : World → Type 0
  HasExpiry w =
      (s : Subscription) × (Subscriptions.find env user_id service_id w ≡ some s)
      × (s.expires_at ≡ some t)
      × (s.last_error ≡ none)

  module _ (source : Subscription) (same : source.expires_at ≡ some t) where
    clamp-HasExpiry :
        (s : Subscription) (w : World) → HasExpiry w → HasExpiry (final (clamp env source s w))
    unfolding clamp
    clamp-HasExpiry s w (r, f, e, h) =
        let request = record (of_subscription s.user_id s.service_id) {
          expires_at = some source.expires_at;
        } in
        elim (Bool-cases (same_time (earliest s.expires_at source.expires_at) s.expires_at)) [
          | inl k ↦ (r, ground arith, e, h)
          | inr k ↦ elim (Option-cases (Subscriptions.find env s.user_id s.service_id w)) [
            | inl absent ↦ (
              r,
              ground (arith, update_absent env s.user_id s.service_id w request refl refl absent),
              e,
              h,
            )
            | inr (row, found) ↦ (
              if is_key s.user_id s.service_id r then updated w.now request r else r,
              ground (
                arith,
                find-after_update env user_id service_id w request,
                update_found env s.user_id s.service_id w request row refl refl found,
              ),
              ground arith,
              ground arith,
            )
          ]
        ]

    pub on_expiry_changed-HasExpiry :
        (w : World) → HasExpiry w → HasExpiry (final (on_expiry_changed env source w))
    unfolding on_expiry_changed
    on_expiry_changed-HasExpiry w h =
        for_each-keeps HasExpiry (clamp env source) clamp-HasExpiry (find_derived env source.id w) w
          h
