-- ===== src/SubscriptionService/Changing/Renewal.antt =====
-- The renewal by an administrator.
use home_gate.Cascade.{on_expiry_changed}
use home_gate.SubscriptionService.Changing.{base_date, renew}
use home_gate.Repositories.Subscriptions.Laws.{find-after_update_self, update_found}
use home_gate.Common.{ℕ, ◌<◌, String, ◌≡◌, refl, none, some, arith}
use home_gate.Model.{Subscription, UpdateSubscription, of_subscription, World}
use home_gate.Effects.{final}
use home_gate.Environment.{Environment}
use home_gate.Repositories.Subscriptions
use home_gate.Cascade.Expiry.{HasExpiry, on_expiry_changed-HasExpiry}

module _ (env : Environment) (w : World) where
  -- The row that `renew` writes.
  abbrev pub renewed : Subscription → Subscription
  renewed s = record s {
    expires_at = some (env.add_days 30 (base_date w.now s.expires_at));
    last_error = none;
    updated_at = w.now;
  }

  abbrev renewal : Subscription → UpdateSubscription
  renewal s = record (of_subscription s.user_id s.service_id) {
    expires_at = some (some (env.add_days 30 (base_date w.now s.expires_at)));
    last_error = some none;
  }

  renew-final :
      (id : String) (s : Subscription)
      → Subscriptions.find_by_id env id w ≡ some s
      → Subscriptions.find env s.user_id s.service_id w ≡ some s
      → final (renew env id w)
        ≡ final (on_expiry_changed env (renewed s) (Subscriptions.after_update env (renewal s) w))
  unfolding renew
  renew-final id s e f =
      ground (arith, update_found env s.user_id s.service_id w (renewal s) s refl refl f)

  -- The time to which `renew` moves the expiry.
  abbrev pub renewed_until : Subscription → ℕ
  renewed_until s = env.add_days 30 (base_date w.now s.expires_at)

  -- Where thirty days later is later: a subscription that is found by its id and by its user and
  -- service is, after `renew`, stored with an expiry thirty days after its former one, or after
  -- now where none lies ahead, and without an error, whether or not the subscriptions derived from
  -- it can all be clamped. That expiry is after now and after the former one.
  pub renew-HasExpiry :
      (id : String) (s : Subscription)
      → Subscriptions.find_by_id env id w ≡ some s
      → Subscriptions.find env s.user_id s.service_id w ≡ some s
      → ((t : ℕ) → t < env.add_days 30 t)
      → HasExpiry env s.user_id s.service_id (renewed_until s) (final (renew env id w))
        × (w.now < renewed_until s)
        × ((before : ℕ) → s.expires_at ≡ some before → before < renewed_until s)
  renew-HasExpiry id s e f later =
      let kept =
        on_expiry_changed-HasExpiry env s.user_id s.service_id (renewed_until s) (renewed s) refl
          (Subscriptions.after_update env (renewal s) w)
          (
            renewed s,
            find-after_update_self env s.user_id s.service_id w (renewal s) s refl refl f,
            refl,
            refl,
          ) in
      (
        rw (renew-final id s e f) kept,
        ground (arith, later (base_date w.now s.expires_at)),
        λ before k. ground (arith, later (base_date w.now s.expires_at)),
      )
