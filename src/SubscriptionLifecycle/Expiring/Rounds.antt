-- ===== src/SubscriptionLifecycle/Expiring/Rounds.antt =====
-- What a round of `processSubscriptions` leaves, with its `catch`.
use home_gate.Repositories.Subscriptions.Laws.{update_found}
use home_gate.SubscriptionService.{to_safe_error_message}
use home_gate.Cascade.Returning.{on_expiry_changed_returned}
use home_gate.Cascade.Expiry.{HasExpiry}
use home_gate.Cascade.Deactivation.{HasStatus}
use home_gate.SubscriptionLifecycle.Expiring.Decisions.{process_one_renewing, renewal}
use home_gate.SubscriptionLifecycle.Expiring.{terminal_status, auto_renew, process_one, process_all}
use home_gate.Environment.{Environment}
use home_gate.Model.{SubscriptionStatus, FailedOperation, Subscription, World}
use home_gate.Effects.{Error, Outcome, final, returned, threw}
use home_gate.Common.{ℕ, ◌≤◌, ◌≡◌, refl, Bool, true, false, some, List, ◌∷◌, arith}
use mathlib.Core.Path.{subst}
use home_gate.Repositories.Subscriptions

module _ (env : Environment) (w : World) where
  -- The subscription is stored as failed in its expiration, with the text of the error.
  abbrev pub IsFailed : Subscription → Error → World → Type 0
  IsFailed s e v =
      (row : Subscription) × (Subscriptions.find env s.user_id s.service_id v ≡ some row)
      × (row.status ≡ SubscriptionStatus.failed)
      × (row.failed_operation ≡ some FailedOperation.expiration)
      × (row.last_error ≡ some (to_safe_error_message e))

  -- How the sweep goes on after a subscription that is over, by the end of what it does at the
  -- vendor: with its flag as it was, and the subscription has ended, or with the flag cleared, and the
  -- subscription has failed with the vendor's error.
  abbrev pub Settles : Bool → Subscription → List Subscription → Outcome (Unit {0}) → Type 0
  Settles success s rest (returned u _) =
      (v : World) × (process_all env w.now success (s ∷ rest) w
        ≡ process_all env w.now success rest v)
      × HasStatus env s.user_id s.service_id (terminal_status s.expires_at) v
  Settles success s rest (threw e _) =
      (v : World) × (process_all env w.now success (s ∷ rest) w
        ≡ process_all env w.now false rest v)
      × IsFailed s e v

  -- A round that returns leaves the flag as it was.
  process_all_returned :
      (success : Bool) (s : Subscription) (rest : List Subscription) (v : World)
      → process_one env w.now s w ≡ returned tt v
      → process_all env w.now success (s ∷ rest) w ≡ process_all env w.now success rest v
  unfolding process_all
  process_all_returned success s rest v p = rw (p, process_all) refl

  renewing_returned :
      (s : Subscription) (t : ℕ)
      → s.expires_at ≡ some t
      → t ≤ w.now
      → s.auto_renew ≡ true
      → Subscriptions.find env s.user_id s.service_id w ≡ some s
      → (x : World) × (process_one env w.now s w ≡ returned tt x)
  unfolding process_one auto_renew
  renewing_returned s t e h r f =
      let (x, g) =
        on_expiry_changed_returned env (Subscriptions.updated w.now (renewal env w t s) s)
          (Subscriptions.after_update env (renewal env w t s) w) in
      (
        x,
        ground (arith, update_found env s.user_id s.service_id w (renewal env w t s) s refl refl f),
      )

  -- A subscription that is stored, has expired and renews itself gets an expiry thirty days after its
  -- own, not after now, with no error stored, and the sweep goes on after it with its flag as it was.
  pub process_all-renewing :
      (success : Bool) (s : Subscription) (rest : List Subscription) (t : ℕ)
      → s.expires_at ≡ some t
      → t ≤ w.now
      → s.auto_renew ≡ true
      → Subscriptions.find env s.user_id s.service_id w ≡ some s
      → (v : World) × (process_all env w.now success (s ∷ rest) w
          ≡ process_all env w.now success rest v)
        × HasExpiry env s.user_id s.service_id (env.add_days 30 t) v
  process_all-renewing success s rest t e h r f =
      let (x, round) = renewing_returned s t e h r f in
      (
        x,
        process_all_returned success s rest x round,
        subst (λ o. HasExpiry env s.user_id s.service_id (env.add_days 30 t) (final o)) round
            (process_one_renewing env w s t e h r f),
      )
