-- ===== src/SubscriptionLifecycle/Expiring/Decisions.antt =====
-- What the sweep over the active subscriptions decides for each of them.
use home_gate.Cascade.Deactivation.{HasStatus, on_deactivated-HasStatus}
use home_gate.Cascade.{on_expiry_changed}
use home_gate.Repositories.Subscriptions.Laws.{find-same, find-after_update_self, update_found}
use home_gate.Provisioners.Writes.{disable-OnlyCalls}
use home_gate.Environment.{Environment, OnlyCalls}
use home_gate.Effects.{Error, Outcome, final, succeeds, returned, threw}
use home_gate.Model.{
  SubscriptionStatus, FailedOperation, Subscription, UpdateSubscription, of_subscription, World,
}
use home_gate.Common.{
  ℕ, ◌≤◌, ◌<◌, ◌≡◌, refl, ◌⊎◌, inl, inr, Bool, true, false, none, some, List, [], ◌∷◌, arith,
  Option-cases, All,
}
use home_gate.Cascade.Expiry.{HasExpiry, on_expiry_changed-HasExpiry}
use home_gate.SubscriptionService.{to_safe_error_message, build_lifecycle_context}
use home_gate.SubscriptionLifecycle.Expiring.{
  terminal_status, terminal_error, disable_external_account, auto_renew, terminate, process_one,
  fail_expiration, process_all,
}
use home_gate.Repositories.Services
use home_gate.UserService
use home_gate.Repositories.Subscriptions

module _ (env : Environment) (w : World) where
  -- The subscription expires later than now.
  abbrev pub IsAhead : Subscription → Type 0
  IsAhead s = (t : ℕ) × (s.expires_at ≡ some t) × (w.now < t)

  -- A sweep over subscriptions none of which has expired changes nothing and calls nobody, and its
  -- result is the flag with which it started.
  pub process_all_ahead :
      (success : Bool) (l : List Subscription)
      → All IsAhead l
      → process_all env w.now success l w ≡ returned success w
  unfolding process_all process_one
  process_all_ahead success [] h = refl
  process_all_ahead success (s ∷ l) ((t, e, k), h) = ground (arith, process_all_ahead success l h)

  -- The row that an expired subscription becomes, where it renews itself.
  abbrev pub renewed : ℕ → Subscription → Subscription
  renewed t s = record s {
    expires_at = some (env.add_days 30 t);
    last_error = none;
    failed_at = none;
    updated_at = w.now;
  }

  abbrev pub renewal : ℕ → Subscription → UpdateSubscription
  renewal t s = record (of_subscription s.user_id s.service_id) {
    expires_at = some (some (env.add_days 30 t));
    last_error = some none;
    failed_at = some none;
  }

  -- An expired subscription that is stored and renews itself gets an expiry thirty days after its
  -- own expiry, not after now, and is without an error at the end of the `try`, whether or not the
  -- subscriptions derived from it can all be clamped.
  pub process_one_renewing :
      (s : Subscription) (t : ℕ)
      → s.expires_at ≡ some t
      → t ≤ w.now
      → s.auto_renew ≡ true
      → Subscriptions.find env s.user_id s.service_id w ≡ some s
      → HasExpiry env s.user_id s.service_id (env.add_days 30 t) (final (process_one env w.now s w))
  unfolding process_one auto_renew
  process_one_renewing s t e h r f =
      let after = Subscriptions.after_update env (renewal t s) w in
      let kept =
        on_expiry_changed-HasExpiry env s.user_id s.service_id (env.add_days 30 t) (renewed t s)
          refl after
          (
            renewed t s,
            find-after_update_self env s.user_id s.service_id w (renewal t s) s refl refl f,
            refl,
            refl,
          ) in
      let ending : final (process_one env w.now s w)
          ≡ final (on_expiry_changed env (renewed t s) after) =
        ground (arith, update_found env s.user_id s.service_id w (renewal t s) s refl refl f) in
      rw ending kept

  -- The subscription has expired and does not renew itself, or has no expiry at all.
  abbrev pub IsOver : Subscription → Type 0
  IsOver s =
      (s.expires_at ≡ none)
      ⊎ ((t : ℕ) × (s.expires_at ≡ some t) × (t ≤ w.now) × (s.auto_renew ≡ false))

  pub disable_external_account-OnlyCalls :
      (s : Subscription) → OnlyCalls w (final (disable_external_account env s w))
  unfolding disable_external_account
  disable_external_account-OnlyCalls s =
      elim (Option-cases (UserService.get_user_by_id env s.user_id w)) [
        | inl e ↦ ground arith
        | inr (user, e) ↦ elim (Option-cases (Services.find_by_id env s.service_id w)) [
          | inl f ↦ ground arith
          | inr (service, f) ↦ ground (
            arith,
            disable-OnlyCalls env w (build_lifecycle_context env s service user.email none w),
          )
        ]
      ]

  abbrev pub ending : Subscription → UpdateSubscription
  ending s = record (of_subscription s.user_id s.service_id) {
    status = some (terminal_status s.expires_at);
    last_error = some (terminal_error s.expires_at);
    failed_at = some none;
  }

  terminate-HasStatus :
      (s : Subscription) (o : Outcome (Unit {0}))
      → disable_external_account env s w ≡ o
      → succeeds o ≡ true
      → Subscriptions.find env s.user_id s.service_id w ≡ some s
      → HasStatus env s.user_id s.service_id
          (terminal_status s.expires_at)
          (final (terminate env s w))
  unfolding terminate
  terminate-HasStatus s (threw e w') h k f = absurd (ground arith)
  terminate-HasStatus s (returned u w') h k f =
      let kept =
        find-same env s.user_id s.service_id w w'
          (ground (arith, disable_external_account-OnlyCalls s)) in
      let after = Subscriptions.after_update env (ending s) w' in
      let row = Subscriptions.updated w'.now (ending s) s in
      ground (
        arith,
        update_found env s.user_id s.service_id w' (ending s) s refl refl (ground (arith, kept)),
        on_deactivated-HasStatus env s.user_id s.service_id (terminal_status s.expires_at) row after
            (
              row,
              find-after_update_self env s.user_id s.service_id w' (ending s) s refl refl
                  (ground (arith, kept)),
              refl,
            ),
        disable_external_account-OnlyCalls s,
      )

  -- A stored subscription that has expired and does not renew itself is `expired` at the end of the
  -- `try`, and one without an expiry `disabled`, where its accounts are disabled without an error, and
  -- whether or not the subscriptions derived from it can all follow.
  pub process_one_ending :
      (s : Subscription)
      → IsOver s
      → Subscriptions.find env s.user_id s.service_id w ≡ some s
      → succeeds (disable_external_account env s w) ≡ true
      → HasStatus env s.user_id s.service_id
          (terminal_status s.expires_at)
          (final (process_one env w.now s w))
  unfolding process_one
  process_one_ending s (inl h) f e =
      ground (arith, terminate-HasStatus s (disable_external_account env s w) refl e f)
  process_one_ending s (inr (t, h, k, r)) f e =
      ground (arith, terminate-HasStatus s (disable_external_account env s w) refl e f)

  abbrev failing : Subscription → Error → ℕ → UpdateSubscription
  failing s e now = record (of_subscription s.user_id s.service_id) {
    status = some SubscriptionStatus.failed;
    last_error = some (some (to_safe_error_message e));
    failed_at = some (some now);
    failed_operation = some (some FailedOperation.expiration);
  }

  -- A subscription at which the sweep fails does not stop it: where its row is still stored, the row
  -- is marked as failed in its expiration with the text of the error, the sweep goes on with the rest,
  -- and its flag is cleared.
  pub process_all_failed :
      (success : Bool) (s row : Subscription) (rest : List Subscription) (e : Error) (v : World)
      → process_one env w.now s w ≡ threw e v
      → Subscriptions.find env s.user_id s.service_id v ≡ some row
      → (v' : World) × (process_all env w.now success (s ∷ rest) w
          ≡ process_all env w.now false rest v')
        × ((failed_row : Subscription) × (Subscriptions.find env s.user_id s.service_id v'
              ≡ some failed_row)
            × (failed_row.status ≡ SubscriptionStatus.failed)
            × (failed_row.failed_operation ≡ some FailedOperation.expiration)
            × (failed_row.last_error ≡ some (to_safe_error_message e))
            × (failed_row.expires_at ≡ row.expires_at))
  unfolding process_all fail_expiration
  process_all_failed success s row rest e v p f = (
    Subscriptions.after_update env (failing s e v.now) v,
    ground (arith, update_found env s.user_id s.service_id v (failing s e v.now) row refl refl f),
    (
      Subscriptions.updated v.now (failing s e v.now) row,
      find-after_update_self env s.user_id s.service_id v (failing s e v.now) row refl refl f,
      refl,
      refl,
      refl,
      refl,
    ),
  )
