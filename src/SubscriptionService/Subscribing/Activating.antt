-- ===== src/SubscriptionService/Subscribing/Activating.antt =====
-- What the body of the `try` of `subscribe` leaves stored.
use home_gate.Common.{
  ℕ, ◌≡◌, refl, ◌⊎◌, inl, inr, false, Option, none, some, List, [], ◌∷◌, arith, Bool-cases,
}
use home_gate.Environment.{Environment, emit}
use home_gate.SubscriptionService.Subscribing.{
  upsert_external_account, store_account, activation, activate,
}
use home_gate.Repositories.Accounts.Writes.{OnlyAccounts, create-OnlyAccounts, update-OnlyAccounts}
use home_gate.Repositories.Subscriptions.Laws.{find-same, find-after_update_self, update_found}
use home_gate.Model.{
  is_managed, Subscription, ExternalUserAccount, UpdateSubscription, ExternalAccountData, World,
  subscription_changed,
}
use home_gate.Effects.{Outcome, final, succeeds, returned, threw}
use home_gate.Repositories.Subscriptions
use home_gate.Repositories.Accounts
use home_gate.Provisioners
use home_gate.Provisioners.Writes.{provision-OnlyCalls}
use home_gate.Provisioners.Managed.{ProvisionContext}
use home_gate.Cascade.{on_activated}
use home_gate.Cascade.Activation.{HasGranted, on_activated-HasGranted}
use home_gate.SubscriptionService.Responses.{SubscriptionResponse}

module _ (env : Environment) where
  store_account-OnlyAccounts :
      (s : Subscription) (account : Option ExternalAccountData) (w : World)
      → OnlyAccounts env w (final (store_account env s account w))
  unfolding upsert_external_account
  store_account-OnlyAccounts s none w = refl
  store_account-OnlyAccounts s (some account) w =
      go (Accounts.find_by_subscription_id env s.id w) refl
    where
      go :
          (found : List ExternalUserAccount)
          → Accounts.find_by_subscription_id env s.id w ≡ found
          → OnlyAccounts env w (final (store_account env s (some account) w))
      go [] e = ground (arith, create-OnlyAccounts env w s.id s.user_id s.service_id account)
      go (a ∷ rest) e = ground (arith, update-OnlyAccounts env w a.id account)

  module _ (ctx : ProvisionContext) (s : Subscription) (accounts : List ExternalUserAccount)
      (t : ℕ) where
    -- Either the subscription is granted, or the row is as before and the activation has thrown.
    abbrev pub IsActivation : Outcome SubscriptionResponse → Type 0
    IsActivation o =
        HasGranted env ctx.user_id ctx.service.id t (final o)
        ⊎ ((succeeds o ≡ false)
            × (Subscriptions.find env ctx.user_id ctx.service.id (final o) ≡ some s))

    abbrev request : ℕ → UpdateSubscription
    request now = activation env ctx.user_id ctx.service.id now

    abbrev written : World → World
    written v = record (Subscriptions.after_update env (request v.now) v) {
      events = subscription_changed ctx.user_id ∷ v.events;
    }

    written-HasGranted :
        (v : World)
        → Subscriptions.find env ctx.user_id ctx.service.id v ≡ some s
        → s.expires_at ≡ some t
        → HasGranted env ctx.user_id ctx.service.id t (written v)
    written-HasGranted v f h =
        let after = Subscriptions.after_update env (request v.now) v in
        (
          Subscriptions.updated v.now (request v.now) s,
          ground (
            arith,
            find-same env ctx.user_id ctx.service.id after (written v) (refl, refl),
            find-after_update_self env ctx.user_id ctx.service.id v (request v.now) s refl refl f,
          ),
          record {
            status = refl;
            expiry = h;
            no_error = refl;
            no_failure = refl;
            no_operation = refl;
          },
        )

    activate_stored :
        (account : Option ExternalAccountData) (w w' : World) (o : Outcome (Unit {0}))
        → Provisioners.provision env ctx w ≡ returned account w'
        → store_account env s account w' ≡ o
        → Subscriptions.find env ctx.user_id ctx.service.id (final o) ≡ some s
        → s.expires_at ≡ some t
        → IsActivation (activate env ctx s accounts w)
    unfolding activate emit
    activate_stored account w w' (threw e v) p q f h = inr (ground arith, ground arith)
    activate_stored account w w' (returned u v) p q f h =
        let row = Subscriptions.updated v.now (request v.now) s in
        let granted = written-HasGranted v f h in
        let found = update_found env ctx.user_id ctx.service.id v (request v.now) s refl refl f in
        inl (elim (Bool-cases (is_managed ctx.service.account_type)) [
          | inl m ↦
              let ending : final (activate env ctx s accounts w)
                  ≡ final (on_activated env row (written v)) =
                ground (arith, found) in
              rw ending
                (on_activated-HasGranted env ctx.user_id ctx.service.id t row h (written v) granted)
          | inr m ↦
              let ending : final (activate env ctx s accounts w) ≡ written v =
                ground (arith, found) in
              rw ending granted
        ])

    pub activate-IsActivation :
        (w : World)
        → Subscriptions.find env ctx.user_id ctx.service.id w ≡ some s
        → s.expires_at ≡ some t
        → IsActivation (activate env ctx s accounts w)
    unfolding activate
    activate-IsActivation w f h = go (Provisioners.provision env ctx w) refl
      where
        go :
            (o : Outcome (Option ExternalAccountData))
            → Provisioners.provision env ctx w ≡ o
            → IsActivation (activate env ctx s accounts w)
        go (threw e w') p =
            let kept =
              find-same env ctx.user_id ctx.service.id w w'
                (ground (arith, provision-OnlyCalls env w ctx)) in
            inr (ground arith, ground (arith, kept))
        go (returned account w') p =
            let v = final (store_account env s account w') in
            let kept = find-same env ctx.user_id ctx.service.id w v (
              ground
                (arith, provision-OnlyCalls env w ctx, store_account-OnlyAccounts s account w')) in
            activate_stored account w w' (store_account env s account w') p refl
              (ground (arith, kept)) h
