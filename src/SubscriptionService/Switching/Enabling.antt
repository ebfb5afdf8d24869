-- ===== src/SubscriptionService/Switching/Enabling.antt =====
-- What enabling leaves stored.
use home_gate.Cascade.{on_reactivated}
use home_gate.Environment.{Environment, emit}
use home_gate.SubscriptionService.Switching.{drop_stale, switch}
use home_gate.Cascade.Deactivation.{HasStatus, HasStatus-same, on_reactivated-HasStatus}
use home_gate.Repositories.Subscriptions.Laws.{
  SameSubscriptions, find-same, find-after_update_self, update_found,
}
use home_gate.Common.{ℕ, String, ◌≡◌, refl, true, false, none, some, arith}
use home_gate.Model.{
  SubscriptionStatus, Subscription, ExternalUserAccount, UpdateSubscription, of_subscription, World,
}
use home_gate.Effects.{Outcome, M, ◌>>◌, for_each, final, succeeds, for_each-keeps, returned, threw}
use home_gate.Repositories.Subscriptions
use home_gate.Repositories.Accounts.Writes.{delete-OnlyAccounts}
use home_gate.Provisioners
use home_gate.Provisioners.Writes.{enable-OnlyCalls, get_external_account_status-OnlyCalls}
use home_gate.Provisioners.Managed.{LifecycleContext, ExternalAccountStatus}

module _ (env : Environment) (ctx : LifecycleContext) where
  drop_stale-SameSubscriptions :
      (account : ExternalUserAccount) (w : World)
      → SameSubscriptions w (final (drop_stale env ctx account w))
  unfolding drop_stale
  drop_stale-SameSubscriptions account w =
      go (Provisioners.get_external_account_status env ctx account w) refl
    where
      go :
          (o : Outcome ExternalAccountStatus)
          → Provisioners.get_external_account_status env ctx account w ≡ o
          → SameSubscriptions w (final (drop_stale env ctx account w))
      go (threw e v) p = ground (arith, get_external_account_status-OnlyCalls env w ctx account)
      go (returned status v) p = ground (
        arith,
        get_external_account_status-OnlyCalls env w ctx account,
        delete-OnlyAccounts env v account.id,
      )

  -- What is done before the status is set: stale rows are dropped and the accounts are enabled.
  abbrev pub prepare : M (Unit {0})
  prepare = for_each (drop_stale env ctx) ctx.accounts >> Provisioners.enable env ctx

  pub prepare-SameSubscriptions : (w : World) → SameSubscriptions w (final (prepare w))
  prepare-SameSubscriptions w = go (for_each (drop_stale env ctx) ctx.accounts w) refl
    where
      swept : SameSubscriptions w (final (for_each (drop_stale env ctx) ctx.accounts w))
      swept =
          for_each-keeps (SameSubscriptions w) (drop_stale env ctx)
            (λ account v k. ground (arith, drop_stale-SameSubscriptions account v)) ctx.accounts w
            (refl, refl)

      go :
          (o : Outcome (Unit {0}))
          → for_each (drop_stale env ctx) ctx.accounts w ≡ o
          → SameSubscriptions w (final (prepare w))
      go (threw e v) p = ground (arith, swept)
      go (returned u v) p = ground (arith, swept, enable-OnlyCalls env v ctx)

module _ (env : Environment) (user_id : String) (service_id : ℕ) (w : World)
    (ctx : LifecycleContext) (s : Subscription)
    (stored : Subscriptions.find env user_id service_id w ≡ some s) where
  abbrev request : SubscriptionStatus → UpdateSubscription
  request status = record (of_subscription user_id service_id) { status = some status }

  abbrev pub marked : World
  marked = Subscriptions.after_update env (request SubscriptionStatus.enabling) w

  abbrev settled : UpdateSubscription
  settled = record (request SubscriptionStatus.active) { last_error = some none }

  abbrev pub before : Subscription
  before = Subscriptions.updated w.now (request SubscriptionStatus.enabling) s

  pub before_stored :
      (v : World)
      → SameSubscriptions marked v
      → Subscriptions.find env user_id service_id v ≡ some before
  before_stored v same = ground (
    arith,
    find-same env user_id service_id marked v same,
    find-after_update_self env user_id service_id w (request SubscriptionStatus.enabling) s refl
        refl stored,
  )

  -- What follows the loop over the derived subscriptions leaves the table alone.
  same_after :
      (v : World) {u : Unit {0}}
      → Subscriptions.find env user_id service_id v ≡ some before
      → prepare env ctx marked ≡ returned u v
      → SameSubscriptions
          (final (
            on_reactivated env
              (Subscriptions.updated v.now settled before)
              (Subscriptions.after_update env settled v)))
          (final (switch env false SubscriptionStatus.active user_id service_id ctx w))
  unfolding switch emit
  same_after v f p = ground (
    arith,
    update_found env user_id service_id w (request SubscriptionStatus.enabling) s refl refl stored,
    update_found env user_id service_id v settled before refl refl f,
  )

  enabled_after :
      (v : World) {u : Unit {0}}
      → SameSubscriptions marked v
      → prepare env ctx marked ≡ returned u v
      → HasStatus env user_id service_id SubscriptionStatus.active
          (final (switch env false SubscriptionStatus.active user_id service_id ctx w))
  enabled_after v same p =
      let row = Subscriptions.updated v.now settled before in
      let v' = Subscriptions.after_update env settled v in
      HasStatus-same env user_id service_id SubscriptionStatus.active
        (final (on_reactivated env row v'))
        (final (switch env false SubscriptionStatus.active user_id service_id ctx w))
        (same_after v (before_stored v same) p)
        (on_reactivated-HasStatus env user_id service_id row v' (
          row,
          find-after_update_self env user_id service_id v settled before refl refl
              (before_stored v same),
          refl,
        ))

  -- Where the subscription is stored and, once the row is `enabling`, the rows of vanished accounts are
  -- dropped and the other accounts are enabled without an error, the subscription is stored as
  -- `active` at the end of the `try`, whether or not the subscriptions derived from it can all follow.
  pub switch_enabled :
      succeeds (prepare env ctx marked) ≡ true
      → HasStatus env user_id service_id SubscriptionStatus.active
          (final (switch env false SubscriptionStatus.active user_id service_id ctx w))
  switch_enabled h = go (prepare env ctx marked) refl h
    where
      go :
          (o : Outcome (Unit {0}))
          → prepare env ctx marked ≡ o
          → succeeds o ≡ true
          → HasStatus env user_id service_id SubscriptionStatus.active
              (final (switch env false SubscriptionStatus.active user_id service_id ctx w))
      go (threw e v) p k = absurd (ground arith)
      go (returned u v) p k =
          enabled_after v (ground (arith, prepare-SameSubscriptions env ctx marked)) p
