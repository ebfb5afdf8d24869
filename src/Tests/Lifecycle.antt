-- ===== src/Tests/Lifecycle.antt =====
-- The theorems on the bulk changes of subscriptions at concrete inputs.
use home_gate.SubscriptionLifecycle.Expiring.Rounds.{process_all-renewing}
use home_gate.Provisioners.Managed.{LifecycleContext}
use home_gate.SubscriptionLifecycle.Retrying.Outcomes.{retry_cancellation-gone}
use home_gate.SubscriptionLifecycle.Retrying.{retry, retry_failed_operation}
use home_gate.UserService.{get_user_by_id}
use home_gate.Cascade.Expiry.{HasExpiry}
use home_gate.Effects.{final, succeeds, plain, returned, threw}
use home_gate.Common.{◌≡◌, refl, inl, inr, true, false, none, some, [], ◌∷◌, arith, length, keep}
use home_gate.Model.{SubscriptionStatus, FailedOperation, Subscription, ApplicationUser, World}
use home_gate.SubscriptionLifecycle.Syncing.{LinkedAccount, sync_external_to_local}
use home_gate.SubscriptionLifecycle.Syncing.Guards.{deletes_id, sync_external_to_local-spares}
use home_gate.Tests.Fixtures.{
  jellyfin_vendor, server, links, subscription_of, to_films, first_account, world,
}
use home_gate.SubscriptionLifecycle.Expiring.{
  disable_external_account, auto_renew, process_one, process_all,
}
use home_gate.Repositories.Subscriptions

-- Two subscriptions to the links that have expired: one renews itself.
abbrev renewing : Subscription
renewing = record (subscription_of "s5" 3 SubscriptionStatus.active (some 500)) {
  auto_renew = true;
}

abbrev ended : Subscription
ended = subscription_of "s6" 3 SubscriptionStatus.active (some 500)

abbrev renewing_world : World
renewing_world = record world { subscriptions = renewing ∷ [] }

abbrev ended_world : World
ended_world = record world { subscriptions = ended ∷ [] }

find_renewing : Subscriptions.find server "bob" 3 renewing_world ≡ some renewing
unfolding Subscriptions.find
find_renewing = refl

disable_ended : succeeds (disable_external_account server ended ended_world) ≡ true
unfolding disable_external_account home_gate.Repositories.Services.find_by_id get_user_by_id
    home_gate.Repositories.Users.find_by_id home_gate.Provisioners.disable
    home_gate.SubscriptionService.build_lifecycle_context
disable_ended = refl

-- A subscription whose cancellation has failed.
abbrev stuck : Subscription
stuck = record (subscription_of "s7" 3 SubscriptionStatus.failed (some 2000)) {
  failed_operation = some FailedOperation.cancellation;
}

abbrev stuck_world : World
stuck_world = record world { subscriptions = stuck ∷ [] }

abbrev stuck_context : LifecycleContext
stuck_context = record {
  user_id = "bob";
  email = "bob@home";
  service = links;
  subscription = stuck;
  accounts = [];
}

retry_stuck : succeeds (retry_failed_operation server "bob" 3 "ann" stuck_world) ≡ true
unfolding retry_failed_operation get_user_by_id home_gate.Repositories.Users.find_by_id
    Subscriptions.find home_gate.Repositories.Services.find_by_id home_gate.Provisioners.deprovision
    home_gate.SubscriptionService.build_lifecycle_context Subscriptions.delete
retry_stuck = refl

find_stuck : Subscriptions.find server "bob" 3 stuck_world ≡ some stuck
unfolding Subscriptions.find
find_stuck = refl

abbrev emptied_world : World
emptied_world = record world { subscriptions = [] }

retry_cancellation_stuck :
    retry server FailedOperation.cancellation "bob" 3 stuck_context stuck_world
    ≡ returned true emptied_world
unfolding retry home_gate.Provisioners.deprovision Subscriptions.delete Subscriptions.find
    Subscriptions.cascade_delete Subscriptions.reached
retry_cancellation_stuck = refl

retry_cancellation-gone_example : Subscriptions.find server "bob" 3 emptied_world ≡ none
retry_cancellation-gone_example =
    retry_cancellation-gone server "bob" 3 stuck_world stuck_context stuck emptied_world find_stuck
      (ground arith) retry_cancellation_stuck

abbrev stranger : ApplicationUser
stranger = record { id = "x1"; username = "stranger"; is_active = true; is_admin = false }

abbrev first_linked : LinkedAccount
first_linked = record { subscription = to_films; account = first_account }

abbrev listed : ApplicationUser
listed = record { id = "a1"; username = "bob"; is_active = true; is_admin = false }

sync_external_to_local-spares_example :
    length (
      keep
        (deletes_id "a1")
        (final (
          sync_external_to_local server jellyfin_vendor
            (stranger ∷ listed ∷ [])
            (first_linked ∷ [])
            world)).calls)
    ≡ length (keep (deletes_id "a1") world.calls)
sync_external_to_local-spares_example =
    sync_external_to_local-spares server jellyfin_vendor (first_linked ∷ []) "a1"
      (stranger ∷ listed ∷ []) world (inl refl, (inr refl, tt))

-- A subscription to the films has expired, and the vendor cannot disable its accounts.
abbrev late : Subscription
late = subscription_of "s1" 1 SubscriptionStatus.active (some 500)

abbrev late_world : World
late_world = record world { subscriptions = late ∷ [] }

abbrev unreachable_world : World
unreachable_world = final (process_one server 1000 late late_world)

process_late :
    process_one server 1000 late late_world ≡ threw (plain "unreachable") unreachable_world
unfolding process_one home_gate.SubscriptionLifecycle.Expiring.terminate
    home_gate.Repositories.Services.find_by_id get_user_by_id
    home_gate.Repositories.Users.find_by_id home_gate.Provisioners.disable
    home_gate.SubscriptionService.build_lifecycle_context home_gate.Provisioners.Managed.disable
    home_gate.Repositories.Accounts.find_by_subscription_id
    home_gate.Provisioners.Managed.registry_get home_gate.Effects.for_each
    home_gate.Provisioners.Managed.disable_account home_gate.Environment.ask
process_late = refl

find_late : Subscriptions.find server "bob" 1 unreachable_world ≡ some late
unfolding Subscriptions.find process_one home_gate.SubscriptionLifecycle.Expiring.terminate
    home_gate.Repositories.Services.find_by_id get_user_by_id
    home_gate.Repositories.Users.find_by_id home_gate.Provisioners.disable
    home_gate.SubscriptionService.build_lifecycle_context home_gate.Provisioners.Managed.disable
    home_gate.Repositories.Accounts.find_by_subscription_id
    home_gate.Provisioners.Managed.registry_get home_gate.Effects.for_each
    home_gate.Provisioners.Managed.disable_account home_gate.Environment.ask
find_late = refl

process_all-renewing_example :
    (v : World) × (process_all server 1000 true (renewing ∷ []) renewing_world
      ≡ process_all server 1000 true [] v)
    × HasExpiry server "bob" 3 (server.add_days 30 500) v
process_all-renewing_example =
    process_all-renewing server renewing_world true renewing [] 500 refl (ground arith) refl
      find_renewing
