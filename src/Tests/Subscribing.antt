-- ===== src/Tests/Subscribing.antt =====
-- The theorems on `subscribe` at concrete requests.

use home_gate.Common.{ℕ, ◌≡◌, refl, true, none, some}
use home_gate.Effects.{succeeds, bad_request, http, returned, threw}
use home_gate.Environment.{emit, OnlyCalls}
use home_gate.Repositories.Subscriptions
use home_gate.Repositories.Services
use home_gate.Repositories.Users
use home_gate.Repositories.Policies
use home_gate.UserService.{get_user_by_id}
use home_gate.Access.{can_subscribe, assert_can_subscribe}
use home_gate.Provisioners
use home_gate.Provisioners.Managed.{ProvisionContext}
use home_gate.SubscriptionService.Subscribing.{
  SubscriptionCreateRequest, prepare, subscribe, upsert_provisioning, activate, context,
  validate_subscription_request, check_resubscribe,
}
use home_gate.SubscriptionService.Subscribing.Rejections.{
  Guarded, subscribe_refused, subscribe-Guarded,
}
use home_gate.SubscriptionService.Subscribing.Results.{IsAnswered, subscribe-IsAnswered}
use home_gate.Tests.Fixtures.{server, world, links}

abbrev request_for : ℕ → SubscriptionCreateRequest
request_for service_id = record {
  service_id = service_id;
  auto_renew = some true;
  service_username = none;
  service_password = none;
  confirm_service_password = none;
  email = none;
}

prepare-links :
    prepare server (request_for 3) "bob" world
    ≡ returned (context server (request_for 3) "bob" "bob@home" links none none) world
unfolding prepare Users.find_by_id get_user_by_id Services.find_by_id Policies.find can_subscribe
    assert_can_subscribe Subscriptions.find Provisioners.validate validate_subscription_request
    check_resubscribe
prepare-links = refl

subscribe-IsAnswered_example :
    IsAnswered server
      (request_for 3)
      "bob"
      (server.add_days 30 1000)
      (subscribe server (request_for 3) "bob" world)
subscribe-IsAnswered_example =
    subscribe-IsAnswered server (request_for 3) "bob" world world
      (context server (request_for 3) "bob" "bob@home" links none none) prepare-links

subscribe_links : succeeds (subscribe server (request_for 3) "bob" world) ≡ true
unfolding subscribe Users.find_by_id get_user_by_id Services.find_by_id Policies.find can_subscribe
    assert_can_subscribe Subscriptions.find Provisioners.validate Provisioners.provision
    Subscriptions.create Subscriptions.update emit activate upsert_provisioning prepare
    validate_subscription_request check_resubscribe
subscribe_links = refl

subscribe-Guarded_example :
    (ctx : ProvisionContext) × Guarded server (request_for 3) "bob" world ctx
subscribe-Guarded_example = subscribe-Guarded server (request_for 3) "bob" world subscribe_links

prepare_unknown :
    prepare server (request_for 9) "bob" world
    ≡ threw (http bad_request "Service not available") world
unfolding prepare Users.find_by_id get_user_by_id Services.find_by_id
prepare_unknown = refl

subscribe_refused_example :
    (subscribe server (request_for 9) "bob" world
      ≡ threw (http bad_request "Service not available") world)
    × OnlyCalls world world
subscribe_refused_example =
    subscribe_refused server (request_for 9) "bob" world (http bad_request "Service not available")
      world prepare_unknown
