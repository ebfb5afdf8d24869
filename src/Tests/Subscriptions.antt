-- ===== src/Tests/Subscriptions.antt =====
-- The theorems on stored subscriptions at concrete inputs.
use home_gate.SubscriptionService.Switching.Settled.{
  Settles, set_disabled_status-disabled, set_disabled_status-enabled,
}
use home_gate.Provisioners.Managed.{LifecycleContext}
use home_gate.UserService.{user_model_to_load_request, get_user_by_id}
use home_gate.Environment.{ask, emit}
use home_gate.Model.{SubscriptionStatus, Subscription, of_subscription, World, subscription_changed}
use home_gate.Effects.{for_each, final, succeeds, returned}
use home_gate.SubscriptionService.{is_currently_active, get_account_cap, build_lifecycle_context}
use home_gate.SubscriptionService.Cancelling.{cancel, delete}
use home_gate.SubscriptionService.Linking.{
  AddAccountRequest, assert_owner_or_admin, find_service, find_user, assert_can_add_account,
  link_account, add_account, find_linked, unlink, delete_account,
}
use home_gate.SubscriptionService.Switching.{switch, set_disabled_status}
use home_gate.SubscriptionService.Cancelling.Outcomes.{cancel-gone}
use home_gate.SubscriptionService.Linking.Limits.{Addable, add_account-Addable}
use home_gate.SubscriptionService.Switching.Outcomes.{set_disabled_status-guards}
use home_gate.Cascade.{on_deactivated}
use home_gate.SubscriptionService.Responses.{get_by_id}
use home_gate.Common.{ℕ, ◌≤◌, ◌≡◌, refl, true, false, none, some, [], ◌∷◌, arith, head?}
use home_gate.Tests.Fixtures.{
  server, bob, films, links, subscription_of, to_films, first_account, second_account, world,
  to_links, links_world, generous_world,
}
use home_gate.SubscriptionService.Switching.Enabling
use home_gate.Repositories.Subscriptions
use home_gate.Repositories.Accounts
use home_gate.Repositories.Services
use home_gate.Repositories.Users
use home_gate.Repositories.Policies
use home_gate.Provisioners
use home_gate.Provisioners.Managed

delete_links : succeeds (delete server "s4" "bob" links_world) ≡ true
unfolding delete cancel Subscriptions.find_by_id Users.find_by_id get_user_by_id Services.find_by_id
    Subscriptions.update Subscriptions.find Provisioners.deprovision Subscriptions.delete emit
    build_lifecycle_context
delete_links = refl

abbrev cancelled_world : World
cancelled_world = record links_world {
  subscriptions = [];
  events = subscription_changed "bob" ∷ [];
}

cancel-links :
    cancel server to_links links (user_model_to_load_request bob) links_world
    ≡ returned true cancelled_world
unfolding cancel Subscriptions.update Subscriptions.find Provisioners.deprovision
    Subscriptions.delete Subscriptions.cascade_delete emit build_lifecycle_context
    Subscriptions.reached
cancel-links = refl

find_links : Subscriptions.find server "bob" 3 links_world ≡ some to_links
unfolding Subscriptions.find
find_links = refl

cancel-gone_example :
    (Subscriptions.find server "bob" 3 cancelled_world ≡ none)
    × (head? cancelled_world.events ≡ some (subscription_changed "bob"))
cancel-gone_example =
    cancel-gone server to_links links (user_model_to_load_request bob) links_world cancelled_world
      find_links (ground arith) cancel-links

abbrev account_request : AddAccountRequest
account_request = record {
  service_username = some "bob2";
  service_password = some "pw";
  email = none;
}

add_account_films : succeeds (add_account server "s1" account_request "bob" generous_world) ≡ true
unfolding add_account assert_owner_or_admin find_service find_user assert_can_add_account
    link_account Subscriptions.find_by_id Users.find_by_id get_user_by_id Services.find_by_id
    Policies.find get_account_cap Accounts.count_by_subscription_id Provisioners.validate
    Provisioners.provision Managed.validate Managed.provision Managed.registry_get ask
    Accounts.create emit get_by_id Accounts.find_by_subscription_id
add_account_films = refl

add_account-Addable_example :
    (s : Subscription) × (Subscriptions.find_by_id server "s1" generous_world ≡ some s)
    × Addable server generous_world s
add_account-Addable_example =
    add_account-Addable server "s1" generous_world account_request "bob" add_account_films

find_films : Subscriptions.find_by_id server "s1" world ≡ some to_films
unfolding Subscriptions.find_by_id
find_films = refl

cap_films :
    get_account_cap server "bob" 1 world ≤ Accounts.count_by_subscription_id server "s1" world
unfolding get_account_cap Policies.find Accounts.count_by_subscription_id
    Accounts.find_by_subscription_id
cap_films = ground arith

delete_account_films : succeeds (delete_account server "s1" "a1" "bob" false world) ≡ true
unfolding delete_account assert_owner_or_admin find_service find_user find_linked unlink
    Subscriptions.find_by_id Users.find_by_id get_user_by_id Services.find_by_id Accounts.find_by_id
    Accounts.count_by_subscription_id Accounts.find_by_subscription_id Accounts.delete emit
delete_account_films = refl

switch_links :
    succeeds (set_disabled_status server "bob" 3 SubscriptionStatus.disabled links_world) ≡ true
unfolding set_disabled_status switch Users.find_by_id get_user_by_id Services.find_by_id
    Subscriptions.find Subscriptions.update Provisioners.disable on_deactivated for_each
    build_lifecycle_context Subscriptions.find_many emit
switch_links = refl

set_disabled_status-guards_example :
    (s : Subscription) × (Subscriptions.find server "bob" 3 links_world ≡ some s)
    × (is_currently_active 1000 s ≡ true)
set_disabled_status-guards_example =
    set_disabled_status-guards server "bob" 3 links_world SubscriptionStatus.disabled switch_links

abbrev links_context : LifecycleContext
links_context = record {
  user_id = "bob";
  email = "bob@home";
  service = links;
  subscription = to_links;
  accounts = [];
}

abbrev films_context : LifecycleContext
films_context = record {
  user_id = "bob";
  email = "bob@home";
  service = films;
  subscription = to_films;
  accounts = first_account ∷ second_account ∷ [];
}

abbrev disabling_world : ℕ → World → World
disabling_world service_id w =
    Subscriptions.after_update server
      (record (of_subscription "bob" service_id) { status = some SubscriptionStatus.disabling }) w

disable_links :
    succeeds (Provisioners.disable server links_context (disabling_world 3 links_world)) ≡ true
unfolding Provisioners.disable
disable_links = refl

abbrev unreachable_world : World
unreachable_world = final (Provisioners.disable server films_context (disabling_world 1 world))

-- Bob's subscription to the links is disabled.
abbrev off : Subscription
off = subscription_of "s4" 3 SubscriptionStatus.disabled (some 2000)

abbrev off_world : World
off_world = record world { subscriptions = off ∷ [] }

find_off : Subscriptions.find server "bob" 3 off_world ≡ some off
unfolding Subscriptions.find
find_off = refl

enable_off :
    succeeds (
      Enabling.prepare server links_context (
        Subscriptions.after_update server
          (record (of_subscription "bob" 3) { status = some SubscriptionStatus.enabling })
          off_world))
    ≡ true
unfolding Provisioners.enable for_each
enable_off = refl

known_links : Services.find_by_id server 3 links_world ≡ some links
unfolding Services.find_by_id
known_links = refl

links_bob : get_user_by_id server "bob" links_world ≡ some (user_model_to_load_request bob)
unfolding get_user_by_id Users.find_by_id
links_bob = refl

set_disabled_status-disabled_example :
    Settles server "bob" 3 SubscriptionStatus.disabled
      (Provisioners.disable server
        (build_lifecycle_context server to_links links
          (user_model_to_load_request bob).email
          none
          links_world)
        (Subscriptions.after_update server
          (record (of_subscription "bob" 3) { status = some SubscriptionStatus.disabling })
          links_world))
      (set_disabled_status server "bob" 3 SubscriptionStatus.disabled links_world)
set_disabled_status-disabled_example =
    set_disabled_status-disabled server "bob" 3 links_world (user_model_to_load_request bob) links
      to_links links_bob known_links find_links refl

off_links : Services.find_by_id server 3 off_world ≡ some links
unfolding Services.find_by_id
off_links = refl

off_bob : get_user_by_id server "bob" off_world ≡ some (user_model_to_load_request bob)
unfolding get_user_by_id Users.find_by_id
off_bob = refl

set_disabled_status-enabled_example :
    Settles server "bob" 3 SubscriptionStatus.active
      (Enabling.prepare server
        (build_lifecycle_context server off links
          (user_model_to_load_request bob).email
          none
          off_world)
        (Subscriptions.after_update server
          (record (of_subscription "bob" 3) { status = some SubscriptionStatus.enabling })
          off_world))
      (set_disabled_status server "bob" 3 SubscriptionStatus.active off_world)
set_disabled_status-enabled_example =
    set_disabled_status-enabled server "bob" 3 off_world (user_model_to_load_request bob) links off
      off_bob off_links find_off refl
