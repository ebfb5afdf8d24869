-- ===== src/InviteAccountLinking.antt =====
-- server/src/api/services/inviteAccountLinking.service.ts: what a new user had on the services before,
-- linked after the invite is claimed. `default_expiry_days` is the setting of ConfigService.

pub mod Kept
pub mod Linked
use home_gate.Cascade.{on_activated}
use home_gate.Environment.{Integration, Environment, ask}
use home_gate.Model.{
  IntegrationProvider, SubscriptionStatus, jellyfin, immich, Subscription, InviteAccount,
  CreateSubscription, ExternalAccountData, ApplicationUser, FilterApplicationUser, get_user,
  provider_eq,
}
use home_gate.Effects.{M, pure, gets, try_catch, for_each, ◌>>=◌, ◌>>◌}
use home_gate.Common.{
  ℕ, String, true, Option, none, some, List, [], ◌∷◌, ◌==◌, if◌then◌else◌, nat_eq, string_eq,
}
use home_gate.Repositories.Accounts
use home_gate.Repositories.Subscriptions

-- `inviteAccount.serviceName as IntegrationProvider`, none where no provider has the name.
abbrev pub as_provider : String → Option IntegrationProvider
as_provider name =
    if name == "jellyfin" then some jellyfin else if name == "immich" then some immich else none

abbrev pub account_of : ApplicationUser → ExternalAccountData
account_of user = record {
  external_account_id = some user.id;
  username = some user.username;
  email = none;
}

module _ (env : Environment) (default_expiry_days : ℕ) where
  abbrev pub linked_subscription : String → ℕ → ℕ → CreateSubscription
  linked_subscription user_id service_id now = record {
    user_id = user_id;
    service_id = service_id;
    status = SubscriptionStatus.active;
    expires_at = some (some (env.add_days default_expiry_days now));
    auto_renew = some true;
    derived_from_subscription_id = none;
    provisioned_at = some (some now);
  }

  -- The last `try` of `linkAccount`.
  unfoldable pub cascade_linked : Subscription → M (Unit {0})
  cascade_linked s = try_catch (on_activated env s) (λ e. pure tt)

  -- From the creation of the subscription on.
  unfoldable pub link_user : String → ℕ → ApplicationUser → M (Unit {0})
  link_user user_id service_id user = do
    now ← gets (λ w. w.now)
    created ← Subscriptions.create env (linked_subscription user_id service_id now)
    elim created [
      | none ↦ pure tt
      | some s ↦ do
        Accounts.create env s.id user_id service_id (record {
          external_account_id = some user.id;
          username = some user.username;
          email = none;
        })
        cascade_linked s
    ]

  unfoldable pub link_found : String → ℕ → ApplicationUser → M (Unit {0})
  link_found user_id service_id user = do
    existing ← gets (Accounts.find_by_external_id env service_id user.id)
    elim existing [ [] ↦ link_user user_id service_id user | a ∷ rest ↦ pure tt ]

  abbrev pub filter_of : InviteAccount → FilterApplicationUser
  filter_of account = record {
    username = account.username;
    email = account.email;
    user_service_account_id = account.account_id;
  }

  unfoldable pub ask_client : String → InviteAccount → Integration → M (Unit {0})
  ask_client user_id account client = do
    result ←
        ask (get_user client.name (filter_of account))
          (λ calls. client.get_user calls (filter_of account))
    elim result.user [
      | none ↦ pure tt
      | some user ↦ if result.ok then link_found user_id account.service_id user else pure tt
    ]

  unfoldable pub link_account : String → InviteAccount → M (Unit {0})
  link_account user_id account = elim (as_provider account.service_name) [
    | none ↦ pure tt
    | some name ↦ elim (env.providers name) [
      | none ↦ pure tt
      | some client ↦ ask_client user_id account client
    ]
  ]

  unfoldable pub handle_invite_claimed : String → List InviteAccount → M (Unit {0})
  handle_invite_claimed user_id accounts =
      for_each (λ account. try_catch (link_account user_id account) (λ e. pure tt)) accounts
