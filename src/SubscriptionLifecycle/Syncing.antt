-- ===== src/SubscriptionLifecycle/Syncing.antt =====
-- `syncIntegrationAccounts` and `cleanupStaleLocalAccounts`: the accounts of a vendor are compared
-- with the local records.
pub mod Guards
use home_gate.Common.{
  String, Bool, true, false, not, ◌&&◌, ◌||◌, Option, none, some, List, [], ◌∷◌, ◌++◌, map, ltb,
  ◌==◌, if◌then◌else◌, is_value, length, any, keep, last, nat_eq, string_eq,
}
use home_gate.Model.{
  IntegrationProvider, FailedOperation, is_active, jellyfin, immich, Service, Subscription,
  ExternalUserAccount, ApplicationUser, FilterApplicationUser, World, get_all_users, delete_user,
  disable_user, enable_user,
}
use home_gate.Effects.{M, ◌>>◌, pure, for_each, returned, threw, ◌>>=◌}
use home_gate.Environment.{Environment, Integration, ask}
use home_gate.Repositories.Subscriptions
use home_gate.Repositories.Services
use home_gate.Repositories.Accounts
use home_gate.Provisioners.Managed.{registry_get, is_truthy, message}
use home_gate.SubscriptionService.{mark_subscription_failed}

-- One element of the array `accounts`.
pub record LinkedAccount : Type 0 where
  pub subscription : Subscription
  pub account : ExternalUserAccount

pub record ManagedService : Type 0 where
  pub provider : Integration
  pub service : Service
  pub accounts : List LinkedAccount

abbrev user_filter : ApplicationUser → FilterApplicationUser
user_filter u = record {
  username = some u.username;
  email = none;
  user_service_account_id = some u.id;
}

-- The map `localByExternalId`, as the list that it is built from.
abbrev pub linked : List LinkedAccount → List LinkedAccount
linked = keep (λ a. is_truthy a.account.external_account_id)

-- `localByExternalId.get(id)`
abbrev pub local_of : String → List LinkedAccount → Option LinkedAccount
local_of id accounts = last (λ a. is_value a.account.external_account_id id) (linked accounts)

-- `externalById.has(account.externalAccountId)`
abbrev pub is_known : Option String → List ApplicationUser → Bool
is_known none users = false
is_known (some id) users = any (λ u. u.id == id) users

-- `subscriptions.flatMap(...)`: the accounts of each subscription, in the order of the lists.
pub join : List Subscription → List ExternalUserAccount → List LinkedAccount
join [] accounts = []
join (s ∷ subscriptions) accounts =
    map (λ a. record { subscription = s; account = a })
      (keep (λ (a : ExternalUserAccount). a.subscription_id == s.id) accounts)
    ++ join subscriptions accounts

module _ (env : Environment) where
  -- A service without a registered provider is skipped.
  pub load : List Service → World → List ManagedService
  unfolding join
  load [] w = []
  load (service ∷ services) w =
      let rest = load services w in
      elim (registry_get env service.integration_provider) [
        | none ↦ rest
        | some provider ↦
            record {
              provider = provider;
              service = service;
              accounts =
                  join (Subscriptions.find_many env (λ s. s.service_id == service.id) w)
                    (Accounts.find_by_service_id env service.id w);
            }
            ∷ rest
      ]

  pub load_managed_service_accounts : World → List ManagedService
  unfolding load
  load_managed_service_accounts w = load (Services.find_enabled_managed env w) w

  -- One round of the loop of `syncExternalToLocal`.
  pub reconcile : Integration → List LinkedAccount → ApplicationUser → M (Unit {0})
  reconcile provider accounts u =
      let filter = user_filter u in
      elim (local_of u.id accounts) [
        | none ↦
            if u.is_admin
            then pure tt
            else ask (delete_user provider.name filter) (λ calls. provider.delete_user calls filter)
              >> pure tt
        | some a ↦
            if is_active a.subscription.status
            then if u.is_active
              then pure tt
              else ask (enable_user provider.name filter)
                  (λ calls. provider.enable_user calls filter)
                >> pure tt
            else if u.is_active
            then ask (disable_user provider.name filter)
                (λ calls. provider.disable_user calls filter)
              >> pure tt
            else pure tt
      ]

  -- With no local record at all and accounts at the vendor, the sweep is refused.
  pub sync_external_to_local :
      Integration → List ApplicationUser → List LinkedAccount → M (Unit {0})
  sync_external_to_local provider users accounts =
      if length (linked accounts) == 0 && ltb 0 (length users)
      then pure tt
      else for_each (reconcile provider accounts) users

  abbrev provider_name : IntegrationProvider → String
  provider_name jellyfin = "jellyfin"
  provider_name immich = "immich"

  pub flag_missing : Integration → List ApplicationUser → LinkedAccount → M (Unit {0})
  flag_missing provider users a =
      if not (is_active a.subscription.status) || not (is_truthy a.account.external_account_id)
      then pure tt
      else if not (is_known a.account.external_account_id users)
      then mark_subscription_failed env a.subscription.user_id a.subscription.service_id
          (message (
            "External account not found on '" ∷ provider_name provider.name ∷ "' during sync" ∷ []))
          FailedOperation.sync
      else pure tt

  pub sync_local_to_external :
      Integration → List ApplicationUser → List LinkedAccount → M (Unit {0})
  unfolding flag_missing
  sync_local_to_external provider users = for_each (flag_missing provider users)

  -- The `try` of `syncIntegrationAccounts`: a null answer skips the service.
  pub sync_one : ManagedService → M (Unit {0})
  unfolding sync_external_to_local sync_local_to_external
  sync_one m = do
    answer ← ask (get_all_users m.provider.name) m.provider.get_all_users
    elim answer [
      | none ↦ pure tt
      | some users ↦
          sync_external_to_local m.provider users m.accounts
          >> sync_local_to_external m.provider users m.accounts
    ]

  -- A loop over services with a `catch` that clears the flag `success`.
  pub over_services : (ManagedService → M (Unit {0})) → Bool → List ManagedService → M Bool
  over_services round success [] w = returned success w
  over_services round success (m ∷ rest) w = elim (round m w) [
    | returned _ w' ↦ over_services round success rest w'
    | threw e w' ↦ over_services round false rest w'
  ]

  pub sync_integration_accounts : M Bool
  unfolding over_services sync_one load_managed_service_accounts
  sync_integration_accounts w = over_services sync_one true (load_managed_service_accounts w) w

  pub drop_record : List ApplicationUser → LinkedAccount → M (Unit {0})
  drop_record users a =
      if is_active a.subscription.status || not (is_truthy a.account.external_account_id)
      then pure tt
      else if not (is_known a.account.external_account_id users)
      then Subscriptions.delete env a.subscription.user_id a.subscription.service_id
      else pure tt

  pub cleanup_one : ManagedService → M (Unit {0})
  unfolding drop_record
  cleanup_one m = do
    answer ← ask (get_all_users m.provider.name) m.provider.get_all_users
    elim answer [ none ↦ pure tt | some users ↦ for_each (drop_record users) m.accounts ]

  pub cleanup_stale_local_accounts : M Bool
  unfolding over_services cleanup_one load_managed_service_accounts
  cleanup_stale_local_accounts w =
      over_services cleanup_one true (load_managed_service_accounts w) w
