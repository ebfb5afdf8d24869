-- ===== src/SubscriptionService/Responses.antt =====
-- The mappers of subscriptions.service.ts, and `getById`. The paginated listings are left out.
use home_gate.Common.{
  ℕ, String, Bool, true, false, Option, none, some, List, [], ◌∷◌, map, ◌==◌, or_else, is_value,
  first, last, nat_eq, string_eq,
}
use home_gate.Model.{
  AccountType, SubscriptionStatus, no_account, Service, Subscription, ExternalUserAccount,
  UserServicePolicy, ExternalAccountData, World,
}
use home_gate.Effects.{M, gets, ◌>>=◌}
use home_gate.Environment.{Environment}
use home_gate.Repositories.Accounts
use home_gate.Repositories.Policies
use home_gate.Repositories.Services
use home_gate.UserService
use home_gate.UserService.{UserResponse}
use home_gate.SubscriptionService.{get_raw_by_id, get_account_cap}
use mathlib.Core.Option

-- SubscriptionAccountDto
pub record SubscriptionAccount : Type 0 where
  pub id : String
  pub external_account_id : Option String
  pub username : Option String
  pub email : Option String

-- SubscriptionResponseDto
pub record SubscriptionResponse : Type 0 where
  pub id : String
  pub user_id : String
  pub service_id : ℕ
  pub username : Option String
  pub status : SubscriptionStatus
  pub auto_renew : Bool
  pub created_at : ℕ
  pub updated_at : ℕ
  pub expires_at : Option ℕ
  pub provisioned_at : Option ℕ
  pub cancelled_at : Option ℕ
  pub derived_from_subscription_id : Option String
  pub account_type : AccountType
  pub accounts : List SubscriptionAccount
  pub account_cap : ℕ
  pub service_name : Option String
  pub service_slug : Option String
  pub user_username : Option String
  pub user_email : Option String

pub map_subscription : Subscription → Option String → Option Service → SubscriptionResponse
map_subscription s username service = record {
  id = s.id;
  user_id = s.user_id;
  service_id = s.service_id;
  username = username;
  status = s.status;
  auto_renew = s.auto_renew;
  created_at = s.created_at;
  updated_at = s.updated_at;
  expires_at = s.expires_at;
  provisioned_at = s.provisioned_at;
  cancelled_at = s.cancelled_at;
  derived_from_subscription_id = s.derived_from_subscription_id;
  account_type = or_else (Option.map (λ (v : Service). v.account_type) service) no_account;
  accounts = [];
  account_cap = 1;
  service_name = Option.map (λ (v : Service). v.name) service;
  service_slug = Option.map (λ (v : Service). v.slug) service;
  user_username = none;
  user_email = none;
}

pub map_account : ExternalUserAccount → SubscriptionAccount
map_account a = record {
  id = a.id;
  external_account_id = a.external_account_id;
  username = a.username;
  email = a.email;
}

-- `accounts[0]?.username ?? null`
abbrev first_username : List SubscriptionAccount → Option String
first_username [] = none
first_username (a ∷ accounts) = a.username

-- `a === b` on two values that may be null
abbrev same_text : Option String → Option String → Bool
same_text none none = true
same_text (some a) b = is_value b a
same_text none (some b) = false

module _ (env : Environment) where
  pub compose_subscription_response :
      Subscription
      → List ExternalUserAccount
      → Option ExternalAccountData
      → Option Service
      → World
      → SubscriptionResponse
  unfolding map_subscription map_account
  compose_subscription_response s existing_accounts provisioned service w =
      let accounts : List SubscriptionAccount = elim provisioned [
        | none ↦ map map_account existing_accounts
        | some p ↦
            let reused =
              first (λ a. same_text a.external_account_id p.external_account_id)
                existing_accounts in
            record {
              id = or_else (Option.map (λ (a : ExternalUserAccount). a.id) reused) "";
              external_account_id = p.external_account_id;
              username = p.username;
              email = p.email;
            }
            ∷ []
      ] in
      record (map_subscription s (first_username accounts) service) {
        accounts = accounts;
        account_cap = get_account_cap env s.user_id s.service_id w;
      }

  -- One subscription of `hydrateSubscriptionDetails`: the maps that it builds are read at the
  -- subscription's own keys, and of two policies of one key the later one is in the map.
  pub hydrate : World → Subscription → SubscriptionResponse
  unfolding map_subscription map_account
  hydrate w s =
      let user = UserService.get_user_by_id env s.user_id w in
      let linked = map map_account (Accounts.find_by_subscription_id env s.id w) in
      let policy =
        last (λ (p : UserServicePolicy). p.service_id == s.service_id)
          (Policies.find_by_user_id env s.user_id w) in
      record (map_subscription s (first_username linked) (Services.find_by_id env s.service_id w)) {
        accounts = linked;
        account_cap =
            or_else (Option.map (λ (p : UserServicePolicy). p.accounts_per_service) policy) 1;
        user_username = Option.map (λ (u : UserResponse). u.username) user;
        user_email = Option.map (λ (u : UserResponse). u.email) user;
      }

  pub hydrate_subscription_details : List Subscription → World → List SubscriptionResponse
  unfolding hydrate
  hydrate_subscription_details subscriptions w = map (hydrate w) subscriptions

  unfoldable pub get_by_id : String → M SubscriptionResponse
  unfolding get_raw_by_id hydrate
  get_by_id id = do s ← get_raw_by_id env id; gets (λ w. hydrate w s)
