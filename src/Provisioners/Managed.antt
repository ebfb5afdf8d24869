-- ===== src/Provisioners/Managed.antt =====
-- managedAccount.provisioner.ts, with the contexts of ISubscriptionProvisioner.ts.
pub mod Sweeps
use home_gate.Common.{
  String, Bool, true, false, not, ◌&&◌, ◌||◌, Option, none, some, List, [], ◌∷◌, ◌==◌,
  if◌then◌else◌, is_some, is_value, nat_eq, string_eq,
}
use home_gate.Model.{
  IntegrationProvider, Service, Subscription, ExternalUserAccount, ExternalAccountData,
  ApplicationUser, FilterApplicationUser, CreateApplicationUser, Call, get_user, create_user,
  delete_user, disable_user, enable_user,
}
use home_gate.Effects.{
  Error, M, pure, throw, throw_if, expect, try_catch, for_each, bad_request, conflict,
  internal_server_error, service_unavailable, http, ◌>>=◌, ◌>>◌,
}
use Prim.Native.String
use home_gate.Environment.{Environment, Integration, ask}

-- ProvisionContext; `user` is `{ userId, email }`.
pub record ProvisionContext : Type 0 where
  pub user_id : String
  pub user_email : String
  pub service : Service
  pub username : Option String
  pub password : Option String
  pub email : Option String
  pub existing_subscription : Option Subscription
  pub existing_account : Option ExternalUserAccount
  pub reusable_account : Option ApplicationUser

pub record LifecycleContext : Type 0 where
  pub user_id : String
  pub email : String
  pub service : Service
  pub subscription : Subscription
  pub accounts : List ExternalUserAccount

pub data ExternalAccountStatus : Type 0 where
  missing active inactive not_applicable : ExternalAccountStatus

abbrev pub is_missing : ExternalAccountStatus → Bool
is_missing missing = true
is_missing _ = false

-- A text that is there and not empty: what `!text` negates.
abbrev pub is_truthy : Option String → Bool
is_truthy none = false
is_truthy (some s) = not (s == "")

-- The texts of the template literals.
pub message : List String → String
message [] = ""
message (s ∷ rest) = String.◌++◌ s (message rest)

abbrev pub account_filter : ExternalUserAccount → Option String → FilterApplicationUser
account_filter account email = record {
  username = account.username;
  email = email;
  user_service_account_id = account.external_account_id;
}

abbrev failed_to : Environment → String → LifecycleContext → Error
failed_to env verb ctx = http service_unavailable (
    message (
      "Failed to "
      ∷ verb
      ∷ " the external account for user '"
      ∷ ctx.user_id
      ∷ "' on service '"
      ∷ env.number_to_string ctx.service.id
      ∷ "'"
      ∷ []))

module _ (env : Environment) where
  -- AccountIntegrationRegistry.get
  unfoldable pub registry_get : Option IntegrationProvider → Option Integration
  registry_get none = none
  registry_get (some name) = env.providers name

  -- `email?.toLowerCase()`
  abbrev optional_lower : Option String → Option String
  optional_lower none = none
  optional_lower (some s) = some (env.to_lower_case s)

  resolve_provider : Service → M Integration
  resolve_provider service = expect (registry_get service.integration_provider) (
      http bad_request
        (message ("No account integration is available for service '" ∷ service.name ∷ "'" ∷ [])))

  find_reusable_account : ProvisionContext → Integration → M (Option ApplicationUser)
  find_reusable_account ctx provider = elim ctx.existing_account [
    | none ↦ pure none
    | some previous ↦ if not (is_truthy previous.external_account_id) then pure none else do
      let filter = account_filter previous none
      result ← ask (get_user provider.name filter) (λ calls. provider.get_user calls filter)
      pure (if result.ok then result.user else none)
  ]

  abbrev is_conflict : Error → Bool
  is_conflict (http conflict text) = true
  is_conflict _ = false

  -- The probe of `validate`: the vendor must not know an account of this name or address.
  check_availability : ProvisionContext → Integration → M (Unit {0})
  check_availability ctx provider =
      let filter : FilterApplicationUser = record {
        username = ctx.username;
        email = ctx.email;
        user_service_account_id = none;
      } in
      try_catch
        (do
          existing ← ask (get_user provider.name filter) (λ calls. provider.get_user calls filter)
          throw_if (existing.ok || is_some existing.user)
              (http conflict "Service account already exists"))
        (λ e.
          if is_conflict e
          then throw e
          else throw (http service_unavailable "Failed to verify service account availability"))

  -- Returns the context with `reusableAccount` set.
  unfoldable pub validate : ProvisionContext → M ProvisionContext
  unfolding resolve_provider find_reusable_account check_availability
  validate ctx = do
    provider ← resolve_provider ctx.service
    throw_if
        (provider.required_inputs.email
          && not (is_value (optional_lower ctx.email) (env.to_lower_case ctx.user_email)))
        (http bad_request "Email address must match the user's HomeGate account email address")
    throw_if (provider.required_inputs.username && not (is_truthy ctx.username)) (
        http bad_request
          (message ("A username is required to subscribe to '" ∷ ctx.service.name ∷ "'" ∷ [])))
    throw_if (provider.required_inputs.password && not (is_truthy ctx.password)) (
        http bad_request
          (message ("A password is required to subscribe to '" ∷ ctx.service.name ∷ "'" ∷ [])))
    reusable ← find_reusable_account ctx provider
    if is_some reusable then pure tt else check_availability ctx provider
    pure (record ctx { reusable_account = reusable })

  -- The account that `provision` reuses or creates.
  unfoldable pub provision : ProvisionContext → M (Option ExternalAccountData)
  unfolding resolve_provider
  provision ctx = do
    provider ← resolve_provider ctx.service
    elim ctx.reusable_account [
      | some reusable ↦ do
        let filter : FilterApplicationUser = record {
          username = some reusable.username;
          email = some ctx.user_email;
          user_service_account_id = some reusable.id;
        }
        enabled ←
            ask (enable_user provider.name filter) (λ calls. provider.enable_user calls filter)
        throw_if (not enabled)
            (http service_unavailable "Failed to re-enable existing service account")
        pure (
            some (record {
              external_account_id = some reusable.id;
              username = some reusable.username;
              email = ctx.email;
            }))
      | none ↦ do
        let new_user : CreateApplicationUser = record {
          username = ctx.username;
          password = ctx.password;
          email = ctx.email;
          display_name = ctx.username;
        }
        created ←
            ask (create_user provider.name new_user) (λ calls. provider.create_user calls new_user)
        let invalid =
            http internal_server_error "The account integration did not return a valid response"
        throw_if (not created.ok) invalid
        user ← expect created.user invalid
        pure (
            some (record {
              external_account_id = some user.id;
              username = some user.username;
              email = ctx.email;
            }))
    ]

  pub account_status : Integration → ExternalUserAccount → M ExternalAccountStatus
  account_status provider account = do
    let filter = account_filter account none
    result ← ask (get_user provider.name filter) (λ calls. provider.get_user calls filter)
    pure (
        if not result.ok then missing else elim result.user [
          | none ↦ missing
          | some user ↦ if user.is_active then active else inactive
        ])

  -- One round of the loop of `deprovision`.
  pub delete_account : LifecycleContext → Integration → ExternalUserAccount → M (Unit {0})
  unfolding account_status
  delete_account ctx provider account = do
    status ← account_status provider account
    elim status [
      | missing ↦ pure tt
      | _ ↦ do
        let filter = account_filter account (some ctx.email)
        done ← ask (delete_user provider.name filter) (λ calls. provider.delete_user calls filter)
        throw_if (not done) (failed_to env "delete" ctx)
    ]

  unfoldable pub disable_account :
      LifecycleContext → Integration → ExternalUserAccount → M (Unit {0})
  unfolding account_status
  disable_account ctx provider account = do
    status ← account_status provider account
    elim status [
      | active ↦ do
        let filter = account_filter account (some ctx.email)
        disabled ←
            ask (disable_user provider.name filter) (λ calls. provider.disable_user calls filter)
        throw_if (not disabled) (failed_to env "disable" ctx)
      | _ ↦ pure tt
    ]

  pub enable_account : LifecycleContext → Integration → ExternalUserAccount → M (Unit {0})
  unfolding account_status
  enable_account ctx provider account = do
    status ← account_status provider account
    elim status [
      | active ↦ pure tt
      | missing ↦ pure tt
      | _ ↦ do
        let filter = account_filter account (some ctx.email)
        enabled ←
            ask (enable_user provider.name filter) (λ calls. provider.enable_user calls filter)
        throw_if (not enabled) (failed_to env "enable" ctx)
    ]

  -- `if (ctx.accounts.length === 0) return`, then the loop over the accounts.
  pub sweep :
      (LifecycleContext → Integration → ExternalUserAccount → M (Unit {0}))
      → LifecycleContext
      → M (Unit {0})
  sweep round ctx = elim ctx.accounts [
    | [] ↦ pure tt
    | account ∷ accounts ↦ do
      provider ← resolve_provider ctx.service
      for_each (round ctx provider) (account ∷ accounts)
  ]

  pub deprovision : LifecycleContext → M (Unit {0})
  unfolding sweep resolve_provider
  deprovision = sweep delete_account

  unfoldable pub disable : LifecycleContext → M (Unit {0})
  unfolding sweep resolve_provider
  disable = sweep disable_account

  pub enable : LifecycleContext → M (Unit {0})
  unfolding sweep resolve_provider
  enable = sweep enable_account

  pub reset_password : LifecycleContext → ExternalUserAccount → String → M (Unit {0})
  unfolding resolve_provider
  reset_password ctx account new_password = do
    provider ← resolve_provider ctx.service
    throw_if (not (is_truthy account.external_account_id))
        (http bad_request "Service account is not provisioned yet")
    let filter = account_filter account none
    ok ←
        ask (Call.reset_password provider.name filter new_password)
          (λ calls. provider.reset_password calls filter new_password)
    throw_if (not ok) (http service_unavailable "Failed to reset the service account password")

  pub get_external_account_status : LifecycleContext → ExternalUserAccount → M ExternalAccountStatus
  get_external_account_status ctx account = elim (registry_get ctx.service.integration_provider) [
    | none ↦ pure missing
    | some provider ↦ account_status provider account
  ]
