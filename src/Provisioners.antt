-- ===== src/Provisioners.antt =====
-- server/src/core/subscriptions/provisioners/subscriptionProvisioner.resolver.ts: each operation of
-- the provisioner that the service's account type selects. The resolver's map has every account
-- type, so `resolve` never throws.
pub mod Managed
pub mod Referenced
pub mod Writes
use home_gate.Common.{String, Option, none}
use home_gate.Model.{managed, referenced, no_account, ExternalUserAccount, ExternalAccountData}
use home_gate.Effects.{Error, M, pure, throw, plain}
use home_gate.Environment.{Environment}
use Managed.{ProvisionContext, LifecycleContext, ExternalAccountStatus, not_applicable}

-- `throw new Error('NOT_SUPPORTED')` of the provisioners that own no account.
abbrev not_supported : Error
not_supported = plain "NOT_SUPPORTED"

module _ (env : Environment) where
  unfoldable pub validate : ProvisionContext → M ProvisionContext
  validate ctx = elim ctx.service.account_type [
    | managed ↦ Managed.validate env ctx
    | referenced ↦ Referenced.validate env ctx
    | no_account ↦ pure ctx
  ]

  unfoldable pub provision : ProvisionContext → M (Option ExternalAccountData)
  provision ctx = elim ctx.service.account_type [
    | managed ↦ Managed.provision env ctx
    | referenced ↦ pure none
    | no_account ↦ pure none
  ]

  unfoldable pub deprovision : LifecycleContext → M (Unit {0})
  deprovision ctx = elim ctx.service.account_type [
    | managed ↦ Managed.deprovision env ctx
    | referenced ↦ pure tt
    | no_account ↦ pure tt
  ]

  unfoldable pub disable : LifecycleContext → M (Unit {0})
  disable ctx = elim ctx.service.account_type [
    | managed ↦ Managed.disable env ctx
    | referenced ↦ pure tt
    | no_account ↦ pure tt
  ]

  unfoldable pub enable : LifecycleContext → M (Unit {0})
  enable ctx = elim ctx.service.account_type [
    | managed ↦ Managed.enable env ctx
    | referenced ↦ pure tt
    | no_account ↦ pure tt
  ]

  pub reset_password : LifecycleContext → ExternalUserAccount → String → M (Unit {0})
  reset_password ctx account new_password = elim ctx.service.account_type [
    | managed ↦ Managed.reset_password env ctx account new_password
    | referenced ↦ throw not_supported
    | no_account ↦ throw not_supported
  ]

  pub get_external_account_status : LifecycleContext → ExternalUserAccount → M ExternalAccountStatus
  get_external_account_status ctx account = elim ctx.service.account_type [
    | managed ↦ Managed.get_external_account_status env ctx account
    | referenced ↦ pure not_applicable
    | no_account ↦ pure not_applicable
  ]
