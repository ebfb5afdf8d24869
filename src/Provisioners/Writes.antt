-- ===== src/Provisioners/Writes.antt =====
-- What the provisioners leave alone.
use home_gate.Common.{String, ◌≡◌, ◌≢◌, arith}
use home_gate.Model.{managed, ExternalUserAccount, World}
use home_gate.Effects.{final, returned}
use home_gate.Environment.{Environment, OnlyCalls}
use home_gate.Provisioners.Managed.{ProvisionContext, LifecycleContext}
use home_gate.Provisioners.Referenced
use home_gate.Provisioners.Managed.Sweeps
use home_gate.Provisioners.{
  validate, provision, deprovision, disable, enable, reset_password, get_external_account_status,
}

module _ (env : Environment) (w : World) where
  pub validate-OnlyCalls : (ctx : ProvisionContext) → OnlyCalls w (final (validate env ctx w))
  unfolding validate
  validate-OnlyCalls ctx =
      ground (arith, Sweeps.validate-OnlyCalls env ctx w, Referenced.validate-final env ctx w)

  -- The checked context differs from the given one in the account to reuse at most.
  pub validate-same :
      (ctx ctx' : ProvisionContext) (w' : World)
      → validate env ctx w ≡ returned ctx' w'
      → ctx' ≡ record ctx { reusable_account = ctx'.reusable_account }
  unfolding validate
  validate-same ctx ctx' w' e =
      ground
        (arith, Sweeps.validate-same env ctx ctx' w w', Referenced.validate-same env ctx ctx' w w')

  pub provision-OnlyCalls : (ctx : ProvisionContext) → OnlyCalls w (final (provision env ctx w))
  unfolding provision
  provision-OnlyCalls ctx = ground (arith, Sweeps.provision-OnlyCalls env ctx w)

  module _ (ctx : LifecycleContext) where
    pub deprovision-OnlyCalls : OnlyCalls w (final (deprovision env ctx w))
    unfolding deprovision
    deprovision-OnlyCalls = ground (arith, Sweeps.deprovision-OnlyCalls env ctx w)

    pub disable-OnlyCalls : OnlyCalls w (final (disable env ctx w))
    unfolding disable
    disable-OnlyCalls = ground (arith, Sweeps.disable-OnlyCalls env ctx w)

    pub enable-OnlyCalls : OnlyCalls w (final (enable env ctx w))
    unfolding enable
    enable-OnlyCalls = ground (arith, Sweeps.enable-OnlyCalls env ctx w)

    pub get_external_account_status-OnlyCalls :
        (account : ExternalUserAccount)
        → OnlyCalls w (final (get_external_account_status env ctx account w))
    unfolding get_external_account_status
    get_external_account_status-OnlyCalls account =
        ground (arith, Sweeps.get_external_account_status-OnlyCalls env ctx account w)

  -- For a service that is not MANAGED, neither subscribing nor any later operation of its provisioner
  -- calls an integration or changes the state in any other way.
  pub unmanaged-final :
      (p : ProvisionContext) (ctx : LifecycleContext) (account : ExternalUserAccount)
      (text : String)
      → p.service.account_type ≢ managed
      → ctx.service.account_type ≢ managed
      → (final (validate env p w) ≡ w)
        × (final (provision env p w) ≡ w)
        × (final (deprovision env ctx w) ≡ w)
        × (final (disable env ctx w) ≡ w)
        × (final (enable env ctx w) ≡ w)
        × (final (reset_password env ctx account text w) ≡ w)
        × (final (get_external_account_status env ctx account w) ≡ w)
  unfolding validate provision deprovision disable enable reset_password get_external_account_status
  unmanaged-final p ctx account text h k = (
    ground (arith, Referenced.validate-final env p w),
    ground arith,
    ground arith,
    ground arith,
    ground arith,
    ground arith,
    ground arith,
  )
