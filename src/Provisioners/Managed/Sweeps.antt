-- ===== src/Provisioners/Managed/Sweeps.antt =====
-- The managed provisioner talks to the vendor and writes nothing itself.
use home_gate.Common.{◌≡◌, refl, inl, inr, List, [], ◌∷◌, arith, Option-cases}
use home_gate.Model.{ExternalUserAccount, World}
use home_gate.Effects.{M, for_each, final, for_each-keeps, returned}
use home_gate.Environment.{Environment, Integration, ask, OnlyCalls, OnlyCalls-trans}
use home_gate.Provisioners.Managed.{
  ProvisionContext, LifecycleContext, validate, provision, account_status, delete_account,
  disable_account, enable_account, sweep, deprovision, disable, enable, get_external_account_status,
  registry_get, resolve_provider,
}

-- A loop whose rounds only make calls only makes calls.
for_each-OnlyCalls :
    {A : Type 0} (body : A → M (Unit {0}))
    → ((a : A) (w : World) → OnlyCalls w (final (body a w)))
    → (l : List A) (w : World) → OnlyCalls w (final (for_each body l w))
for_each-OnlyCalls body h l w =
    for_each-keeps (OnlyCalls w) body (λ a v p. OnlyCalls-trans w v _ p (h a v)) l w refl

module _ (env : Environment) where
  pub account_status-OnlyCalls :
      (provider : Integration) (account : ExternalUserAccount) (w : World)
      → OnlyCalls w (final (account_status env provider account w))
  unfolding account_status ask
  account_status-OnlyCalls provider account w = ground arith

  pub delete_account-OnlyCalls :
      (ctx : LifecycleContext) (provider : Integration) (account : ExternalUserAccount) (w : World)
      → OnlyCalls w (final (delete_account env ctx provider account w))
  unfolding delete_account ask
  delete_account-OnlyCalls ctx provider account w = ground arith

  pub provision-OnlyCalls :
      (ctx : ProvisionContext) (w : World) → OnlyCalls w (final (provision env ctx w))
  unfolding provision ask
  provision-OnlyCalls ctx w = ground arith

  pub validate-OnlyCalls :
      (ctx : ProvisionContext) (w : World) → OnlyCalls w (final (validate env ctx w))
  unfolding validate ask
  validate-OnlyCalls ctx w = ground arith

  disable_account-OnlyCalls :
      (ctx : LifecycleContext) (provider : Integration) (account : ExternalUserAccount) (w : World)
      → OnlyCalls w (final (disable_account env ctx provider account w))
  unfolding disable_account ask
  disable_account-OnlyCalls ctx provider account w = ground arith

  enable_account-OnlyCalls :
      (ctx : LifecycleContext) (provider : Integration) (account : ExternalUserAccount) (w : World)
      → OnlyCalls w (final (enable_account env ctx provider account w))
  unfolding enable_account ask
  enable_account-OnlyCalls ctx provider account w = ground arith

  sweep-OnlyCalls :
      (round : LifecycleContext → Integration → ExternalUserAccount → M (Unit {0}))
      (ctx : LifecycleContext)
      → ((provider : Integration) (account : ExternalUserAccount) (w : World)
          → OnlyCalls w (final (round ctx provider account w)))
      → (accounts : List ExternalUserAccount) → ctx.accounts ≡ accounts
      → (w : World) → OnlyCalls w (final (sweep env round ctx w))
  unfolding sweep resolve_provider
  sweep-OnlyCalls round ctx h [] e w = ground arith
  sweep-OnlyCalls round ctx h (a ∷ accounts) e w =
      elim (Option-cases (registry_get env ctx.service.integration_provider)) [
        | inl absent ↦ ground arith
        | inr (provider, found) ↦
            ground (arith, for_each-OnlyCalls (round ctx provider) (h provider) (a ∷ accounts) w)
      ]

  pub deprovision-OnlyCalls :
      (ctx : LifecycleContext) (w : World) → OnlyCalls w (final (deprovision env ctx w))
  unfolding deprovision
  deprovision-OnlyCalls ctx w =
      sweep-OnlyCalls (delete_account env) ctx (delete_account-OnlyCalls ctx) ctx.accounts refl w

  pub disable-OnlyCalls :
      (ctx : LifecycleContext) (w : World) → OnlyCalls w (final (disable env ctx w))
  unfolding disable
  disable-OnlyCalls ctx w =
      sweep-OnlyCalls (disable_account env) ctx (disable_account-OnlyCalls ctx) ctx.accounts refl w

  pub enable-OnlyCalls :
      (ctx : LifecycleContext) (w : World) → OnlyCalls w (final (enable env ctx w))
  unfolding enable
  enable-OnlyCalls ctx w =
      sweep-OnlyCalls (enable_account env) ctx (enable_account-OnlyCalls ctx) ctx.accounts refl w

  pub get_external_account_status-OnlyCalls :
      (ctx : LifecycleContext) (account : ExternalUserAccount) (w : World)
      → OnlyCalls w (final (get_external_account_status env ctx account w))
  unfolding get_external_account_status account_status ask
  get_external_account_status-OnlyCalls ctx account w = ground arith

  -- The checked context differs from the given one in the account to reuse at most.
  pub validate-same :
      (ctx ctx' : ProvisionContext) (w w' : World)
      → validate env ctx w ≡ returned ctx' w'
      → ctx' ≡ record ctx { reusable_account = ctx'.reusable_account }
  unfolding validate ask
  validate-same ctx ctx' w w' e = ground arith
