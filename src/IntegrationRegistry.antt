-- ===== src/IntegrationRegistry.antt =====
-- server/src/core/integrations/accountIntegrationRegistry.ts. The map `providers` is the list of
-- the registered integrations, in the order of their registration; once the server runs, the
-- services see it as the function `providers` of the environment. No integration of the repository
-- has a hook `onEnable` or `onDisable`.
pub mod Registration
use home_gate.Environment.{Integration, Environment}
use home_gate.Effects.{M, ◌>>◌, pure, plain, returned, threw}
use home_gate.Model.{IntegrationProvider, World, provider_eq}
use home_gate.Common.{
  Bool, false, not, ◌&&◌, ◌||◌, Option, none, some, List, [], ◌∷◌, ◌++◌, ◌==◌, if◌then◌else◌,
  is_some, first, nat_eq, string_eq,
}
use home_gate.Repositories.Services

-- `this.providers.get(name) ?? null`
abbrev pub get : List Integration → IntegrationProvider → Option Integration
get registry name = first (λ i. i.name == name) registry

abbrev pub has : List Integration → IntegrationProvider → Bool
has registry name = is_some (get registry name)

module _ (env : Environment) where
  -- The result is the map after the call.
  unfoldable pub register : Integration → List Integration → M (List Integration)
  register provider registry w =
      if has registry provider.name
      then threw (plain "Account integration provider is already registered") w
      else elim (Services.find_by_integration_provider env provider.name w) [
        | none ↦ returned registry w
        | some service ↦ returned (registry ++ provider ∷ []) w
      ]

  -- The registrations at the start of the server, one after the other.
  unfoldable pub register_all : List Integration → List Integration → M (List Integration)
  register_all [] registry w = returned registry w
  register_all (provider ∷ rest) registry w = elim (register provider registry w) [
    | returned registry' w' ↦ register_all rest registry' w'
    | threw e w' ↦ threw e w'
  ]

  pub is_enabled : IntegrationProvider → World → Bool
  is_enabled name w = elim (Services.find_by_integration_provider env name w) [
    | none ↦ false
    | some service ↦ service.enabled
  ]

  -- `enable` and `disable`.
  unfoldable pub switch : Bool → IntegrationProvider → M (Unit {0})
  switch enabled name w = elim (env.providers name) [
    | none ↦ returned tt w
    | some provider ↦ elim (Services.find_by_integration_provider env name w) [
      | none ↦ returned tt w
      | some service ↦
          if (service.enabled && enabled) || (not service.enabled && not enabled)
          then returned tt w
          else (Services.set_enabled env service.slug enabled >> pure tt) w
    ]
  ]
