-- ===== src/ServiceManagement/Switching.antt =====
-- What enabling or disabling a service keeps.

use home_gate.Common.{
  String, ◌≡◌, refl, sym, ◌⊎◌, inl, inr, Bool, not, ◌&&◌, ◌||◌, Option, none, some, arith,
  Bool-cases, Option-cases, is_some,
}
use home_gate.Model.{IntegrationProvider, Service, World}
use home_gate.Effects.{◌>>◌, pure, final, Keeps, bind-Keeps, then-Keeps, expect-Keeps, returned}
use home_gate.Environment.{Environment}
use home_gate.ServiceManagement.{find_service, respond, write_enabled, set_enabled}
use home_gate.ServiceManagement.Sources.{IsSourced, update_by_slug-IsSourced}
use mathlib.Core.Path.{subst}
use home_gate.Repositories.Services
use home_gate.IntegrationRegistry

module _ (env : Environment) where
  pub find_service-Keeps : (slug : String) → Keeps (IsSourced env) (find_service env slug)
  unfolding find_service
  find_service-Keeps slug w h =
      expect-Keeps (IsSourced env) (Services.find_by_slug env slug w) _ w h

  pub respond-Keeps :
      (slug : String) (o : Option Service) → Keeps (IsSourced env) (respond env slug o)
  respond-Keeps slug none w h = h
  respond-Keeps slug (some s) w h = h

  set_enabled_row-Keeps :
      (slug : String) (enabled : Bool)
      → Keeps (IsSourced env) (Services.set_enabled env slug enabled >> pure tt)
  unfolding Services.set_enabled
  set_enabled_row-Keeps slug enabled =
      then-Keeps (IsSourced env) (Services.set_enabled env slug enabled) (pure tt)
        (update_by_slug-IsSourced env slug (λ s. record s { enabled = enabled })
          (record { id = λ s. refl; account_type = λ s. refl; source = λ s. refl }))
        (λ w h. h)

  -- Either nothing is done or a row is switched.
  switch-cases :
      (enabled : Bool) (name : IntegrationProvider) (w : World)
      → (IntegrationRegistry.switch env enabled name w ≡ returned tt w)
        ⊎ ((slug : String) × (IntegrationRegistry.switch env enabled name w
              ≡ (Services.set_enabled env slug enabled >> pure tt) w))
  unfolding IntegrationRegistry.switch
  switch-cases enabled name w = elim (Option-cases (env.providers name)) [
    | inl e ↦ inl (ground arith)
    | inr (provider, e) ↦ elim (Option-cases (Services.find_by_integration_provider env name w)) [
      | inl f ↦ inl (ground arith)
      | inr (s, f) ↦ elim (Bool-cases ((s.enabled && enabled) || (not s.enabled && not enabled))) [
        | inl g ↦ inl (ground arith)
        | inr g ↦ inr (s.slug, ground arith)
      ]
    ]
  ]

  write_enabled-cases :
      (slug : String) (s : Service) (enabled : Bool) (w : World)
      → (write_enabled env slug s enabled w ≡ returned tt w)
        ⊎ ((slug' : String) × (write_enabled env slug s enabled w
              ≡ (Services.set_enabled env slug' enabled >> pure tt) w))
  unfolding write_enabled
  write_enabled-cases slug s enabled w = elim (Option-cases s.integration_provider) [
    | inl e ↦ inr (slug, ground arith)
    | inr (name, e) ↦ elim (Bool-cases (is_some (env.providers name))) [
      | inr f ↦ inr (slug, ground arith)
      | inl f ↦ elim (switch-cases enabled name w) [
        | inl g ↦ inl (ground arith)
        | inr (slug', g) ↦ inr (slug', ground arith)
      ]
    ]
  ]

  write_enabled-Keeps :
      (slug : String) (s : Service) (enabled : Bool)
      → Keeps (IsSourced env) (write_enabled env slug s enabled)
  write_enabled-Keeps slug s enabled w h = elim (write_enabled-cases slug s enabled w) [
    | inl e ↦ subst (λ o. IsSourced env (final o)) (sym e) h
    | inr (slug', e) ↦
        subst (λ o. IsSourced env (final o)) (sym e) (set_enabled_row-Keeps slug' enabled w h)
  ]

  pub set_enabled-Keeps :
      (slug : String) (enabled : Bool) → Keeps (IsSourced env) (set_enabled env slug enabled)
  unfolding set_enabled
  set_enabled-Keeps slug enabled =
      bind-Keeps (IsSourced env) (find_service env slug) _ (find_service-Keeps slug) (λ s.
        then-Keeps (IsSourced env) (write_enabled env slug s enabled) _
          (write_enabled-Keeps slug s enabled)
          (bind-Keeps (IsSourced env) (find_service env slug) _ (find_service-Keeps slug)
            (λ t w h. h)))
