-- ===== src/ServiceManagement.antt =====
-- server/src/api/services/serviceManagement.service.ts: the operations on a service that is there.
-- The listings are reads of a page and are left out.
pub mod Slugs
pub mod Creating
pub mod Deleting
pub mod Sources
pub mod Storing
pub mod Switching
pub mod Updating
pub mod Requests
use home_gate.Environment.{Integration, Environment}
use home_gate.Effects.{M, ◌>>=◌, ◌>>◌, pure, expect, not_found, conflict, http, returned, threw}
use home_gate.Model.{Service, ApplicationUserRequirements}
use home_gate.Common.{
  String, Bool, Option, none, some, ◌==◌, if◌then◌else◌, is_some, nat_eq, string_eq,
}
use home_gate.Repositories.Services
use home_gate.IntegrationRegistry
use mathlib.Core.Option
use Prim.Native.String

-- ServiceResponseDto: the fields of the service, and what its integration asks for.
pub record ServiceResponse : Type 0 where
  pub service : Service
  pub required_inputs : Option ApplicationUserRequirements

-- ServicePatchRequestDto; an image URL that is undefined is none, and one that is null `some none`.
pub record ServicePatchRequest : Type 0 where
  pub slug : String
  pub enabled : Bool
  pub url : Option String
  pub image_url : Option (Option String)

-- `Service '${slug}' …`
abbrev pub about_service : String → String → String
about_service slug text = String.◌++◌ "Service '" (String.◌++◌ slug (String.◌++◌ "'" text))

module _ (env : Environment) where
  -- `this.integrationRegistry.get(service.integrationProvider)`
  abbrev pub provider_of : Service → Option Integration
  provider_of s = elim s.integration_provider [ none ↦ none | some name ↦ env.providers name ]

  abbrev pub service_model_to_response : Service → ServiceResponse
  service_model_to_response s = record {
    service = s;
    required_inputs = Option.map (λ (p : Integration). p.required_inputs) (provider_of s);
  }

  unfoldable pub find_service : String → M Service
  find_service slug w =
      expect (Services.find_by_slug env slug w) (http not_found (about_service slug " not found")) w

  -- What the writes by slug answer with.
  abbrev pub respond : String → Option Service → M ServiceResponse
  respond slug none w = threw (http not_found (about_service slug " not found")) w
  respond slug (some s) w = returned (service_model_to_response s) w

  -- The provider is told, where there is one, and the flag is set otherwise.
  unfoldable pub write_enabled : String → Service → Bool → M (Unit {0})
  write_enabled slug s enabled w = elim s.integration_provider [
    | none ↦ (Services.set_enabled env slug enabled >> pure tt) w
    | some name ↦
        if is_some (env.providers name)
        then IntegrationRegistry.switch env enabled name w
        else (Services.set_enabled env slug enabled >> pure tt) w
  ]

  -- `enable` and `disable` call it.
  unfoldable pub set_enabled : String → Bool → M ServiceResponse
  set_enabled slug enabled = do
    service ← find_service slug
    write_enabled slug service enabled
    updated ← find_service slug
    pure (service_model_to_response updated)

  unfoldable pub update_slug : String → String → M ServiceResponse
  update_slug slug new_slug w =
      if new_slug == slug
      then (find_service slug >>= (λ s. pure (service_model_to_response s))) w
      else if is_some (Services.find_by_slug env new_slug w)
      then threw
          (http conflict
            (String.◌++◌ "A service with slug '" (String.◌++◌ new_slug "' already exists")))
          w
      else (Services.set_slug env slug new_slug >>= respond slug) w

  unfoldable pub update_image_url : String → Option String → M ServiceResponse
  update_image_url slug image_url = Services.set_image_url env slug image_url >>= respond slug

  unfoldable pub update_url : String → Option String → M ServiceResponse
  update_url slug url = Services.set_url env slug url >>= respond slug

  -- The slug from which on the update goes.
  unfoldable pub rename : String → String → M String
  rename slug new_slug =
      if new_slug == slug
      then pure slug
      else update_slug slug new_slug >>= (λ r. pure r.service.slug)

  -- The last read is asserted to find the service.
  unfoldable pub finish_update : String → Option (Option String) → M ServiceResponse
  finish_update slug none w = respond slug (Services.find_by_slug env slug w) w
  finish_update slug (some image_url) w = update_image_url slug image_url w

  unfoldable pub update : String → ServicePatchRequest → M ServiceResponse
  update slug request = do
    current_slug ← rename slug request.slug
    set_enabled current_slug request.enabled
    update_url current_slug request.url
    finish_update current_slug request.image_url
