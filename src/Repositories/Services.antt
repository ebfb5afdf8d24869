-- ===== src/Repositories/Services.antt =====
-- server/src/data/repositories/service.repository.ts. The name, the slug and the provider are
-- unique; deleting a row does what server/prisma/models/entities.prisma says.

use home_gate.Repositories.Errors.{map_prisma_error, p2002, p2003, p2025}
use home_gate.Effects.{M, returned, threw}
use home_gate.Environment.{Environment}
use home_gate.Model.{IntegrationProvider, AccountType, is_managed, Service, World, provider_eq}
use home_gate.Common.{
  ℕ, ◌+◌, String, ◌≡◌, Bool, false, not, ◌&&◌, ◌||◌, Option, none, some, List, ◌==◌, nat_eq,
  if◌then◌else◌, is_some, holds, is_value, head?, any, string_eq,
}

-- CreateServiceModel
pub record CreateService : Type 0 where
  pub name : String
  pub slug : String
  pub enabled : Bool
  pub url : Option String
  pub image_url : Option String
  pub account_type : AccountType
  pub integration_provider : Option IntegrationProvider
  pub account_source_service_id : Option ℕ
  pub default_allowed : Bool

abbrev pub new_row : ℕ → CreateService → Service
new_row id request = record {
  id = id;
  name = request.name;
  slug = request.slug;
  enabled = request.enabled;
  url = request.url;
  image_url = request.image_url;
  account_type = request.account_type;
  integration_provider = request.integration_provider;
  account_source_service_id = request.account_source_service_id;
  default_allowed = request.default_allowed;
}

-- A row that a new one would share a unique column with.
abbrev pub clashes : CreateService → Service → Bool
clashes request s =
    s.name == request.name
    || s.slug == request.slug
    || holds (is_value s.integration_provider) request.integration_provider

module _ (env : Environment) where
  unfoldable pub find_by_id : ℕ → World → Option Service
  find_by_id id w = env.services.find (λ s. s.id == id) w.services

  pub find_by_id-id :
      (id : ℕ) (w : World) (service : Service) → find_by_id id w ≡ some service → service.id ≡ id
  unfolding find_by_id
  find_by_id-id id w service e =
      (nat_eq.beq_iff service.id id).0 (env.services.find-sound (λ s. s.id == id) _ service e)

  unfoldable pub find_by_slug : String → World → Option Service
  find_by_slug slug w = env.services.find (λ s. s.slug == slug) w.services

  pub find_enabled : World → List Service
  find_enabled w = env.services.find_many (λ s. s.enabled) w.services

  -- `findMany({ accountSourceServiceId, enabled: true }, MAX_SAFE_INTEGER)`
  pub find_enabled_by_source : ℕ → World → List Service
  find_enabled_by_source source w =
      env.services.find_many (λ s. is_value s.account_source_service_id source && s.enabled)
        w.services

  -- `findMany({ enabled: true, accountType: MANAGED }, MAX_SAFE_INTEGER)`
  pub find_enabled_managed : World → List Service
  find_enabled_managed w =
      env.services.find_many (λ s. s.enabled && is_managed s.account_type) w.services

  unfoldable pub find_by_integration_provider : IntegrationProvider → World → Option Service
  find_by_integration_provider provider w =
      env.services.find (λ s. is_value s.integration_provider provider) w.services

  -- `findMany({ name }, 1)`, of which the callers read the first row.
  unfoldable pub find_by_name : String → World → Option Service
  find_by_name name w = head? (env.services.find_many (λ s. s.name == name) w.services)

  pub is_enabled : String → World → Bool
  unfolding find_by_slug
  is_enabled slug w = elim (find_by_slug slug w) [ none ↦ false | some s ↦ s.enabled ]

  -- `this.db.service.update({ where: { slug }, data })`
  unfoldable pub update_by_slug : String → (Service → Service) → M (Option Service)
  update_by_slug slug f w = elim (find_by_slug slug w) [
    | none ↦ threw (map_prisma_error p2025) w
    | some s ↦
        returned (some (f s))
          (record w { services = env.services.update (λ s. s.slug == slug) f w.services })
  ]

  unfoldable pub set_enabled : String → Bool → M (Option Service)
  set_enabled slug enabled = update_by_slug slug (λ s. record s { enabled = enabled })

  unfoldable pub set_slug : String → String → M (Option Service)
  set_slug slug new_slug w =
      if is_some (find_by_slug slug w)
        && is_some (find_by_slug new_slug w)
        && not (new_slug == slug)
      then threw (map_prisma_error p2002) w
      else update_by_slug slug (λ s. record s { slug = new_slug }) w

  unfoldable pub set_image_url : String → Option String → M (Option Service)
  set_image_url slug image_url = update_by_slug slug (λ s. record s { image_url = image_url })

  unfoldable pub set_url : String → Option String → M (Option Service)
  set_url slug url = update_by_slug slug (λ s. record s { url = url })

  unfoldable pub create : CreateService → M (Option Service)
  create request w =
      if is_some (env.services.find (clashes request) w.services)
      then threw (map_prisma_error p2002) w
      else let row = new_row (env.serial w.created) request in
        returned (some row)
          (record w { services = env.services.insert row w.services; created = w.created + 1 })

  -- A row that stops a service from being deleted (onDelete: NoAction).
  unfoldable pub is_referred_to : ℕ → World → Bool
  is_referred_to id w =
      is_some (env.subscriptions.find (λ s. s.service_id == id) w.subscriptions)
      || is_some (env.accounts.find (λ a. a.service_id == id) w.accounts)
      || is_some (env.services.find (λ s. is_value s.account_source_service_id id) w.services)
      || is_some (env.invites.find (λ i. any (λ a. a.service_id == id) i.accounts) w.invites)

  -- The policies go with the service (onDelete: Cascade).
  unfoldable pub delete : ℕ → M (Unit {0})
  delete id w = elim (find_by_id id w) [
    | none ↦ threw (map_prisma_error p2025) w
    | some s ↦
        if is_referred_to id w
        then threw (map_prisma_error p2003) w
        else returned tt (record w {
          services = env.services.remove (λ s. s.id == id) w.services;
          policies = env.policies.remove (λ p. p.service_id == id) w.policies;
        })
  ]
