-- ===== src/ServiceManagement/Creating.antt =====
-- `create` and `resolveAccountSource` of serviceManagement.service.ts.
use home_gate.Cascade.{on_referenced_service_created}
use home_gate.ServiceManagement.Slugs.{is_slug}
use home_gate.ServiceManagement.{ServiceResponse, service_model_to_response}
use home_gate.Environment.{Environment, emit}
use home_gate.Effects.{
  M, ◌>>=◌, pure, gets, throw_if, expect, for_each, bad_request, conflict, http, returned, threw,
  ◌>>◌,
}
use home_gate.Model.{
  AccountType, is_managed, is_referenced, managed, referenced, no_account, Service,
  subscription_changed,
}
use home_gate.Common.{
  ℕ, String, Bool, true, not, Option, none, some, List, if◌then◌else◌, is_some, or_else,
}
use home_gate.Repositories.Services
use Prim.Native.String

-- ServicePutRequestDto
pub record ServicePutRequest : Type 0 where
  pub slug : String
  pub name : String
  pub account_type : AccountType
  pub account_source_service_id : Option ℕ
  pub enabled : Option Bool
  pub default_allowed : Option Bool
  pub url : Option String
  pub image_url : Option String

-- `${before}${value}${after}`
abbrev quoted : String → String → String → String
quoted before value after = String.◌++◌ before (String.◌++◌ value after)

-- The text of the enumeration's value.
abbrev type_name : AccountType → String
type_name managed = "MANAGED"
type_name referenced = "REFERENCED"
type_name no_account = "NONE"

module _ (env : Environment) where
  -- The number of the MANAGED service that a REFERENCED one names.
  unfoldable pub check_source : Option ℕ → M (Option ℕ)
  check_source none w =
      threw (http bad_request "A REFERENCED service must name the service supplying its accounts") w
  check_source (some id) w = elim (Services.find_by_id env id w) [
    | none ↦
        threw
          (http bad_request
            (quoted "Account source service '" (env.number_to_string id) "' does not exist"))
          w
    | some source ↦
        if is_managed source.account_type
        then returned (some source.id) w
        else threw
            (http bad_request (
              quoted "Account source '" source.slug (
                quoted "' must be a MANAGED service, but it is " (type_name source.account_type)
                  "")))
            w
  ]

  unfoldable pub resolve_account_source : AccountType → Option ℕ → M (Option ℕ)
  resolve_account_source account_type source w =
      if is_referenced account_type
      then check_source source w
      else if is_some source
      then threw (http bad_request "Only a REFERENCED service may name an account source") w
      else returned none w

  abbrev pub to_row : ServicePutRequest → Option ℕ → Services.CreateService
  to_row request source = record {
    name = request.name;
    slug = request.slug;
    enabled = or_else request.enabled true;
    account_type = request.account_type;
    integration_provider = none;
    account_source_service_id = source;
    default_allowed = or_else request.default_allowed true;
    url = request.url;
    image_url = request.image_url;
  }

  -- What is refused before a row is written; the answer is the account source.
  unfoldable pub check_request : ServicePutRequest → M (Option ℕ)
  check_request request = do
    throw_if (is_managed request.account_type) (
        http bad_request
          "Account type 'MANAGED' cannot be created through the API; a MANAGED service requires a built-in integration provider")
    throw_if (not (is_slug request.slug)) (
        http bad_request
          "Slug must be lowercase alphanumeric words separated by single hyphens, e.g. \"jellyseerr\"")
    source ← resolve_account_source request.account_type request.account_source_service_id
    same_slug ← gets (Services.find_by_slug env request.slug)
    throw_if (is_some same_slug)
        (http conflict (quoted "A service with slug '" request.slug "' already exists"))
    same_name ← gets (Services.find_by_name env request.name)
    throw_if (is_some same_name)
        (http conflict (quoted "A service named '" request.name "' already exists"))
    pure source

  -- `this.events.emit(AppEvent.SUBSCRIPTION_CHANGED, { userId })` for each user.
  unfoldable pub announce : List String → M (Unit {0})
  announce user_ids = for_each (λ id. emit (subscription_changed id)) user_ids

  -- The users who may use a new REFERENCED service subscribe to it.
  unfoldable pub mirror_to : Service → M (Unit {0})
  mirror_to service =
      if is_referenced service.account_type
      then on_referenced_service_created env service >>= announce
      else pure tt

  -- From the creation of the row on.
  unfoldable pub store : ServicePutRequest → Option ℕ → M ServiceResponse
  store request source = do
    made ← Services.create env (to_row request source)
    service ← expect made (http bad_request (quoted "Failed to create service '" request.slug "'"))
    mirror_to service
    pure (service_model_to_response env service)

  unfoldable pub create : ServicePutRequest → M ServiceResponse
  create request = check_request request >>= store request
