-- ===== src/ServiceManagement/Deleting.antt =====
-- `delete` of serviceManagement.service.ts.
pub mod Outcomes
use home_gate.ServiceManagement.Creating.{announce}
use home_gate.ServiceManagement.{
  ServiceResponse, about_service, service_model_to_response, find_service,
}
use home_gate.Environment.{Environment}
use home_gate.Effects.{M, pure, gets, throw_if, bad_request, http, ◌>>=◌, ◌>>◌}
use home_gate.Model.{is_managed, is_referenced, Service, Subscription}
use home_gate.Common.{String, List, [], ◌∷◌, map, ◌==◌, if◌then◌else◌, any, take, nat_eq, string_eq}
use home_gate.Repositories.Services
use home_gate.Repositories.Subscriptions

-- `[...new Set(ids)]`, of the ids that are not yet in the set.
pub distinct_from : List String → List String → List String
distinct_from seen [] = []
distinct_from seen (id ∷ ids) =
    let rest = distinct_from seen ids in
    let others = distinct_from (id ∷ seen) ids in
    if any (λ x. x == id) seen then rest else id ∷ others

module _ (env : Environment) where
  -- The subscriptions go first. Who is told is read from the first page of 50 rows.
  unfoldable pub drop_subscriptions : Service → M (Unit {0})
  unfolding distinct_from
  drop_subscriptions service = do
    subscriptions ←
        gets (λ w. take 50 (Subscriptions.find_many env (λ s. s.service_id == service.id) w))
    Subscriptions.delete_by_service_id env service.id
    announce env (distinct_from [] (map (λ (s : Subscription). s.user_id) subscriptions))

  -- `if (service.accountType === REFERENCED) …`
  unfoldable pub clear : Service → M (Unit {0})
  clear service = if is_referenced service.account_type then drop_subscriptions service else pure tt

  unfoldable pub delete : String → M ServiceResponse
  delete slug = do
    service ← find_service env slug
    throw_if (is_managed service.account_type) (
        http bad_request (
          about_service slug
            " is MANAGED and cannot be deleted through the API; it requires a built-in integration provider"))
    clear service
    Services.delete env service.id
    pure (service_model_to_response env service)
