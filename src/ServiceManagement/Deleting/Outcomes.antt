-- ===== src/ServiceManagement/Deleting/Outcomes.antt =====
-- What a deletion of a service leaves.
use home_gate.ServiceManagement.Deleting.{clear, delete}
use home_gate.ServiceManagement.{ServiceResponse, service_model_to_response, find_service}
use home_gate.Database.Keys.{find-remove_self}
use home_gate.Environment.{Environment}
use home_gate.Effects.{
  throw_if, bind_inverse, throw_if_inverse, expect_inverse, pure_inverse, returned,
}
use home_gate.Model.{is_managed, Service, World}
use home_gate.Common.{String, ◌≡◌, sym, ap, false, none, some, arith, ◌==◌, last, nat_eq, string_eq}
use mathlib.Core.Path.{subst}
use home_gate.Repositories.Services

module _ (env : Environment) (slug : String) where
  -- The service is gone, and no subscription to it is left.
  pub record IsGone (s : Service) (w : World) : Type 0 where
    pub service : Services.find_by_id env s.id w ≡ none
    pub subscriptions : env.subscriptions.find (λ x. x.service_id == s.id) w.subscriptions ≡ none

  delete_row-IsGone :
      (s : Service) (w w' : World) → Services.delete env s.id w ≡ returned tt w' → IsGone s w'
  unfolding Services.delete Services.is_referred_to Services.find_by_id
  delete_row-IsGone s w w' e = record {
    service = ground (arith, find-remove_self env.services (λ x. x.id == s.id) w.services);
    subscriptions = ground arith;
  }

  -- A deletion that answers has found a service of this slug that is not MANAGED; afterwards neither
  -- it nor a subscription to it is stored. The service that is answered is the one that is gone.
  pub delete-IsGone :
      (answer : ServiceResponse) (w w' : World)
      → delete env slug w ≡ returned answer w'
      → (s : Service) × (Services.find_by_slug env slug w ≡ some s)
        × (is_managed s.account_type ≡ false)
        × (answer.service ≡ s)
        × IsGone s w'
  unfolding delete find_service
  delete-IsGone answer w w' e =
      let (s, v, found, rest) = bind_inverse (find_service env slug) _ w w' answer e in
      let (a, v2, unmanaged, rest2) =
        bind_inverse (throw_if (is_managed s.account_type) _) _ v w' answer rest in
      let (b, v3, cleared, rest3) = bind_inverse (clear env s) _ v2 w' answer rest2 in
      let (c, v4, gone, rest4) = bind_inverse (Services.delete env s.id) _ v3 w' answer rest3 in
      let (same, last) = pure_inverse (service_model_to_response env s) answer v4 w' rest4 in
      (
        s,
        (expect_inverse (Services.find_by_slug env slug w) _ w v s found).0,
        throw_if_inverse (is_managed s.account_type) _ v v2 a unmanaged,
        ap (λ (r : ServiceResponse). r.service) same,
        subst (λ x. IsGone s x) (sym last) (delete_row-IsGone s v3 v4 gone),
      )
