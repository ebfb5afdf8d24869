-- ===== src/Access/Agreement.antt =====
-- The two ways to ask for access agree.
use home_gate.Common.{String, ◌≡◌, refl, ap, List, [], ◌∷◌, map, arith}
use home_gate.Model.{Service, World}
use home_gate.Environment.{Environment}
use home_gate.Repositories.Policies
use home_gate.Repositories.Policies.{HasUniquePolicies, last-find_by_user_id}
use home_gate.Access.{allowed_by, can_subscribe, resolve_access}

module _ (env : Environment) (user_id : String) (w : World) where
  allowed_by-find :
      (s : Service)
      → allowed_by (Policies.find env user_id s.id w) s.default_allowed
        ≡ can_subscribe env user_id s w
  unfolding can_subscribe
  allowed_by-find s = ground arith

  -- For every list of services, the answers of `resolveAccess` are those of `canSubscribe`, service by
  -- service, where the user has at most one policy for each service.
  pub resolve_access-can_subscribe :
      HasUniquePolicies env user_id w
      → (services : List Service)
      → resolve_access env user_id services w
        ≡ map (λ (s : Service). (s.id, can_subscribe env user_id s w)) services
  unfolding resolve_access
  resolve_access-can_subscribe unique [] = refl
  resolve_access-can_subscribe unique (s ∷ services) =
      rw (last-find_by_user_id env user_id w unique s.id, allowed_by-find s)
        (ap (◌∷◌ (s.id, can_subscribe env user_id s w))
          (resolve_access-can_subscribe unique services))
