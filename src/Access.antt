-- ===== src/Access.antt =====
-- server/src/api/services/serviceAccess.service.ts: who may subscribe to a service.
pub mod Agreement
use home_gate.Common.{
  ℕ, String, ◌≡◌, Bool, not, Option, none, some, List, map, arith, ◌==◌, if◌then◌else◌, last,
  nat_eq, string_eq,
}
use home_gate.Model.{is_allow, Service, UserServicePolicy, World}
use home_gate.Effects.{M, forbidden, http, returned, threw}
use home_gate.Environment.{Environment}
use home_gate.Repositories.Policies

-- DENY, then ALLOW, then the default of the service.
abbrev pub allowed_by : Option UserServicePolicy → Bool → Bool
allowed_by (some policy) default_allowed = is_allow policy.effect
allowed_by none default_allowed = default_allowed

module _ (env : Environment) where
  unfoldable pub can_subscribe : String → Service → World → Bool
  can_subscribe user_id service w = elim (Policies.find env user_id service.id w) [
    | some policy ↦ is_allow policy.effect
    | none ↦ service.default_allowed
  ]

  unfoldable pub assert_can_subscribe : String → Service → M (Unit {0})
  assert_can_subscribe user_id service w =
      if not (can_subscribe user_id service w)
      then threw (http forbidden "You do not have access to this service") w
      else returned tt w

  -- The map that `resolveAccess` returns, as a list of its entries in the order of the services.
  pub resolve_access : String → List Service → World → List (ℕ × Bool)
  resolve_access user_id services w =
      map
        (λ (s : Service). (
          s.id,
          allowed_by (last (λ p. p.service_id == s.id) (Policies.find_by_user_id env user_id w))
              s.default_allowed,
        ))
        services

  -- An allowed user passes, and the state stays as it is whether the user passes or not.
  pub assert_can_subscribe_lem :
      (user_id : String) (service : Service) (w : World)
      → assert_can_subscribe user_id service w ≡ (
          if can_subscribe user_id service w
          then returned tt w
          else threw (http forbidden "You do not have access to this service") w)
  unfolding assert_can_subscribe
  assert_can_subscribe_lem user_id service w = ground arith
