-- ===== src/Repositories/Policies.antt =====
-- server/src/data/repositories/userServicePolicy.repository.ts, the queries.
use home_gate.Common.{
  ℕ, ◌≤◌, String, ◌≡◌, ◌&&◌, Option, List, ◌==◌, length, last, nat_eq, string_eq,
}
use home_gate.Model.{UserServicePolicy, World}
use home_gate.Environment.{Environment}

module _ (env : Environment) where
  unfoldable pub find : String → ℕ → World → Option UserServicePolicy
  find user_id service_id w =
      env.policies.find (λ p. p.user_id == user_id && p.service_id == service_id) w.policies

  pub find_by_user_id : String → World → List UserServicePolicy
  find_by_user_id user_id w = env.policies.find_many (λ p. p.user_id == user_id) w.policies

  -- No two policies have one user and one service (`@@unique([userId, serviceId])`).
  abbrev pub HasUniquePolicies : String → World → Type 0
  HasUniquePolicies user_id w =
      (service_id : ℕ)
      → length (
          env.policies.find_many (λ p. p.user_id == user_id && p.service_id == service_id)
            w.policies)
        ≤ 1

  -- Of the user's policies the last one for a service is the one that is found by the key.
  pub last-find_by_user_id :
      (user_id : String) (w : World)
      → HasUniquePolicies user_id w
      → (service_id : ℕ)
      → last (λ (p : UserServicePolicy). p.service_id == service_id) (find_by_user_id user_id w)
        ≡ find user_id service_id w
  unfolding find find_by_user_id
  last-find_by_user_id user_id w unique service_id =
      env.policies.last-find_many (λ p. p.user_id == user_id) (λ p. p.service_id == service_id)
        w.policies (unique service_id)
