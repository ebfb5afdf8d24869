-- ===== src/Repositories/Subscriptions.antt =====
-- server/src/data/repositories/subscription.repository.ts. The table's unique key is the pair of
-- user and service; deleting a row cascades as server/prisma/models/entities.prisma says.
pub mod Laws
use home_gate.Repositories.Errors.{map_prisma_error, p2002, p2025}
use home_gate.Environment.{Environment}
use home_gate.Effects.{M, returned, threw}
use home_gate.Model.{Subscription, CreateSubscription, UpdateSubscription, World}
use home_gate.Common.{
  ℕ, zero, suc, ◌+◌, String, Bool, false, ◌&&◌, ◌||◌, Option, none, some, List, [], ◌∷◌, ◌++◌, map,
  ◌==◌, or_else, holds, length, any, nat_eq, string_eq,
}

-- `where: { userId_serviceId: { userId, serviceId } }`
abbrev pub is_key : String → ℕ → Subscription → Bool
is_key user_id service_id s = s.user_id == user_id && s.service_id == service_id

-- The row that `data` makes of `row`; Prisma sets `updatedAt` (@updatedAt).
abbrev pub updated : ℕ → UpdateSubscription → Subscription → Subscription
updated now request row = record row {
  status = or_else request.status row.status;
  auto_renew = or_else request.auto_renew row.auto_renew;
  derived_from_subscription_id =
      or_else request.derived_from_subscription_id row.derived_from_subscription_id;
  updated_at = now;
  expires_at = or_else request.expires_at row.expires_at;
  provisioned_at = or_else request.provisioned_at row.provisioned_at;
  failed_at = or_else request.failed_at row.failed_at;
  cancelled_at = or_else request.cancelled_at row.cancelled_at;
  last_error = or_else request.last_error row.last_error;
  failed_operation = or_else request.failed_operation row.failed_operation;
}

-- The row of a create, with the defaults of the schema.
abbrev pub new_row : String → ℕ → CreateSubscription → Subscription
new_row id now request = record {
  id = id;
  user_id = request.user_id;
  service_id = request.service_id;
  status = request.status;
  auto_renew = or_else request.auto_renew false;
  derived_from_subscription_id = or_else request.derived_from_subscription_id none;
  created_at = now;
  updated_at = now;
  expires_at = or_else request.expires_at none;
  provisioned_at = or_else request.provisioned_at none;
  failed_at = none;
  cancelled_at = none;
  last_error = none;
  failed_operation = none;
  retry_count = 0;
}

module _ (env : Environment) where
  unfoldable pub find : String → ℕ → World → Option Subscription
  find user_id service_id w = env.subscriptions.find (is_key user_id service_id) w.subscriptions

  unfoldable pub find_by_id : String → World → Option Subscription
  find_by_id id w = env.subscriptions.find (λ s. s.id == id) w.subscriptions

  -- `findMany`, whose filter is given as the test that `buildWhere` makes of it.
  unfoldable pub find_many : (Subscription → Bool) → World → List Subscription
  find_many filter w = env.subscriptions.find_many filter w.subscriptions

  abbrev pub after_create : CreateSubscription → World → World
  after_create request w = record w {
    subscriptions =
        env.subscriptions.insert (new_row (env.uuid w.created) w.now request) w.subscriptions;
    created = w.created + 1;
  }

  unfoldable pub create : CreateSubscription → M (Option Subscription)
  create request w = elim (find request.user_id request.service_id w) [
    | some taken ↦ threw (map_prisma_error p2002) w
    | none ↦ returned (some (new_row (env.uuid w.created) w.now request)) (after_create request w)
  ]

  abbrev pub after_update : UpdateSubscription → World → World
  after_update request w = record w {
    subscriptions =
        env.subscriptions.update (is_key request.user_id request.service_id) (updated w.now request)
          w.subscriptions;
  }

  unfoldable pub update : UpdateSubscription → M (Option Subscription)
  update request w = elim (find request.user_id request.service_id w) [
    | none ↦ threw (map_prisma_error p2025) w
    | some row ↦ returned (some (updated w.now request row)) (after_update request w)
  ]

  -- The ids that a delete reaches over `derivedFrom` (onDelete: Cascade): each round adds the
  -- subscriptions derived from those reached, and a round for each row is enough.
  unfoldable pub reached : ℕ → List String → List Subscription → List String
  reached zero ids rows = ids
  reached (suc rounds) ids rows =
      reached rounds
        (map (λ (s : Subscription). s.id)
          (env.subscriptions.find_many
            (λ s.
              any (λ i. s.id == i) ids
              || holds (λ source. any (λ i. source == i) ids) s.derived_from_subscription_id)
            rows))
        rows

  unfoldable pub cascade_delete : Subscription → World → World
  cascade_delete row w =
      let ids = row.id ∷ reached (length w.subscriptions) (row.id ∷ []) w.subscriptions in
      record w {
        subscriptions = env.subscriptions.remove (λ s. any (λ i. s.id == i) ids) w.subscriptions;
        accounts = env.accounts.remove (λ a. any (λ i. a.subscription_id == i) ids) w.accounts;
      }

  unfoldable pub delete : String → ℕ → M (Unit {0})
  delete user_id service_id w = elim (find user_id service_id w) [
    | none ↦ threw (map_prisma_error p2025) w
    | some row ↦ returned tt (cascade_delete row w)
  ]

  -- `deleteMany({ where: { serviceId } })`: what is counted are the rows of the service.
  unfoldable pub delete_by_service_id : ℕ → M ℕ
  delete_by_service_id service_id w =
      let doomed = find_many (λ s. s.service_id == service_id) w in
      let ids = map (λ (s : Subscription). s.id) doomed in
      let gone = reached (length w.subscriptions) ids w.subscriptions ++ ids in
      returned (length doomed) (record w {
        subscriptions =
            env.subscriptions.remove (λ s. s.service_id == service_id || any (λ i. s.id == i) gone)
              w.subscriptions;
        accounts = env.accounts.remove (λ a. any (λ i. a.subscription_id == i) gone) w.accounts;
      })
