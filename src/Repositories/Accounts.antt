-- ===== src/Repositories/Accounts.antt =====
-- server/src/data/repositories/externalUserAccount.repository.ts
pub mod Writes
use home_gate.Common.{
  ℕ, ◌+◌, String, not, ◌&&◌, Option, none, some, List, ◌==◌, if◌then◌else◌, is_some, holds,
  is_value, length, nat_eq, string_eq,
}
use home_gate.Model.{ExternalUserAccount, ExternalAccountData, World}
use home_gate.Effects.{M, returned, threw}
use home_gate.Environment.{Environment}
use home_gate.Repositories.Errors.{map_prisma_error, p2002, p2025}

module _ (env : Environment) where
  unfoldable pub find_by_subscription_id : String → World → List ExternalUserAccount
  find_by_subscription_id subscription_id w =
      env.accounts.find_many (λ a. a.subscription_id == subscription_id) w.accounts

  unfoldable pub find_by_id : String → World → Option ExternalUserAccount
  find_by_id id w = env.accounts.find (λ a. a.id == id) w.accounts

  -- `findMany({ serviceId }, MAX_SAFE_INTEGER)`
  pub find_by_service_id : ℕ → World → List ExternalUserAccount
  find_by_service_id service_id w =
      env.accounts.find_many (λ a. a.service_id == service_id) w.accounts

  -- `findMany({ serviceId, externalAccountId })`
  unfoldable pub find_by_external_id : ℕ → String → World → List ExternalUserAccount
  find_by_external_id service_id id w =
      env.accounts.find_many (λ a. a.service_id == service_id && is_value a.external_account_id id)
        w.accounts

  unfoldable pub count_by_subscription_id : String → World → ℕ
  count_by_subscription_id subscription_id w = length (find_by_subscription_id subscription_id w)

  -- `@@unique([serviceId, externalAccountId])`: a null external id clashes with nothing.
  unfoldable pub clash : ℕ → Option String → World → Option ExternalUserAccount
  clash service_id none w = none
  clash service_id (some id) w =
      env.accounts.find (λ a. a.service_id == service_id && is_value a.external_account_id id)
        w.accounts

  unfoldable pub create : String → String → ℕ → ExternalAccountData → M (Option ExternalUserAccount)
  unfolding clash
  create subscription_id user_id service_id request w =
      if is_some (clash service_id request.external_account_id w)
      then threw (map_prisma_error p2002) w
      else let row : ExternalUserAccount = record {
        id = env.uuid w.created;
        subscription_id = subscription_id;
        user_id = user_id;
        service_id = service_id;
        external_account_id = request.external_account_id;
        username = request.username;
        email = request.email;
        created_at = w.now;
        updated_at = w.now;
      } in
        returned (some row)
          (record w { accounts = env.accounts.insert row w.accounts; created = w.created + 1 })

  abbrev updated : ℕ → ExternalAccountData → ExternalUserAccount → ExternalUserAccount
  updated now request row = record row {
    external_account_id = request.external_account_id;
    username = request.username;
    email = request.email;
    updated_at = now;
  }

  pub update : String → ExternalAccountData → M (Option ExternalUserAccount)
  unfolding clash
  update id request w = elim (find_by_id id w) [
    | none ↦ threw (map_prisma_error p2025) w
    | some row ↦
        if holds (λ (a : ExternalUserAccount). not (a.id == id))
          (clash row.service_id request.external_account_id w)
        then threw (map_prisma_error p2002) w
        else returned (some (updated w.now request row)) (record w {
          accounts = env.accounts.update (λ a. a.id == id) (updated w.now request) w.accounts;
        })
  ]

  unfoldable pub delete : String → M (Unit {0})
  delete id w = elim (find_by_id id w) [
    | none ↦ threw (map_prisma_error p2025) w
    | some row ↦
        returned tt (record w { accounts = env.accounts.remove (λ a. a.id == id) w.accounts })
  ]
