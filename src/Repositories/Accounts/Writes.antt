-- ===== src/Repositories/Accounts/Writes.antt =====
-- A write to the table of accounts leaves the subscriptions alone.
use home_gate.Common.{ℕ, String, ◌≡◌, arith}
use home_gate.Model.{ExternalAccountData, World}
use home_gate.Effects.{final}
use home_gate.Environment.{Environment}
use home_gate.Repositories.Accounts.{create, update, delete}

module _ (env : Environment) (w : World) where
  -- No other table is changed, no call and no event is added.
  abbrev pub OnlyAccounts : World → Type 0
  OnlyAccounts w' = w' ≡ record w { accounts = w'.accounts; created = w'.created }

  pub create-OnlyAccounts :
      (subscription_id user_id : String) (service_id : ℕ) (request : ExternalAccountData)
      → OnlyAccounts (final (create env subscription_id user_id service_id request w))
  unfolding create
  create-OnlyAccounts subscription_id user_id service_id request = ground arith

  pub update-OnlyAccounts :
      (id : String) (request : ExternalAccountData) → OnlyAccounts (final (update env id request w))
  unfolding update
  update-OnlyAccounts id request = ground arith

  pub delete-OnlyAccounts : (id : String) → OnlyAccounts (final (delete env id w))
  unfolding delete
  delete-OnlyAccounts id = ground arith
