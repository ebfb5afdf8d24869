-- ===== src/UserService/Identities.antt =====
-- The methods of user.service.ts on OAuth identities. The DTO has the fields of the row.
use home_gate.Common.{ℕ, String, Bool, Option, ltb, length}
use home_gate.Model.{UserOAuthIdentity, World}
use home_gate.Effects.{M}
use home_gate.Environment.{Environment}
use home_gate.Repositories.UserOAuthIdentities
use home_gate.Repositories.UserOAuthIdentities.{CreateUserOAuthIdentity}

module _ (env : Environment) where
  unfoldable pub get_user_oauth_identity : ℕ → String → World → Option UserOAuthIdentity
  get_user_oauth_identity provider_id profile_id w =
      UserOAuthIdentities.find env provider_id profile_id w

  unfoldable pub has_identity_for_provider : String → ℕ → World → Bool
  has_identity_for_provider user_id provider_id w =
      ltb 0 (length (UserOAuthIdentities.find_owned env user_id provider_id 1 w))

  unfoldable pub create_user_oauth_identity : CreateUserOAuthIdentity → M (Option UserOAuthIdentity)
  create_user_oauth_identity request = UserOAuthIdentities.create env request
