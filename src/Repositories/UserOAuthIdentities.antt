-- ===== src/Repositories/UserOAuthIdentities.antt =====
-- server/src/data/repositories/userOAuthIdentity.repository.ts. Two pairs of columns are unique:
-- provider and profile, and user and provider.
use home_gate.Common.{
  ℕ, ◌+◌, String, Bool, ◌&&◌, ◌||◌, Option, some, List, ◌==◌, if◌then◌else◌, is_some, take, nat_eq,
  string_eq,
}
use home_gate.Model.{UserOAuthIdentity, World}
use home_gate.Effects.{M, returned, threw}
use home_gate.Environment.{Environment}
use home_gate.Repositories.Errors.{map_prisma_error, p2002}

-- CreateUserOAuthIdentityModel
pub record CreateUserOAuthIdentity : Type 0 where
  pub user_id : String
  pub provider_id : ℕ
  pub profile_id : String

-- `where: { providerId_profileId: { providerId, profileId } }`
abbrev pub is_profile : ℕ → String → UserOAuthIdentity → Bool
is_profile provider_id profile_id i = i.provider_id == provider_id && i.profile_id == profile_id

-- `{ userId, providerId }`
abbrev pub is_owned : String → ℕ → UserOAuthIdentity → Bool
is_owned user_id provider_id i = i.user_id == user_id && i.provider_id == provider_id

abbrev pub new_row : String → ℕ → CreateUserOAuthIdentity → UserOAuthIdentity
new_row id now request = record {
  id = id;
  user_id = request.user_id;
  provider_id = request.provider_id;
  profile_id = request.profile_id;
  created_at = now;
}

module _ (env : Environment) where
  unfoldable pub find : ℕ → String → World → Option UserOAuthIdentity
  find provider_id profile_id w =
      env.identities.find (is_profile provider_id profile_id) w.identities

  -- `findMany({ userId, providerId }, take)`
  unfoldable pub find_owned : String → ℕ → ℕ → World → List UserOAuthIdentity
  find_owned user_id provider_id count w =
      take count (env.identities.find_many (is_owned user_id provider_id) w.identities)

  unfoldable pub create : CreateUserOAuthIdentity → M (Option UserOAuthIdentity)
  create request w =
      if is_some (find request.provider_id request.profile_id w)
        || is_some (env.identities.find (is_owned request.user_id request.provider_id) w.identities)
      then threw (map_prisma_error p2002) w
      else let row = new_row (env.uuid w.created) w.now request in
        returned (some row) (record w {
          identities = env.identities.insert row w.identities;
          created = w.created + 1;
        })
