-- ===== src/AuthService/Authorizing.antt =====
-- `authorize` of auth.service.ts.
pub mod Outcomes
use home_gate.Common.{
  ℕ, String, Bool, false, not, ◌&&◌, Option, none, some, ◌==◌, if◌then◌else◌, is_value, nat_eq,
  string_eq,
}
use home_gate.Model.{is_active_user, OAuthProvider}
use home_gate.Effects.{M, ◌>>◌, pure, returned}
use home_gate.Environment.{Environment}
use home_gate.UserService.{UserResponseForAdmin, get_user_by_email}
use home_gate.UserService.Identities.{
  get_user_oauth_identity, has_identity_for_provider, create_user_oauth_identity,
}
use home_gate.UserService.Changing.{update_avatar}
use home_gate.AuthService.{OAuthUserProfile, OAuthAuth, or_null, resolve_oauth_provider}

-- `request.picture && request.picture !== user.avatarUrl`
abbrev pub is_fresh : Option String → Option String → Bool
is_fresh none avatar_url = false
is_fresh (some picture) avatar_url = not (picture == "") && not (is_value avatar_url picture)

module _ (env : Environment) where
  -- The identity of a user who signs in with this provider for the first time.
  unfoldable pub link_identity : String → ℕ → String → M (Unit {0})
  link_identity user_id provider_id profile_id =
      create_user_oauth_identity env
        (record { user_id = user_id; provider_id = provider_id; profile_id = profile_id })
      >> pure tt

  unfoldable pub refresh_avatar : UserResponseForAdmin → Option String → M (Unit {0})
  refresh_avatar user none = pure tt
  refresh_avatar user (some picture) =
      if is_fresh (some picture) user.avatar_url then update_avatar env user.id picture else pure tt

  abbrev pub signed_in : UserResponseForAdmin → OAuthProvider → OAuthUserProfile → OAuthAuth
  signed_in user provider request = record {
    id = user.id;
    username = user.username;
    is_admin = user.is_admin;
    provider_id = provider.id;
    avatar_url = or_null request.picture user.avatar_url;
  }

  -- From the avatar on.
  unfoldable pub finish :
      UserResponseForAdmin → OAuthProvider → OAuthUserProfile → M (Option OAuthAuth)
  finish user provider request = do
    refresh_avatar user request.picture
    pure (some (signed_in user provider request))

  -- From the identity on.
  unfoldable pub identify :
      UserResponseForAdmin → OAuthProvider → OAuthUserProfile → M (Option OAuthAuth)
  identify user provider request w =
      elim (get_user_oauth_identity env provider.id request.provider_account_id w) [
        | some identity ↦ finish user provider request w
        | none ↦
            if has_identity_for_provider env user.id provider.id w
            then returned none w
            else (link_identity user.id provider.id request.provider_account_id
                  >> finish user provider request)
                w
      ]

  -- The `catch` logs the error and throws it again.
  unfoldable pub authorize : OAuthUserProfile → M (Option OAuthAuth)
  authorize request w = elim (get_user_by_email env request.email w) [
    | none ↦ returned none w
    | some user ↦
        if is_active_user user.status
        then elim (resolve_oauth_provider env request w) [
          | none ↦ returned none w
          | some provider ↦ identify user provider request w
        ]
        else returned none w
  ]
