-- ===== src/AuthService/SigningUp.antt =====
-- `beginSignUp` and `completeSignUp` of auth.service.ts, with `getInviteUserOverrides` of
-- invite.service.ts.
pub mod Beginning
pub mod Registered
use home_gate.Environment.{Environment, emit}
use home_gate.UserService.{UserResponseForAdmin, get_user_by_email}
use home_gate.AuthService.{OAuthUserProfile, OAuthAuth, or_null, resolve_oauth_provider}
use home_gate.Effects.{
  Error, M, pure, gets, throw_if, expect, bad_request, internal_server_error, http, returned, ◌>>=◌,
  ◌>>◌,
}
use home_gate.Common.{
  ℕ, ◌+◌, String, Option, none, some, List, [], ◌∷◌, ◌==◌, if◌then◌else◌, is_some, or_else, nat_eq,
  string_eq,
}
use home_gate.Model.{OAuthProvider, InviteAccount, Invite, invite_claimed}
use home_gate.UserService.Creating.{UserCreateRequest, create_user}
use home_gate.UserService.Identities.{create_user_oauth_identity}
use home_gate.InviteService.{claim_token}
use home_gate.InviteService.Redeeming.{validate_token}

-- BeginSignUpResult
pub record BeginSignUpResult : Type 0 where
  pub invite_id : String
  pub expires_at : ℕ

-- SIGNUP_COMPLETION_WINDOW_MINUTES of server/src/types/auth.constants.ts, in milliseconds.
abbrev pub signup_completion_window : ℕ
signup_completion_window = 600000

-- `createUser`'s argument: the profile, over which the invite's address and role are spread.
abbrev pub to_user : OAuthUserProfile → Invite → UserCreateRequest
to_user profile invite = record {
  email = or_else invite.email profile.email;
  first_name = or_else profile.first_name "";
  last_name = or_else profile.last_name "";
  is_admin = invite.is_admin;
}

abbrev pub exists_already : Error
exists_already = http bad_request "An account with this email already exists."

module _ (env : Environment) where
  -- `if (existing != null) throw …`
  unfoldable pub reject_existing : Option String → M (Unit {0})
  reject_existing none = pure tt
  reject_existing (some email) = do
    existing ← gets (get_user_by_email env email)
    throw_if (is_some existing) exists_already

  unfoldable pub begin_sign_up : String → M BeginSignUpResult
  begin_sign_up token = do
    invite ← validate_token env token none
    reject_existing invite.email
    now ← gets (λ w. w.now)
    pure (record { invite_id = invite.id; expires_at = now + signup_completion_window })

  -- `if (invite.accounts.length > 0) this.eventEmitter.emit(…)`
  unfoldable pub announce : String → List InviteAccount → M (Unit {0})
  announce user_id [] w = returned tt w
  announce user_id (a ∷ accounts) w = emit (invite_claimed user_id (a ∷ accounts)) w

  -- `account == null || !account.id`
  abbrev is_created : Option UserResponseForAdmin → Option UserResponseForAdmin
  is_created none = none
  is_created (some account) = if account.id == "" then none else some account

  -- From the creation of the account on.
  unfoldable pub register : Invite → OAuthProvider → OAuthUserProfile → M OAuthAuth
  register invite provider profile = do
    saved ← create_user env (to_user profile invite)
    account ←
        expect (is_created saved) (http internal_server_error "Failed to create user account.")
    create_user_oauth_identity env (record {
      user_id = account.id;
      provider_id = provider.id;
      profile_id = profile.provider_account_id;
    })
    claim_token env invite.id account.id
    announce account.id invite.accounts
    pure (record {
      id = account.id;
      username = account.username;
      is_admin = account.is_admin;
      provider_id = provider.id;
      avatar_url = or_null profile.picture account.avatar_url;
    })

  unfoldable pub complete_sign_up : String → OAuthUserProfile → M OAuthAuth
  complete_sign_up token profile = do
    invite ← validate_token env token (some profile.email)
    found ← gets (resolve_oauth_provider env profile)
    provider ← expect found (http internal_server_error "OAuth provider is unavailable.")
    reject_existing (some profile.email)
    register invite provider profile
