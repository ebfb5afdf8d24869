-- ===== src/AuthService.antt =====
-- server/src/api/services/auth.service.ts: sign-in and sign-up after the OAuth provider has
-- answered. `signOut` writes a line of the log only.
pub mod Authorizing
pub mod SigningUp
use home_gate.Common.{ℕ, String, Bool, Option, none, some, if◌then◌else◌}
use home_gate.Model.{OAuthProvider, World}
use home_gate.Environment.{Environment}
use home_gate.Repositories.OAuthProviders

-- OAuthUserProfileDto, less the tokens.
pub record OAuthUserProfile : Type 0 where
  pub provider_account_id : String
  pub email : String
  pub first_name : Option String
  pub last_name : Option String
  pub picture : Option String
  pub provider : String

-- OAuthAuthModel
pub record OAuthAuth : Type 0 where
  pub id : String
  pub username : String
  pub is_admin : Bool
  pub provider_id : ℕ
  pub avatar_url : Option String

-- `a ?? b`, where both may be null.
abbrev pub or_null : {A : Type 0} → Option A → Option A → Option A
or_null none b = b
or_null (some a) b = some a

module _ (env : Environment) where
  -- `provider == null || !provider.enabled`: null, else the provider.
  unfoldable pub resolve_oauth_provider : OAuthUserProfile → World → Option OAuthProvider
  resolve_oauth_provider profile w = elim (OAuthProviders.find_by_name env profile.provider w) [
    | none ↦ none
    | some provider ↦ if provider.enabled then some provider else none
  ]
