-- ===== src/Repositories/OAuthProviders.antt =====
-- server/src/data/repositories/oauthProvider.repository.ts

use home_gate.Common.{String, Option, none, ◌==◌, if◌then◌else◌, nat_eq, string_eq}
use home_gate.Model.{OAuthProvider, World}
use home_gate.Environment.{Environment}

module _ (env : Environment) where
  -- `google` is the one name of the enumeration OAuthProviderName.
  unfoldable pub find_by_name : String → World → Option OAuthProvider
  find_by_name name w =
      if name == "google"
      then env.oauth_providers.find (λ p. p.name == name) w.oauth_providers
      else none
