-- ===== src/Environment.antt =====
-- What the server gets from outside the repository: the database client, the vendors behind the
-- integrations, and functions of the platform. Every service takes one `Environment`.
use home_gate.Database.{Table}
use home_gate.Effects.{Answer, M, final, gives, raises, returned, threw}
use home_gate.Common.{ℕ, String, ◌≡◌, Bool, Option, List, ◌∷◌, arith}
use home_gate.Model.{
  IntegrationProvider, CronExpression, User, UserOAuthIdentity, OAuthProvider, Session, Service,
  Subscription, ExternalUserAccount, UserServicePolicy, Invite, TaskRun, Log, ApplicationUser,
  ApplicationUserResult, FilterApplicationUser, CreateApplicationUser, ApplicationUserRequirements,
  Call, Event, World,
}

-- IAccountIntegrationProvider: the answers may depend on every call made before.
pub record Integration : Type 0 where
  pub name : IntegrationProvider
  pub required_inputs : ApplicationUserRequirements
  pub get_user : List Call → FilterApplicationUser → Answer ApplicationUserResult
  pub get_all_users : List Call → Answer (Option (List ApplicationUser))
  pub create_user : List Call → CreateApplicationUser → Answer ApplicationUserResult
  pub delete_user : List Call → FilterApplicationUser → Answer Bool
  pub disable_user : List Call → FilterApplicationUser → Answer Bool
  pub enable_user : List Call → FilterApplicationUser → Answer Bool
  pub reset_password : List Call → FilterApplicationUser → String → Answer Bool

pub record Environment : Type 0 where
  pub users : Table User
  pub services : Table Service
  pub subscriptions : Table Subscription
  pub accounts : Table ExternalUserAccount
  pub policies : Table UserServicePolicy
  pub invites : Table Invite
  pub identities : Table UserOAuthIdentity
  pub oauth_providers : Table OAuthProvider
  pub sessions : Table Session
  pub task_runs : Table TaskRun
  pub logs : Table Log
  -- The id of the n-th row that is created.
  pub uuid : ℕ → String
  -- The number of the n-th row that is created, in a column with `autoincrement()`.
  pub serial : ℕ → ℕ
  -- `date.setDate(date.getDate() + days)`, in the time zone of the server.
  pub add_days : ℕ → ℕ → ℕ
  pub to_lower_case : String → String
  pub number_to_string : ℕ → String
  -- `new URL(url).hostname`, none where the constructor throws.
  pub hostname : String → Option String
  -- The text of CryptographyProvider.GenerateRandomToken(4) in upper case, at each creation.
  pub random_token : ℕ → String
  -- `randomInt(1, 10000000)`, at each draw.
  pub random_int : ℕ → ℕ
  -- How many draws of a username the model follows. The source has no such bound.
  pub patience : ℕ
  -- `validateCronExpression(text).valid`; the constructors of the library throw otherwise.
  pub is_valid_cron : String → Bool
  pub cron_text : CronExpression → String
  -- `String(error)` of a thrown value that is no `Error`.
  pub other_text : String
  -- CryptographyProvider.HashSha256, in hexadecimal.
  pub hash_sha256 : String → String
  -- The map `providers` of AccountIntegrationRegistry, after the start of the server.
  pub providers : IntegrationProvider → Option Integration

-- One call of a vendor: it is recorded, and answers or throws.
unfoldable pub ask : {A : Type 0} → Call → (List Call → Answer A) → M A
ask call answer w = elim (answer w.calls) [
  | gives a ↦ returned a (record w { calls = call ∷ w.calls })
  | raises e ↦ threw e (record w { calls = call ∷ w.calls })
]

-- `this.events.emit(event, payload)`
unfoldable pub emit : Event → M (Unit {0})
emit event w = returned tt (record w { events = event ∷ w.events })

-- Nothing has changed but the record of the calls: no row, and no event.
abbrev pub OnlyCalls : World → World → Type 0
OnlyCalls w w' = w' ≡ record w { calls = w'.calls }

pub OnlyCalls-trans : (u v w : World) → OnlyCalls u v → OnlyCalls v w → OnlyCalls u w
OnlyCalls-trans u v w p q = cc

pub OnlyCalls-ask :
    {A : Type 0} (call : Call) (answer : List Call → Answer A) (w : World)
    → OnlyCalls w (final (ask call answer w))
unfolding ask
OnlyCalls-ask call answer w = ground arith
