-- ===== src/Tests/Fixtures.antt =====
-- A small server for the tests: tables in memory, and one vendor, which cannot disable accounts.
use home_gate.Database.Memory.{in_memory}
use home_gate.Environment.{Integration, Environment}
use home_gate.Effects.{plain, gives, raises}
use home_gate.Common.{
  ℕ, zero, suc, ◌+◌, ◌*◌, String, Bool, true, false, not, Option, none, some, [], ◌∷◌, ◌==◌,
  if◌then◌else◌, is_some, nat_eq, string_eq,
}
use home_gate.Model.{
  IntegrationProvider, AccountType, SubscriptionStatus, UserStatus, jellyfin, immich, managed,
  referenced, no_account, allow, User, Service, Subscription, ExternalUserAccount, Invite,
  ApplicationUserResult, World, provider_eq,
}
use Prim.Native.String

abbrev tally : ℕ → String
tally zero = "r"
tally (suc n) = String.◌++◌ "i" (tally n)

abbrev nobody : ApplicationUserResult
nobody = record { user = none; ok = false }

abbrev known : ApplicationUserResult
known = record {
  user = some (record { id = "v1"; username = "bob"; is_active = true; is_admin = false });
  ok = true;
}

abbrev pub jellyfin_vendor : Integration
jellyfin_vendor = record {
  name = jellyfin;
  required_inputs = record {
    username = true;
    password = true;
    email = false;
    display_name = false;
  };
  get_user =
      λ calls filter. gives (if is_some filter.user_service_account_id then known else nobody);
  get_all_users = λ calls. gives (some []);
  create_user = λ calls request. gives known;
  delete_user = λ calls filter. gives true;
  disable_user = λ calls filter. raises (plain "unreachable");
  enable_user = λ calls filter. gives true;
  reset_password = λ calls filter password. gives true;
}

abbrev pub providers : IntegrationProvider → Option Integration
providers jellyfin = some jellyfin_vendor
providers immich = none

abbrev pub server : Environment
server = record {
  users = in_memory;
  services = in_memory;
  subscriptions = in_memory;
  accounts = in_memory;
  policies = in_memory;
  invites = in_memory;
  identities = in_memory;
  oauth_providers = in_memory;
  sessions = in_memory;
  task_runs = in_memory;
  logs = in_memory;
  is_valid_cron = λ text. not (text == "");
  cron_text = λ expression. "0 * * * *";
  other_text = "[object Object]";
  uuid = tally;
  serial = λ n. n + 10;
  add_days = λ days t. t + days * 86400000;
  to_lower_case = λ text. text;
  number_to_string = tally;
  hostname = λ url. some url;
  random_int = λ n. n + 1;
  patience = 3;
  random_token = λ n. "A1B2C3D4";
  hash_sha256 = λ text. String.◌++◌ "sha256:" text;
  providers = providers;
}

abbrev user_of : String → Bool → User
user_of id is_admin = record {
  id = id;
  email = String.◌++◌ id "@home";
  username = id;
  first_name = id;
  last_name = "";
  is_admin = is_admin;
  status = UserStatus.active;
  avatar_url = none;
  created_at = 0;
  deleted_at = none;
}

abbrev pub ann : User
ann = user_of "ann" true

abbrev pub bob : User
bob = user_of "bob" false

abbrev service_of : ℕ → String → AccountType → Option IntegrationProvider → Option ℕ → Service
service_of id name account_type provider source = record {
  id = id;
  name = name;
  slug = name;
  enabled = true;
  url = none;
  image_url = none;
  account_type = account_type;
  integration_provider = provider;
  account_source_service_id = source;
  default_allowed = true;
}

abbrev pub films : Service
films = service_of 1 "jellyfin" managed (some jellyfin) none

abbrev pub requests : Service
requests = service_of 2 "requests" referenced none (some 1)

abbrev pub links : Service
links = service_of 3 "links" no_account none none

abbrev pub subscription_of : String → ℕ → SubscriptionStatus → Option ℕ → Subscription
subscription_of id service_id status expires_at = record {
  id = id;
  user_id = "bob";
  service_id = service_id;
  status = status;
  auto_renew = false;
  derived_from_subscription_id = none;
  created_at = 0;
  updated_at = 0;
  expires_at = expires_at;
  provisioned_at = none;
  failed_at = none;
  cancelled_at = none;
  last_error = none;
  failed_operation = none;
  retry_count = 0;
}

-- Bob's subscription to the films; the one to the requests is derived from it.
abbrev pub to_films : Subscription
to_films = subscription_of "s1" 1 SubscriptionStatus.active (some 2000)

abbrev pub to_requests : Subscription
to_requests = record (subscription_of "s2" 2 SubscriptionStatus.active (some 3000)) {
  derived_from_subscription_id = some "s1";
}

abbrev account_of : String → ExternalUserAccount
account_of id = record {
  id = id;
  subscription_id = "s1";
  user_id = "bob";
  service_id = 1;
  external_account_id = some id;
  username = some id;
  email = none;
  created_at = 0;
  updated_at = 0;
}

abbrev pub first_account : ExternalUserAccount
first_account = account_of "a1"

abbrev pub second_account : ExternalUserAccount
second_account = account_of "a2"

abbrev pub invite : Invite
invite = record {
  id = "i1";
  token = "sha256:A1";
  email = some "eve@home";
  is_admin = false;
  expires_at = 5000;
  created_at = 0;
  used_at = none;
  revoked_at = none;
  revoked_reason = none;
  failed_attempts = 2;
  created_by_user_id = some "ann";
  used_by_user_id = none;
  revoked_by_user_id = none;
  accounts = [];
}

abbrev pub world : World
world = record {
  users = ann ∷ bob ∷ [];
  services = films ∷ requests ∷ links ∷ [];
  subscriptions = to_films ∷ to_requests ∷ [];
  accounts = first_account ∷ second_account ∷ [];
  policies = [];
  invites = invite ∷ [];
  calls = [];
  events = [];
  now = 1000;
  created = 0;
  drawn = 0;
  identities = [];
  oauth_providers = record { id = 1; name = "google"; enabled = true } ∷ [];
  sessions = [];
  task_runs = [];
  logs = [];
  task_config = none;
  jobs = [];
  discovered = [];
}

-- Bob has a subscription that owns no account.
abbrev pub to_links : Subscription
to_links = subscription_of "s4" 3 SubscriptionStatus.active (some 2000)

abbrev pub links_world : World
links_world = record world { subscriptions = to_links ∷ [] }

-- Bob may link three accounts to his subscription to the films.
abbrev pub generous_world : World
generous_world = record world {
  policies =
      record {
        id = "p1";
        user_id = "bob";
        service_id = 1;
        effect = allow;
        accounts_per_service = 3;
        created_by_user_id = none;
        created_at = 0;
      }
      ∷ [];
}
