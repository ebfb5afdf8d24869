-- ===== src/Tests/SignUp.antt =====
-- Sign-up and sign-in on the server of Fixtures.
use home_gate.InviteService.Redeeming.{validate_token}
use home_gate.UserService.Changing.{update_avatar}
use home_gate.UserService.Identities.{
  get_user_oauth_identity, has_identity_for_provider, create_user_oauth_identity,
}
use home_gate.UserService.{without_avatar, get_user_by_email}
use home_gate.AuthService.SigningUp.Registered.{
  IsFree, IsRegistered, complete_sign_up-IsRegistered, complete_sign_up_unclaimed,
}
use home_gate.AuthService.SigningUp.Beginning.{IsVacant, begin_sign_up-Redeemable}
use home_gate.AuthService.SigningUp.{
  BeginSignUpResult, reject_existing, begin_sign_up, complete_sign_up,
}
use home_gate.AuthService.Authorizing.Outcomes.{
  IsPermitted, authorize-IsPermitted, authorize_permitted,
}
use home_gate.AuthService.Authorizing.{
  link_identity, refresh_avatar, signed_in, finish, identify, authorize,
}
use home_gate.AuthService.{OAuthUserProfile, OAuthAuth, resolve_oauth_provider}
use home_gate.UserService.Creating.Names.{Chosen, generate_username_ends}
use home_gate.UserService.Creating.{before_at, draw_username, generate_username}
use home_gate.InviteService.Redeeming.Attempts.{Redeemable}
use home_gate.Tests.Fixtures.{server, ann, bob, invite, world}
use home_gate.Effects.{conflict, http, returned, threw}
use home_gate.Model.{UserStatus, User, UserOAuthIdentity, OAuthProvider, Invite, World}
use home_gate.Common.{◌+◌, String, ◌≡◌, refl, true, false, none, some, [], ◌∷◌, arith, is_some}
use home_gate.Repositories.UserOAuthIdentities
use mathlib.Core.Option
use home_gate.Repositories.OAuthProviders
use Prim.Native.String
use home_gate.Repositories.Users
use home_gate.Repositories.Invites

abbrev google : OAuthProvider
google = record { id = 1; name = "google"; enabled = true }

abbrev profile_of : String → OAuthUserProfile
profile_of name = record {
  provider_account_id = name;
  email = String.◌++◌ name "@home";
  first_name = some name;
  last_name = none;
  picture = some "me.png";
  provider = "google";
}

eve-IsFree : IsFree server google (profile_of "eve") world
unfolding Users.find_by_email Users.count_all before_at
eve-IsFree = record {
  new_id = refl;
  email = refl;
  names = (refl, (refl, (refl, (refl, tt))));
  patience = ground arith;
  identity = refl;
  owner = refl;
  invite = refl;
}

eve-Redeemable : Redeemable (some "eve@home") 1000 invite
eve-Redeemable = record {
  unrevoked = refl;
  unused = refl;
  unexpired = ground arith;
  own_address = refl;
}

complete_sign_up-IsRegistered_example :
    (auth : OAuthAuth) × (w' : World) × (complete_sign_up server "A1" (profile_of "eve") world
      ≡ returned auth w')
    × IsRegistered server invite google (profile_of "eve") auth w'
unfolding Invites.find_by_token Invites.find_by_id resolve_oauth_provider
    OAuthProviders.find_by_name
complete_sign_up-IsRegistered_example =
    complete_sign_up-IsRegistered server invite google (profile_of "eve") world "A1" refl refl
      eve-Redeemable (ground arith) refl eve-IsFree

-- Bob has not signed in with Google before.
abbrev bob_identity : UserOAuthIdentity
bob_identity = record {
  id = "r";
  user_id = "bob";
  provider_id = 1;
  profile_id = "bob";
  created_at = 1000;
}

abbrev signed_world : World
signed_world = record world {
  users = ann ∷ record bob { avatar_url = some "me.png" } ∷ [];
  identities = bob_identity ∷ [];
  created = 1;
}

abbrev bob_auth : OAuthAuth
bob_auth = record {
  id = "bob";
  username = "bob";
  is_admin = false;
  provider_id = 1;
  avatar_url = some "me.png";
}

authorize_bob : authorize server (profile_of "bob") world ≡ returned (some bob_auth) signed_world
unfolding authorize get_user_by_email Users.find_by_email resolve_oauth_provider
    OAuthProviders.find_by_name identify get_user_oauth_identity UserOAuthIdentities.find
    has_identity_for_provider UserOAuthIdentities.find_owned link_identity
    create_user_oauth_identity UserOAuthIdentities.create finish refresh_avatar update_avatar
    Users.set_avatar Users.find_by_id Users.update_by_id
authorize_bob = refl

authorize-IsPermitted_example :
    (u : User) × (provider : OAuthProvider) × IsPermitted server (profile_of "bob") u provider world
    × (bob_auth ≡ signed_in server (without_avatar u) provider (profile_of "bob"))
    × (is_some (UserOAuthIdentities.find server provider.id "bob" signed_world) ≡ true)
authorize-IsPermitted_example =
    authorize-IsPermitted server (profile_of "bob") world bob_auth signed_world authorize_bob

bob-IsPermitted : IsPermitted server (profile_of "bob") bob google world
unfolding Users.find_by_email resolve_oauth_provider OAuthProviders.find_by_name
    UserOAuthIdentities.find has_identity_for_provider UserOAuthIdentities.find_owned
bob-IsPermitted = record { account = refl; active = refl; provided = refl; identified = refl }

authorize_permitted_example :
    (w' : World) × (authorize server (profile_of "bob") world
      ≡ returned (some (signed_in server (without_avatar bob) google (profile_of "bob"))) w')
unfolding Users.find_by_id
authorize_permitted_example =
    authorize_permitted server (profile_of "bob") world bob google bob-IsPermitted refl

-- The invite of Fixtures at the time at which it expires.
abbrev late_world : World
late_world = record world { now = 5000 }

late-Redeemable : Redeemable (some "eve@home") 5000 invite
late-Redeemable = record {
  unrevoked = refl;
  unused = refl;
  unexpired = ground arith;
  own_address = refl;
}

late-IsFree : IsFree server google (profile_of "eve") late_world
unfolding Users.find_by_email Users.count_all before_at
late-IsFree = record {
  new_id = refl;
  email = refl;
  names = (refl, (refl, (refl, (refl, tt))));
  patience = ground arith;
  identity = refl;
  owner = refl;
  invite = refl;
}

complete_sign_up_unclaimed_example :
    (u : User) × (w' : World) × (complete_sign_up server "A1" (profile_of "eve") late_world
      ≡ threw (http conflict "Invite token has already been used.") w')
    × (Users.find_by_email server "eve@home" w' ≡ some u)
    × (u.status ≡ UserStatus.active)
    × (Option.map
          (λ (r : UserOAuthIdentity). r.user_id)
          (UserOAuthIdentities.find server 1 "eve" w')
        ≡ some u.id)
unfolding Invites.find_by_token Invites.find_by_id resolve_oauth_provider
    OAuthProviders.find_by_name
complete_sign_up_unclaimed_example =
    complete_sign_up_unclaimed server invite google (profile_of "eve") late_world "A1" refl refl
      (ground arith) late-Redeemable refl refl late-IsFree

abbrev eve_begins : BeginSignUpResult
eve_begins = record { invite_id = "i1"; expires_at = 601000 }

begin_answer :
    begin_sign_up server "A1" world
    ≡ returned (record { invite_id = "i1"; expires_at = 601000 }) world
unfolding begin_sign_up validate_token Invites.find_by_token reject_existing get_user_by_email
    Users.find_by_email
begin_answer = refl

begin_sign_up-Redeemable_example :
    (i : Invite) × (Invites.find_by_token server "sha256:A1" world ≡ some i)
    × Redeemable none 1000 i
    × IsVacant server "A1" world i.email
    × (eve_begins ≡ record { invite_id = i.id; expires_at = 1000 + 600000 })
    × (world ≡ world)
begin_sign_up-Redeemable_example =
    begin_sign_up-Redeemable server "A1" world (record { invite_id = "i1"; expires_at = 601000 })
      world begin_answer

generate_username_ends_example : Chosen server (generate_username server "bob@home" world) world
unfolding Users.count_all before_at
generate_username_ends_example =
    generate_username_ends server "bob@home" world (refl, (refl, (refl, (refl, tt)))) (ground arith)

-- Bob has no number, since his name is taken: the second name that is tried is free.
second_name :
    generate_username server "bob@home" world ≡ returned "bobir" (record world { drawn = 1 })
unfolding generate_username draw_username Users.username_exists before_at
second_name = refl
