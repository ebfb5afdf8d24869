-- ===== src/AuthService/SigningUp/Registered.antt =====
-- What `completeSignUp` leaves, where the invite may be redeemed.
use home_gate.UserService.Creating.{base_name, generate_username, create_user}
use home_gate.Repositories.UserOAuthIdentities.{is_profile, is_owned}
use home_gate.Repositories.Users.Laws.{create_found}
use home_gate.Database.Counting.{AllDistinct}
use home_gate.UserService.Identities.{create_user_oauth_identity}
use home_gate.InviteService.{claim_token}
use home_gate.Repositories.Invites.Claim.{claimed, IsUniqueId, after, claim_open, claim_closed}
use home_gate.Effects.{
  ◌>>◌, pure, final, bind_returned, then_returned, conflict, http, returned, threw,
}
use home_gate.UserService.{user_model_to_load_request_for_admin, get_user_by_email}
use home_gate.AuthService.SigningUp.{to_user, reject_existing, announce, register, complete_sign_up}
use home_gate.AuthService.{OAuthUserProfile, OAuthAuth, or_null, resolve_oauth_provider}
use home_gate.InviteService.Redeeming.Attempts.{Redeemable, validate_token_iff}
use home_gate.UserService.Creating.Names.{attempts, generate_username_ends}
use home_gate.Environment.{Environment, emit}
use home_gate.Common.{
  ℕ, ◌+◌, ◌≤◌, ◌<◌, String, ◌≡◌, refl, sym, ap, ◌∙◌, inl, inr, true, false, none, some, List, [],
  ◌∷◌, arith, ◌==◌, string_eq, ==_refl, Option-cases, or_else, is_value, nat_eq,
}
use home_gate.InviteService.Redeeming.{is_mismatch, validate_token}
use mathlib.Core.Path.{subst}
use home_gate.Model.{
  UserStatus, User, UserOAuthIdentity, OAuthProvider, InviteAccount, Invite, World,
}
use home_gate.Repositories.Users
use home_gate.Repositories.Invites
use home_gate.Repositories.UserOAuthIdentities
use mathlib.Core.Option

-- The rows that `completeSignUp` is about to insert clash with none.
pub record IsFree (env : Environment) (provider : OAuthProvider) (profile : OAuthUserProfile)
    (w : World) : Type 0 where
  pub new_id : (env.uuid w.created == "") ≡ false
  pub email : Users.find_by_email env profile.email w ≡ none
  pub names : AllDistinct (
      attempts env env.patience (base_name env profile.email) (base_name env profile.email) w.drawn)
  pub patience : Users.count_all env w ≤ env.patience
  pub identity :
      env.identities.find (is_profile provider.id profile.provider_account_id) w.identities ≡ none
  pub owner : env.identities.find (is_owned (env.uuid w.created) provider.id) w.identities ≡ none
  pub invite :
      env.invites.find (λ i. is_value i.used_by_user_id (env.uuid w.created)) w.invites ≡ none

-- The account is stored as active, with the role of the invite, linked to the profile of the
-- provider, and the invite is used by it.
pub record IsRegistered (env : Environment) (i : Invite) (provider : OAuthProvider)
    (profile : OAuthUserProfile) (auth : OAuthAuth) (w : World) : Type 0 where
  pub user : User
  pub stored : Users.find_by_email env profile.email w ≡ some user
  pub active : user.status ≡ UserStatus.active
  pub role : user.is_admin ≡ i.is_admin
  pub answer_id : auth.id ≡ user.id
  pub answer_role : auth.is_admin ≡ user.is_admin
  pub linked :
      Option.map
        (λ (r : UserOAuthIdentity). r.user_id)
        (UserOAuthIdentities.find env provider.id profile.provider_account_id w)
      ≡ some user.id
  pub used : Invites.find_by_id env i.id w ≡ some (claimed user.id w.now i)

module _ (env : Environment) (i : Invite) (provider : OAuthProvider) (profile : OAuthUserProfile)
    (w : World) where
  -- The address of the account is the profile's.
  own_address :
      is_mismatch (some profile.email) i.email ≡ false
      → or_else i.email profile.email ≡ profile.email
  own_address e = elim (Option-cases i.email) [
    | inl f ↦ rw f refl
    | inr (bound, f) ↦ ground (arith, string_eq.beq_iff bound profile.email)
  ]

  abbrev request : String → Users.CreateUser
  request username = record {
    email = profile.email;
    username = username;
    first_name = or_else profile.first_name "";
    last_name = or_else profile.last_name "";
    is_admin = i.is_admin;
  }

  -- The states after the draws, after the account and after its identity.
  abbrev drawn : ℕ → World
  drawn n = record w { drawn = n }

  abbrev identity : UserOAuthIdentity
  identity = record {
    id = env.uuid (w.created + 1);
    user_id = env.uuid w.created;
    provider_id = provider.id;
    profile_id = profile.provider_account_id;
    created_at = w.now;
  }

  abbrev with_account : String → ℕ → World
  with_account username n = Users.after_create env (request username) (drawn n)

  abbrev with_identity : String → ℕ → World
  with_identity username n = record (with_account username n) {
    identities = env.identities.insert identity w.identities;
    created = w.created + 1 + 1;
  }

  abbrev new_user : String → User
  new_user username = Users.new_row (env.uuid w.created) w.now (request username)

  create_user_ends :
      (username : String) (n : ℕ)
      → is_mismatch (some profile.email) i.email ≡ false
      → IsFree env provider profile w
      → generate_username env profile.email w ≡ returned username (drawn n)
      → Users.username_exists env username w ≡ false
      → (create_user env (to_user profile i) w
          ≡ returned
              (some (user_model_to_load_request_for_admin (new_user username)))
              (with_account username n))
        × (Users.find_by_email env profile.email (with_account username n)
            ≡ some (new_user username))
  unfolding create_user Users.username_exists Users.find_by_email
  create_user_ends username n m free g e =
      let (made, found) = create_found env (drawn n) (request username) free.email e in
      (rw (own_address m) (ground arith), found)

  create_identity_ends :
      (username : String) (n : ℕ)
      → IsFree env provider profile w
      → (create_user_oauth_identity env
            (record {
              user_id = env.uuid w.created;
              provider_id = provider.id;
              profile_id = profile.provider_account_id;
            })
            (with_account username n)
          ≡ returned (some identity) (with_identity username n))
        × (UserOAuthIdentities.find env provider.id profile.provider_account_id
              (with_identity username n)
            ≡ some identity)
  unfolding create_user_oauth_identity UserOAuthIdentities.create UserOAuthIdentities.find
  create_identity_ends username n free = (
    ground arith,
    env.identities.find-insert_new (is_profile provider.id profile.provider_account_id) identity
        w.identities free.identity
        (ground (arith, ==_refl provider.id, ==_refl profile.provider_account_id)),
  )

  announced :
      (user_id : String) (accounts : List InviteAccount) (v : World)
      → (announce env user_id accounts v ≡ returned tt (final (announce env user_id accounts v)))
        × (final (announce env user_id accounts v)
            ≡ record v { events = (final (announce env user_id accounts v)).events })
  unfolding announce emit
  announced user_id [] v = (refl, refl)
  announced user_id (a ∷ accounts) v = (refl, refl)

  -- The state in which the sign-up ends.
  abbrev registered : String → ℕ → World
  registered username n = final (
      announce env (env.uuid w.created) i.accounts
        (after env i.id (with_identity username n) (env.uuid w.created)))

  abbrev answer : String → OAuthAuth
  answer username = record {
    id = env.uuid w.created;
    username = username;
    is_admin = i.is_admin;
    provider_id = provider.id;
    avatar_url = or_null profile.picture none;
  }

  claim_token_ends :
      (username : String) (n : ℕ)
      → IsFree env provider profile w
      → Invites.find_by_id env i.id w ≡ some i
      → Invites.is_pending w.now i ≡ true
      → (claim_token env i.id (env.uuid w.created) (with_identity username n)
          ≡ returned
              (claimed (env.uuid w.created) w.now i)
              (after env i.id (with_identity username n) (env.uuid w.created)))
        × (Invites.find_by_id env i.id
              (after env i.id (with_identity username n) (env.uuid w.created))
            ≡ some (claimed (env.uuid w.created) w.now i))
  unfolding claim_token Invites.find_by_id
  claim_token_ends username n free e p =
      let (made, found) =
        claim_open env i.id (with_identity username n) (env.uuid w.created) i e p free.invite in
      (ground arith, found)

  register_ends :
      (username : String) (n : ℕ)
      → is_mismatch (some profile.email) i.email ≡ false
      → IsFree env provider profile w
      → Invites.find_by_id env i.id w ≡ some i
      → Invites.is_pending w.now i ≡ true
      → generate_username env profile.email w ≡ returned username (drawn n)
      → Users.username_exists env username w ≡ false
      → register env i provider profile w ≡ returned (answer username) (registered username n)
  unfolding register
  register_ends username n m free e p g f =
      let (one, first_read) = create_user_ends username n m free g f in
      let (two, second_read) = create_identity_ends username n free in
      let (three, third_read) = claim_token_ends username n free e p in
      bind_returned (create_user env (to_user profile i)) _ w _ _ one
      ∙ (rw free.new_id (
          then_returned (create_user_oauth_identity env _) _ (with_account username n) _ _ two
          ∙ (then_returned (claim_token env i.id (env.uuid w.created)) _ (with_identity username n)
                _ _ three
              ∙ then_returned (announce env (env.uuid w.created) i.accounts) _
                  (after env i.id (with_identity username n) (env.uuid w.created)) _ _
                  (announced _ _ _).0)))

  is_pending_of :
      Redeemable (some profile.email) w.now i
      → w.now < i.expires_at
      → Invites.is_pending w.now i ≡ true
  is_pending_of r l = ground (arith, r.unused, r.unrevoked)

  -- What the redeemable invite, the enabled provider and the free e-mail lead to.
  complete_sign_up_ends :
      (token : String)
      → validate_token env token (some profile.email) w ≡ returned i w
      → resolve_oauth_provider env profile w ≡ some provider
      → Users.find_by_email env profile.email w ≡ none
      → complete_sign_up env token profile w ≡ register env i provider profile w
  unfolding complete_sign_up reject_existing get_user_by_email
  complete_sign_up_ends token v r e =
      bind_returned (validate_token env token (some profile.email)) _ w _ _ v ∙ ground arith

  registered-IsRegistered :
      (username : String) (n : ℕ)
      → is_mismatch (some profile.email) i.email ≡ false
      → IsFree env provider profile w
      → Invites.find_by_id env i.id w ≡ some i
      → Invites.is_pending w.now i ≡ true
      → generate_username env profile.email w ≡ returned username (drawn n)
      → Users.username_exists env username w ≡ false
      → IsRegistered env i provider profile (answer username) (registered username n)
  unfolding Users.find_by_email UserOAuthIdentities.find Invites.find_by_id
  registered-IsRegistered username n m free e p g f =
      let (one, first_read) = create_user_ends username n m free g f in
      let (two, second_read) = create_identity_ends username n free in
      let (three, third_read) = claim_token_ends username n free e p in
      let same =
        (announced (env.uuid w.created) i.accounts
          (after env i.id (with_identity username n) (env.uuid w.created))).1 in
      subst (λ v. IsRegistered env i provider profile (answer username) v) (sym same)
        (record {
          user = new_user username;
          stored = first_read;
          active = refl;
          role = refl;
          answer_id = refl;
          answer_role = refl;
          linked = rw second_read refl;
          used = third_read;
        })

  -- Where the token is that of a stored invite, its id leads to the same invite, which is neither
  -- revoked nor used, expires after now and is bound to no other address than the profile's, the
  -- provider is enabled and every row that is inserted clashes with none, the sign-up succeeds: the
  -- account is stored as active with the role of the invite, it is linked to the profile, and the
  -- invite is used by it.
  pub complete_sign_up-IsRegistered :
      (token : String)
      → Invites.find_by_token env (env.hash_sha256 token) w ≡ some i
      → Invites.find_by_id env i.id w ≡ some i
      → Redeemable (some profile.email) w.now i
      → w.now < i.expires_at
      → resolve_oauth_provider env profile w ≡ some provider
      → IsFree env provider profile w
      → (auth : OAuthAuth) × (w' : World) × (complete_sign_up env token profile w
          ≡ returned auth w')
        × IsRegistered env i provider profile auth w'
  complete_sign_up-IsRegistered token t e r l o free =
      let (username, (n, g, f)) =
        generate_username_ends env profile.email w free.names free.patience in
      let valid = (validate_token_iff env token (some profile.email) w i).1 (t, r) in
      let p = is_pending_of r l in
      (
        answer username,
        registered username n,
        complete_sign_up_ends token valid o free.email
            ∙ register_ends username n r.own_address free e p g f,
        registered-IsRegistered username n r.own_address free e p g f,
      )

  lost :
      (username : String) (n : ℕ)
      → Invites.find_by_id env i.id w ≡ some i
      → IsUniqueId env i.id w
      → Invites.is_pending w.now i ≡ false
      → claim_token env i.id (env.uuid w.created) (with_identity username n)
        ≡ threw (http conflict "Invite token has already been used.") (with_identity username n)
  unfolding claim_token Invites.find_by_id
  lost username n e unique p =
      ground
        (arith, claim_closed env i.id (with_identity username n) (env.uuid w.created) i unique e p)

  -- Where everything holds that a sign-up needs but that the invite expires at this very time, its
  -- check passes and its claim finds nothing: the sign-up answers with a conflict, and the account
  -- is stored as active and linked to the profile.
  pub complete_sign_up_unclaimed :
      (token : String)
      → Invites.find_by_token env (env.hash_sha256 token) w ≡ some i
      → Invites.find_by_id env i.id w ≡ some i
      → IsUniqueId env i.id w
      → Redeemable (some profile.email) w.now i
      → i.expires_at ≡ w.now
      → resolve_oauth_provider env profile w ≡ some provider
      → IsFree env provider profile w
      → (u : User) × (w' : World) × (complete_sign_up env token profile w
          ≡ threw (http conflict "Invite token has already been used.") w')
        × (Users.find_by_email env profile.email w' ≡ some u)
        × (u.status ≡ UserStatus.active)
        × (Option.map
              (λ (r : UserOAuthIdentity). r.user_id)
              (UserOAuthIdentities.find env provider.id profile.provider_account_id w')
            ≡ some u.id)
  unfolding register Users.find_by_email UserOAuthIdentities.find Invites.find_by_id
  complete_sign_up_unclaimed token t e unique r l o free =
      let (username, (n, g, f)) =
        generate_username_ends env profile.email w free.names free.patience in
      let valid = (validate_token_iff env token (some profile.email) w i).1 (t, r) in
      let (one, first_read) = create_user_ends username n r.own_address free g f in
      let (two, second_read) = create_identity_ends username n free in
      (
        new_user username,
        with_identity username n,
        complete_sign_up_ends token valid o free.email
            ∙ (bind_returned (create_user env (to_user profile i)) _ w _ _ one
                ∙ (rw free.new_id (
                    then_returned (create_user_oauth_identity env _) _ (with_account username n) _ _
                      two
                    ∙ ap
                        (λ o. elim o [
                          | returned a v ↦
                              (announce env (env.uuid w.created) i.accounts
                                  >> pure (answer username))
                                v
                          | threw x v ↦ threw x v
                        ])
                        (lost username n e unique (ground arith))))),
        first_read,
        refl,
        rw second_read refl,
      )
