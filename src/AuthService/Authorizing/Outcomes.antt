-- ===== src/AuthService/Authorizing/Outcomes.antt =====
-- Who may sign in, and what a sign-in leaves.
use home_gate.UserService.Changing.{update_avatar}
use home_gate.AuthService.{OAuthUserProfile, OAuthAuth, resolve_oauth_provider}
use home_gate.UserService.Identities.{
  get_user_oauth_identity, has_identity_for_provider, create_user_oauth_identity,
}
use home_gate.UserService.{UserResponseForAdmin, without_avatar, get_user_by_email}
use home_gate.Repositories.UserOAuthIdentities.{is_profile, is_owned}
use home_gate.Repositories.Users.Laws.{update_by_id_found}
use home_gate.Environment.{Environment}
use home_gate.Effects.{Outcome, final, bind_returned, then_returned, returned, threw}
use home_gate.Model.{is_active_user, User, UserOAuthIdentity, OAuthProvider, World}
use home_gate.Common.{
  ◌+◌, String, ◌≡◌, refl, ap, ◌∙◌, inl, inr, true, false, not, ◌||◌, Option, none, some, arith,
  ◌==◌, ==_refl, Bool-cases, Option-cases, is_some, nat_eq, string_eq,
}
use home_gate.AuthService.Authorizing.{
  is_fresh, link_identity, refresh_avatar, signed_in, finish, identify, authorize,
}
use home_gate.Repositories.Users
use home_gate.Repositories.UserOAuthIdentities

-- The user has the address of the profile and is active, its provider is enabled, and the profile
-- has an identity or the user has none of this provider.
pub record IsPermitted (env : Environment) (request : OAuthUserProfile) (u : User)
    (provider : OAuthProvider) (w : World) : Type 0 where
  pub account : Users.find_by_email env request.email w ≡ some u
  pub active : is_active_user u.status ≡ true
  pub provided : resolve_oauth_provider env request w ≡ some provider
  pub identified :
      (is_some (UserOAuthIdentities.find env provider.id request.provider_account_id w)
        || not (has_identity_for_provider env u.id provider.id w))
      ≡ true

module _ (env : Environment) (request : OAuthUserProfile) (w : World) where
  -- The answer to a sign-in of this user.
  abbrev answer_for : User → OAuthProvider → OAuthAuth
  answer_for u provider = signed_in env (without_avatar u) provider request

  authorize_inverse :
      (u : User) (provider : OAuthProvider) (auth : OAuthAuth) (w' : World)
      → Users.find_by_email env request.email w ≡ some u
      → resolve_oauth_provider env request w ≡ some provider
      → authorize env request w ≡ returned (some auth) w'
      → IsPermitted env request u provider w × (auth ≡ answer_for u provider)
  unfolding authorize get_user_by_email identify get_user_oauth_identity finish
  authorize_inverse u provider auth w' e f g = (
    record { account = e; active = ground arith; provided = f; identified = ground arith },
    ground arith,
  )

  -- The avatar is the only thing that the last step may change.
  refresh_avatar-identities :
      (user : UserResponseForAdmin) (picture : Option String) (v : World)
      → (final (refresh_avatar env user picture v)).identities ≡ v.identities
  unfolding refresh_avatar update_avatar Users.set_avatar Users.update_by_id
  refresh_avatar-identities user none v = refl
  refresh_avatar-identities user (some picture) v = ground arith

  finish-identities :
      (user : UserResponseForAdmin) (provider : OAuthProvider) (v w' : World) (auth : OAuthAuth)
      → finish env user provider request v ≡ returned (some auth) w'
      → w'.identities ≡ v.identities
  unfolding finish
  finish-identities user provider v w' auth e =
      ground (arith, refresh_avatar-identities user request.picture v)

  -- A new identity is found by its provider and profile.
  link_identity_found :
      (user_id : String) (provider : OAuthProvider) (v : World)
      → link_identity env user_id provider.id request.provider_account_id w ≡ returned tt v
      → is_some (UserOAuthIdentities.find env provider.id request.provider_account_id v) ≡ true
  unfolding link_identity create_user_oauth_identity UserOAuthIdentities.create
      UserOAuthIdentities.find
  link_identity_found user_id provider v e = ground (
    arith,
    ==_refl provider.id,
    ==_refl request.provider_account_id,
    env.identities.find-insert_new (is_profile provider.id request.provider_account_id)
        (UserOAuthIdentities.new_row (env.uuid w.created) w.now (record {
          user_id = user_id;
          provider_id = provider.id;
          profile_id = request.provider_account_id;
        }))
        w.identities,
  )

  abbrev identity_in : OAuthProvider → World → Option UserOAuthIdentity
  identity_in provider v = UserOAuthIdentities.find env provider.id request.provider_account_id v

  identified_after :
      (user : UserResponseForAdmin) (provider : OAuthProvider) (auth : OAuthAuth) (w' : World)
      → identify env user provider request w ≡ returned (some auth) w'
      → is_some (identity_in provider w') ≡ true
  unfolding identify get_user_oauth_identity UserOAuthIdentities.find
  identified_after user provider auth w' e = elim (Option-cases (identity_in provider w)) [
    | inr (identity, f) ↦ ground (arith, finish-identities user provider w w' auth)
    | inl f ↦ go (link_identity env user.id provider.id request.provider_account_id w) refl f
  ]
    where
      go :
          (o : Outcome (Unit {0}))
          → link_identity env user.id provider.id request.provider_account_id w ≡ o
          → identity_in provider w ≡ none
          → is_some (identity_in provider w') ≡ true
      go (returned a v) g f =
          ground (
            arith,
            finish-identities user provider v w' auth,
            link_identity_found user.id provider v,
          )
      go (threw x v) g f = absurd (ground arith)

  -- A sign-in is answered only for a stored, active user of the profile's address and an enabled
  -- provider, with that user's id and role, where the profile has a stored identity, of whichever
  -- user, or the user has none of this provider; and from then on the profile has one.
  pub authorize-IsPermitted :
      (auth : OAuthAuth) (w' : World)
      → authorize env request w ≡ returned (some auth) w'
      → (u : User) × (provider : OAuthProvider) × IsPermitted env request u provider w
        × (auth ≡ answer_for u provider)
        × (is_some (identity_in provider w') ≡ true)
  unfolding authorize get_user_by_email
  authorize-IsPermitted auth w' e = elim (Option-cases (Users.find_by_email env request.email w)) [
    | inl f ↦ absurd (ground arith)
    | inr (u, f) ↦ elim (Option-cases (resolve_oauth_provider env request w)) [
      | inl g ↦ absurd (ground arith)
      | inr (provider, g) ↦
          let (permitted, same) = authorize_inverse u provider auth w' f g e in
          (
            u,
            provider,
            permitted,
            same,
            identified_after (without_avatar u) provider auth w' (ground arith),
          )
    ]
  ]

  -- A sign-in that is refused without an error changes nothing.
  pub authorize_refused : (w' : World) → authorize env request w ≡ returned none w' → w' ≡ w
  unfolding authorize get_user_by_email identify finish
  authorize_refused w' e = ground arith

  refresh_avatar_ends :
      (u : User) (picture : Option String) (v : World)
      → Users.find_by_id env u.id v ≡ some u
      → (w' : World) × (refresh_avatar env (without_avatar u) picture v ≡ returned tt w')
  unfolding refresh_avatar update_avatar Users.set_avatar
  refresh_avatar_ends u none v e = (v, refl)
  refresh_avatar_ends u (some picture) v e =
      let (w', made, read, rest) =
        update_by_id_found env v u.id (λ u. record u { avatar_url = some picture }) u e
          (λ r. refl) in
      elim (Bool-cases (is_fresh (some picture) none)) [
        | inl f ↦ (w', ground arith)
        | inr f ↦ (v, ground arith)
      ]

  link_identity_ends :
      (u : User) (provider : OAuthProvider)
      → identity_in provider w ≡ none
      → has_identity_for_provider env u.id provider.id w ≡ false
      → (v : World) × (link_identity env u.id provider.id request.provider_account_id w
          ≡ returned tt v)
        × (v.users ≡ w.users)
  unfolding link_identity create_user_oauth_identity UserOAuthIdentities.create
      UserOAuthIdentities.find has_identity_for_provider UserOAuthIdentities.find_owned
  link_identity_ends u provider e f = (
    record w {
      identities =
          env.identities.insert
            (UserOAuthIdentities.new_row (env.uuid w.created) w.now (record {
              user_id = u.id;
              provider_id = provider.id;
              profile_id = request.provider_account_id;
            }))
            w.identities;
      created = w.created + 1;
    },
    ground (arith, env.identities.find-count (is_owned u.id provider.id) w.identities),
    refl,
  )

  authorize_reaches :
      (u : User) (provider : OAuthProvider)
      → IsPermitted env request u provider w
      → authorize env request w ≡ identify env (without_avatar u) provider request w
  unfolding authorize get_user_by_email
  authorize_reaches u provider h = ground (arith, h.account, h.active, h.provided)

  finish_ends :
      (u : User) (provider : OAuthProvider) (v : World)
      → Users.find_by_id env u.id v ≡ some u
      → (w' : World) × (finish env (without_avatar u) provider request v
          ≡ returned (some (answer_for u provider)) w')
  unfolding finish
  finish_ends u provider v e =
      let (w', g) = refresh_avatar_ends u request.picture v e in
      (w', bind_returned (refresh_avatar env (without_avatar u) request.picture) _ v _ _ g)

  -- A user who may sign in, and whose row is found by its id too, is signed in.
  pub authorize_permitted :
      (u : User) (provider : OAuthProvider)
      → IsPermitted env request u provider w
      → Users.find_by_id env u.id w ≡ some u
      → (w' : World) × (authorize env request w ≡ returned (some (answer_for u provider)) w')
  unfolding identify get_user_oauth_identity Users.find_by_id
  authorize_permitted u provider h e = elim (Option-cases (identity_in provider w)) [
    | inr (identity, f) ↦
        let (w', g) = finish_ends u provider w e in
        (w', authorize_reaches u provider h ∙ ground arith)
    | inl f ↦
        let (v, linked, same) = link_identity_ends u provider f (ground (arith, h.identified)) in
        let (w', g) =
          finish_ends u provider v
            (ap (λ rows. env.users.find (λ (r : User). r.id == u.id) rows) same ∙ e) in
        (
          w',
          authorize_reaches u provider h
              ∙ (ground (arith, h.identified)
                  ∙ (then_returned (link_identity env u.id provider.id request.provider_account_id)
                        (finish env (without_avatar u) provider request) w v _ linked
                      ∙ g)),
        )
  ]
