-- ===== src/Repositories/Users.antt =====
-- server/src/data/repositories/user.repository.ts. Deleting a row cascades as
-- server/prisma/models/entities.prisma says.
pub mod Laws
use home_gate.Repositories.Errors.{map_prisma_error, p2002, p2003, p2025}
use home_gate.Environment.{Environment}
use home_gate.Effects.{M, ◌>>◌, pure, try_catch, returned, threw, ◌>>=◌}
use home_gate.Model.{UserStatus, is_deleted_user, User, Session, Subscription, Invite, World}
use home_gate.Common.{
  ℕ, ◌+◌, String, Bool, true, false, ◌&&◌, ◌||◌, Option, none, some, List, ◌++◌, map, ltb, leb,
  ◌==◌, if◌then◌else◌, is_some, holds, unless, length, any, nat_eq, string_eq,
}
use home_gate.Repositories.Subscriptions

-- CreateUserModel, and the field `isAdmin` that the sign-up passes on.
pub record CreateUser : Type 0 where
  pub email : String
  pub username : String
  pub first_name : String
  pub last_name : String
  pub is_admin : Bool

-- The row of a create, with the defaults of the schema.
abbrev pub new_row : String → ℕ → CreateUser → User
new_row id now request = record {
  id = id;
  email = request.email;
  username = request.username;
  first_name = request.first_name;
  last_name = request.last_name;
  is_admin = request.is_admin;
  status = UserStatus.active;
  avatar_url = none;
  created_at = now;
  deleted_at = none;
}

-- `{ status: 'DELETED', deletedAt: { lt: cutoff } }`
abbrev pub is_deleted_before : ℕ → User → Bool
is_deleted_before cutoff u = is_deleted_user u.status && holds (λ t. ltb t cutoff) u.deleted_at

module _ (env : Environment) where
  unfoldable pub find_by_id : String → World → Option User
  find_by_id id w = env.users.find (λ u. u.id == id) w.users

  unfoldable pub find_by_email : String → World → Option User
  find_by_email email w = env.users.find (λ u. u.email == email) w.users

  unfoldable pub username_exists : String → World → Bool
  username_exists username w =
      leb 1 (length (env.users.find_many (λ u. u.username == username) w.users))

  -- `count({})`
  unfoldable pub count_all : World → ℕ
  count_all w = length (env.users.find_many (λ u. true) w.users)

  abbrev pub after_create : CreateUser → World → World
  after_create request w = record w {
    users = env.users.insert (new_row (env.uuid w.created) w.now request) w.users;
    created = w.created + 1;
  }

  -- The e-mail and the username are unique.
  unfoldable pub create : CreateUser → M (Option User)
  create request w =
      if is_some (find_by_email request.email w) || username_exists request.username w
      then threw (map_prisma_error p2002) w
      else returned (some (new_row (env.uuid w.created) w.now request)) (after_create request w)

  -- `this.db.user.update({ where: { id }, data })`
  unfoldable pub update_by_id : String → (User → User) → M User
  update_by_id id f w = elim (find_by_id id w) [
    | none ↦ threw (map_prisma_error p2025) w
    | some u ↦ returned (f u) (record w { users = env.users.update (λ u. u.id == id) f w.users })
  ]

  pub activate : String → M User
  activate id = update_by_id id (λ u. record u { status = UserStatus.active })

  -- `setEnabled`: enabling undoes a deletion too.
  unfoldable pub set_enabled : String → Bool → M (Option User)
  set_enabled id enabled = do
    user ← update_by_id id (λ u. record u {
      status = if enabled then UserStatus.active else UserStatus.disabled;
      deleted_at = none;
    })
    pure (some user)

  unfoldable pub set_admin : String → Bool → M (Option User)
  set_admin id is_admin = do
    user ← update_by_id id (λ u. record u { is_admin = is_admin })
    pure (some user)

  unfoldable pub set_avatar : String → String → M (Option User)
  set_avatar id avatar_url = do
    user ← update_by_id id (λ u. record u { avatar_url = some avatar_url })
    pure (some user)

  unfoldable pub soft_delete : String → M Bool
  soft_delete id w =
      try_catch
        (update_by_id id (λ u. record u { status = UserStatus.deleted; deleted_at = some w.now })
          >> pure true)
        (λ e. pure false) w

  -- What is left of an invite when the users that a test accepts are gone (onDelete: SetNull).
  abbrev release : (String → Bool) → Invite → Invite
  release gone i = record i {
    created_by_user_id = unless gone i.created_by_user_id;
    used_by_user_id = unless gone i.used_by_user_id;
    revoked_by_user_id = unless gone i.revoked_by_user_id;
  }

  -- The subscriptions that go with deleted users, and those that are derived from them.
  abbrev gone_subscriptions : (String → Bool) → World → List String
  gone_subscriptions gone w =
      let doomed = env.subscriptions.find_many (λ s. gone s.user_id) w.subscriptions in
      let ids = map (λ (s : Subscription). s.id) doomed in
      Subscriptions.reached env (length w.subscriptions) ids w.subscriptions ++ ids

  -- The rows that go with deleted users (onDelete: Cascade); those that only name them stay.
  unfoldable pub cascade_delete : (String → Bool) → World → World
  cascade_delete gone w =
      let ids = gone_subscriptions gone w in
      record w {
        users = env.users.remove (λ u. gone u.id) w.users;
        subscriptions =
            env.subscriptions.remove (λ s. gone s.user_id || any (λ i. s.id == i) ids)
              w.subscriptions;
        accounts =
            env.accounts.remove (λ a. gone a.user_id || any (λ i. a.subscription_id == i) ids)
              w.accounts;
        policies =
            env.policies.update (λ p. true)
              (λ p. record p { created_by_user_id = unless gone p.created_by_user_id })
              (env.policies.remove (λ p. gone p.user_id) w.policies);
        identities = env.identities.remove (λ i. gone i.user_id) w.identities;
        sessions = env.sessions.remove (λ s. holds gone s.user_id) w.sessions;
        invites = env.invites.update (λ i. true) (release gone) w.invites;
      }

  -- A line of the log that names a session of a deleted user forbids the delete (onDelete: NoAction).
  abbrev pub is_held : (String → Bool) → World → Bool
  is_held gone w =
      let doomed = env.sessions.find_many (λ s. holds gone s.user_id) w.sessions in
      is_some (
        env.logs.find (λ l. holds (λ id. any (λ (s : Session). s.id == id) doomed) l.session_id)
          w.logs)

  -- The `catch` answers false, whatever the error is.
  unfoldable pub hard_delete : String → M Bool
  unfolding cascade_delete
  hard_delete id w = elim (find_by_id id w) [
    | none ↦ returned false w
    | some u ↦
        if is_held (λ other_id. other_id == id) w
        then returned false w
        else returned true (cascade_delete (λ other_id. other_id == id) w)
  ]

  unfoldable pub delete_deleted_older_than : ℕ → M ℕ
  unfolding cascade_delete
  delete_deleted_older_than cutoff w =
      let doomed = env.users.find_many (is_deleted_before cutoff) w.users in
      let gone : String → Bool = λ id. any (λ (u : User). u.id == id) doomed in
      if is_held gone w
      then threw (map_prisma_error p2003) w
      else returned (length doomed) (cascade_delete gone w)
