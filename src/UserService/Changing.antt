-- ===== src/UserService/Changing.antt =====
-- The methods of user.service.ts that change or delete a user.
pub mod Outcomes
use home_gate.Effects.{M, ◌>>◌, pure, gets, throw_if, bad_request, http, ◌>>=◌}
use home_gate.Model.{is_active_user, User}
use home_gate.Common.{ℕ, ◌-◌, ◌*◌, String, Bool, true, false, not, ◌&&◌, Option, holds}
use home_gate.Environment.{Environment}
use home_gate.Repositories.Users
use home_gate.Repositories.Sessions
use home_gate.UserService.{UserResponseForAdmin, user_model_to_load_request_for_admin}
use home_gate.SubscriptionLifecycle.Expiring.{disable_all_for_user}
use mathlib.Core.Option

module _ (env : Environment) where
  unfoldable pub activate_user : String → M UserResponseForAdmin
  activate_user user_id = do
    user ← Users.activate env user_id
    pure (user_model_to_load_request_for_admin user)

  unfoldable pub update_avatar : String → String → M (Unit {0})
  update_avatar user_id avatar_url = Users.set_avatar env user_id avatar_url >> pure tt

  -- The cutoff is the present less `retentionDays` days, in milliseconds; no date is before 0 here.
  unfoldable pub purge_deleted_users : ℕ → M Bool
  purge_deleted_users retention_days = do
    now ← gets (λ w. w.now)
    Users.delete_deleted_older_than env (now - retention_days * 86400000)
    pure true

  -- `cleanupUserSessions` is the second step.
  unfoldable pub soft_delete_user : String → M Bool
  soft_delete_user user_id = do
    disable_all_for_user env user_id
    Sessions.delete_by_user_id env user_id
    Users.soft_delete env user_id

  unfoldable pub hard_delete_user : String → M Bool
  hard_delete_user user_id = Users.hard_delete env user_id

  unfoldable pub disable_user : String → M (Option UserResponseForAdmin)
  disable_user user_id = do
    user ← Users.set_enabled env user_id false
    pure (Option.map user_model_to_load_request_for_admin user)

  unfoldable pub enable_user : String → M (Option UserResponseForAdmin)
  enable_user user_id = do
    user ← Users.set_enabled env user_id true
    pure (Option.map user_model_to_load_request_for_admin user)

  -- `!existingUser || existingUser.status !== ACTIVE`
  abbrev is_grantable : Option User → Bool
  is_grantable = holds (λ u. is_active_user u.status)

  unfoldable pub set_user_admin : String → Bool → String → M (Option UserResponseForAdmin)
  set_user_admin user_id is_admin acted_by_user_id = do
    existing ← gets (Users.find_by_id env user_id)
    throw_if (is_admin && not (is_grantable existing))
        (http bad_request "Only active users can be granted admin access.")
    user ← Users.set_admin env user_id is_admin
    pure (Option.map user_model_to_load_request_for_admin user)
