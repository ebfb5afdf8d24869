-- ===== src/Tests/Users.antt =====
-- Changes of the users of Fixtures.
use home_gate.UserService.Changing.Outcomes.{
  soft_delete_user-deleted, IsGone, hard_delete_user-IsGone,
}
use home_gate.UserService.Changing.{soft_delete_user, hard_delete_user, set_user_admin}
use home_gate.UserService.{UserResponseForAdmin, user_model_to_load_request_for_admin}
use home_gate.Tests.Fixtures.{server, ann, bob, world}
use home_gate.Effects.{returned}
use home_gate.Model.{UserStatus, User, World}
use home_gate.Common.{◌≡◌, refl, ◌⊎◌, true, false, none, some, [], ◌∷◌, is_value, nat_eq, string_eq}
use home_gate.Repositories.Users

abbrev promoted_world : World
promoted_world = record world { users = ann ∷ record bob { is_admin = true } ∷ [] }

abbrev promoted_bob : UserResponseForAdmin
promoted_bob = user_model_to_load_request_for_admin (record bob { is_admin = true })

promote_bob :
    set_user_admin server "bob" true "ann" world ≡ returned (some promoted_bob) promoted_world
unfolding set_user_admin Users.set_admin Users.update_by_id Users.find_by_id
promote_bob = refl

-- Ann has no subscription.
abbrev bereft_world : World
bereft_world = record world {
  users = record ann { status = UserStatus.deleted; deleted_at = some 1000 } ∷ bob ∷ [];
}

delete_ann : soft_delete_user server "ann" world ≡ returned true bereft_world
unfolding soft_delete_user Users.soft_delete Users.update_by_id Users.find_by_id
    home_gate.SubscriptionLifecycle.Expiring.disable_all_for_user
    home_gate.Repositories.Subscriptions.find_many home_gate.Repositories.Sessions.delete_by_user_id
delete_ann = refl

soft_delete_user-deleted_example :
    (u : User) × (Users.find_by_id server "ann" bereft_world ≡ some u)
    × (u.status ≡ UserStatus.deleted)
    × (u.deleted_at ≡ some 1000)
    × (server.sessions.find (λ s. is_value s.user_id "ann") bereft_world.sessions ≡ none)
soft_delete_user-deleted_example =
    soft_delete_user-deleted server "ann" world bereft_world delete_ann

hard_delete_user-IsGone_example :
    (w' : World) × (((hard_delete_user server "bob" world ≡ returned true w')
        × IsGone server "bob" w')
      ⊎ ((hard_delete_user server "bob" world ≡ returned false w') × (w' ≡ world)))
hard_delete_user-IsGone_example = hard_delete_user-IsGone server "bob" world
