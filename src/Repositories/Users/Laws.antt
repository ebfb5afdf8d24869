-- ===== src/Repositories/Users/Laws.antt =====
-- The user that is stored after a create or an update.
use home_gate.Common.{
  String, ◌≡◌, refl, ap, false, none, some, arith, ◌==◌, ==_refl, nat_eq, string_eq,
}
use home_gate.Model.{User, World}
use home_gate.Effects.{returned}
use home_gate.Environment.{Environment}
use home_gate.Repositories.Users.{
  CreateUser, new_row, find_by_id, find_by_email, username_exists, after_create, create,
  update_by_id,
}

module _ (env : Environment) (w : World) where
  -- A create with a new e-mail and username succeeds, and the row is found by its e-mail.
  pub create_found :
      (request : CreateUser)
      → find_by_email env request.email w ≡ none
      → username_exists env request.username w ≡ false
      → (create env request w
          ≡ returned
              (some (new_row (env.uuid w.created) w.now request))
              (after_create env request w))
        × (find_by_email env request.email (after_create env request w)
            ≡ some (new_row (env.uuid w.created) w.now request))
  unfolding create find_by_email
  create_found request e f = (
    ground arith,
    env.users.find-insert_new (λ u. u.email == request.email)
        (new_row (env.uuid w.created) w.now request) w.users e (==_refl request.email),
  )

  -- What an update of one user stores and returns.
  pub update_by_id_found :
      (id : String) (f : User → User) (u : User)
      → find_by_id env id w ≡ some u
      → ((r : User) → (f r).id ≡ r.id)
      → (w' : World) × (update_by_id env id f w ≡ returned (f u) w')
        × (find_by_id env id w' ≡ some (f u))
        × (w' ≡ record w { users = w'.users })
  unfolding update_by_id find_by_id
  update_by_id_found id f u e k = (
    record w { users = env.users.update (λ u. u.id == id) f w.users },
    ground arith,
    ground (
      arith,
      env.users.find-sound (λ u. u.id == id) w.users u e,
      env.users.find-update (λ u. u.id == id) (λ u. u.id == id) f w.users
          (λ r. ap (λ x. x == id) (k r)),
    ),
    refl,
  )
