-- ===== src/Repositories/Invites/Laws.antt =====
-- The invite that is stored after a write to it.
use home_gate.Repositories.Invites.{
  CreateInviteAccount, CreateInvite, find_by_id, find_by_token, new_row, create,
  increment_failed_attempts, revoke,
}
use home_gate.Common.{
  ◌+◌, String, ◌≡◌, refl, inl, inr, Option, none, some, List, arith, ◌==◌, ==_refl, Option-cases,
  nat_eq, string_eq,
}
use home_gate.Model.{InviteRevokedReason, Invite, World}
use home_gate.Effects.{final, returned}
use home_gate.Environment.{Environment}

module _ (env : Environment) (id : String) (w : World) (i : Invite) where
  pub increment_found :
      find_by_id env id w ≡ some i
      → (w' : World) × (increment_failed_attempts env id w ≡ returned (i.failed_attempts + 1) w')
        × (w'.now ≡ w.now)
        × (find_by_id env id w' ≡ some (record i { failed_attempts = i.failed_attempts + 1 }))
  unfolding increment_failed_attempts find_by_id
  increment_found e = (
    record w {
      invites =
          env.invites.update (λ i. i.id == id)
            (λ i. record i { failed_attempts = i.failed_attempts + 1 }) w.invites;
    },
    ground arith,
    refl,
    ground (
      arith,
      env.invites.find-sound (λ i. i.id == id) w.invites i e,
      env.invites.find-update (λ i. i.id == id) (λ i. i.id == id)
          (λ i. record i { failed_attempts = i.failed_attempts + 1 }) w.invites (λ r. refl),
    ),
  )

  pub revoke_found :
      (reason : InviteRevokedReason) (user_id : Option String)
      → find_by_id env id w ≡ some i
      → (w' : World) × (j : Invite) × (revoke env id reason user_id w ≡ returned (some j) w')
        × (find_by_id env id w' ≡ some j)
        × (j ≡ record i {
          revoked_at = some w.now;
          revoked_reason = some reason;
          revoked_by_user_id = user_id;
        })
  unfolding revoke find_by_id
  revoke_found reason user_id e =
      let f : Invite → Invite = λ i. record i {
        revoked_at = some w.now;
        revoked_reason = some reason;
        revoked_by_user_id = user_id;
      } in
      (
        record w { invites = env.invites.update (λ i. i.id == id) f w.invites },
        f i,
        ground arith,
        ground (
          arith,
          env.invites.find-sound (λ i. i.id == id) w.invites i e,
          env.invites.find-update (λ i. i.id == id) (λ i. i.id == id) f w.invites (λ r. refl),
        ),
        refl,
      )

-- A created invite is read by its token, and is as the request says.
pub create_found :
    (env : Environment) (request : CreateInvite) (accounts : List CreateInviteAccount)
    (w w' : World) (i : Invite)
    → create env request accounts w ≡ returned i w'
    → (find_by_token env request.token w' ≡ some i)
      × ((i.used_at ≡ none) × (i.revoked_at ≡ none))
      × ((i.expires_at ≡ request.expires_at) × (i.email ≡ request.email))
      × (w'.now ≡ w.now)
unfolding create find_by_token new_row
create_found env request accounts w w' i e =
    elim (Option-cases (find_by_token env request.token w)) [
      | inl f ↦
          let inserted =
            env.invites.find-insert_new (λ i. i.token == request.token)
              (new_row env request accounts w) w.invites f (==_refl request.token) in
          (
            ground (arith, inserted),
            (ground arith, ground arith),
            (ground arith, ground arith),
            ground arith,
          )
      | inr (taken, f) ↦ absurd (ground arith)
    ]

pub revoke-now :
    (env : Environment) (id : String) (reason : InviteRevokedReason) (user_id : Option String)
    (w : World)
    → (final (revoke env id reason user_id w)).now ≡ w.now
unfolding revoke
revoke-now env id reason user_id w = ground arith
