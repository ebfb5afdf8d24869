-- ===== src/InviteService.antt =====
-- server/src/api/services/invite.service.ts
pub mod Creating
pub mod Redeeming
use home_gate.Common.{
  ℕ, String, Bool, true, false, not, ◌&&◌, ◌||◌, Option, none, some, ltb, if◌then◌else◌, is_some,
  or_else,
}
use home_gate.Model.{admin, Invite}
use home_gate.Effects.{
  M, pure, gets, throw_if, expect, not_found, conflict, unprocessable_entity, http, ◌>>=◌, ◌>>◌,
}
use home_gate.Environment.{Environment}
use home_gate.Repositories.Invites
use home_gate.Repositories.Invites.{UpdateInvite}

-- MAX_INVITE_FAILED_ATTEMPTS of server/src/types/invite.constants.ts
abbrev pub max_invite_failed_attempts : ℕ
max_invite_failed_attempts = 3

-- InvitePatchRequestDto
pub record InvitePatchRequest : Type 0 where
  pub email : Option (Option String)
  pub expires_at : Option ℕ
  pub is_admin : Option Bool
  pub revoked : Option Bool

abbrev is_true : Option Bool → Bool
is_true (some true) = true
is_true _ = false

abbrev to_update : InvitePatchRequest → String → ℕ → UpdateInvite
to_update request user_id now = record {
  email = request.email;
  expires_at = request.expires_at;
  is_admin = request.is_admin;
  revoked_at = if is_true request.revoked then some (some now) else none;
  revoked_reason = if is_true request.revoked then some (some admin) else none;
  revoked_by_user_id = if is_true request.revoked then some (some user_id) else none;
}

-- `Object.keys(updateData).length === 0`
abbrev is_empty : InvitePatchRequest → Bool
is_empty r =
    not (is_some r.email)
    && not (is_some r.expires_at)
    && not (is_some r.is_admin)
    && not (is_true r.revoked)

module _ (env : Environment) where
  pub find_invite : String → M Invite
  find_invite id w = expect (Invites.find_by_id env id w) (http not_found "Invite not found.") w

  pub revoke_token : String → String → M Invite
  unfolding find_invite
  revoke_token id revoked_by_user_id = do
    invite ← find_invite id
    throw_if (is_some invite.used_at)
        (http conflict "Cannot revoke an invite that has already been used.")
    now ← gets (λ w. w.now)
    if is_some invite.revoked_at || ltb invite.expires_at now then pure invite else do
      revoked ← Invites.revoke env id admin (some revoked_by_user_id)
      pure (or_else revoked invite)

  pub update_invite : String → InvitePatchRequest → String → M Invite
  unfolding find_invite
  update_invite id request user_id = do
    invite ← find_invite id
    throw_if (is_some invite.used_at)
        (http unprocessable_entity "Cannot update an invite that has already been used.")
    throw_if (is_some invite.revoked_at)
        (http unprocessable_entity "Cannot update a revoked invite.")
    now ← gets (λ w. w.now)
    if is_empty request then pure invite else do
      updated ← Invites.update env id (to_update request user_id now)
      pure (or_else updated invite)

  unfoldable pub claim_token : String → String → M Invite
  claim_token invite_id user_id = do
    claimed ← Invites.claim env invite_id user_id
    expect claimed (http conflict "Invite token has already been used.")

  pub delete_invite : String → M (Unit {0})
  unfolding find_invite
  delete_invite id = do invite ← find_invite id; Invites.delete env id
