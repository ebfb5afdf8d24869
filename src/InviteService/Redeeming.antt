-- ===== src/InviteService/Redeeming.antt =====
-- `validateToken` of invite.service.ts.
pub mod Attempts
use home_gate.Common.{
  String, Bool, false, not, Option, none, some, ltb, leb, ◌==◌, if◌then◌else◌, is_some, nat_eq,
  string_eq,
}
use home_gate.Model.{auto_failed_attempts, Invite}
use home_gate.Effects.{
  M, ◌>>◌, pure, throw, gets, throw_if, expect, forbidden, not_found, conflict,
  unprocessable_entity, http, ◌>>=◌,
}
use home_gate.Environment.{Environment}
use home_gate.Repositories.Invites
use home_gate.InviteService.{max_invite_failed_attempts}

-- `email != null && invite.email != null && invite.email !== email`
abbrev pub is_mismatch : Option String → Option String → Bool
is_mismatch none bound = false
is_mismatch (some email) none = false
is_mismatch (some email) (some bound) = not (bound == email)

module _ (env : Environment) where
  -- The branch of an address that is not the invite's.
  pub reject_mismatch : Invite → M Invite
  reject_mismatch invite = do
    failed_attempts ← Invites.increment_failed_attempts env invite.id
    if leb max_invite_failed_attempts failed_attempts
        then Invites.revoke env invite.id auto_failed_attempts none >> pure tt
        else pure tt
    throw (http forbidden "Invite token is not valid for this account.")

  unfoldable pub validate_token : String → Option String → M Invite
  unfolding reject_mismatch
  validate_token raw_token email = do
    found ← gets (Invites.find_by_token env (env.hash_sha256 raw_token))
    invite ← expect found (http not_found "Invite token not found.")
    throw_if (is_some invite.revoked_at)
        (http unprocessable_entity "Invite token has been revoked.")
    throw_if (is_some invite.used_at) (http conflict "Invite token has already been used.")
    now ← gets (λ w. w.now)
    throw_if (ltb invite.expires_at now) (http unprocessable_entity "Invite token has expired.")
    if is_mismatch email invite.email then reject_mismatch invite else pure invite
