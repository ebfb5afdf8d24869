-- ===== src/Tests/Invites.antt =====
-- The theorems on invites at concrete inputs.
use home_gate.Common.{String, ◌≡◌, refl, false, none, some, [], ◌∷◌, arith}
use home_gate.Model.{Invite, World}
use home_gate.Effects.{Outcome, final, succeeds, returned}
use home_gate.Repositories.Invites
use home_gate.Repositories.Invites.{is_pending, claim}
use home_gate.Repositories.Invites.Claim.{claimed, claim-claim}
use home_gate.Repositories.Services
use home_gate.InviteService.Redeeming.{validate_token}
use home_gate.InviteService.Redeeming.Attempts.{validate_token_mismatch}
use home_gate.InviteService.Creating.{InviteAccountRequest, CreateInviteRequest, create_token}
use home_gate.InviteService.Creating.Checks.{validate_token-create_token}
use home_gate.Tests.Fixtures.{server, invite, world}

abbrev taken : Invite
taken = claimed "bob" 1000 invite

abbrev taken_world : World
taken_world = record world { invites = taken ∷ [] }

claim_invite : claim server "i1" "bob" world ≡ returned (some taken) taken_world
unfolding claim Invites.find_by_id
claim_invite = refl

claim-claim_example : claim server "i1" "ann" taken_world ≡ returned none taken_world
claim-claim_example =
    claim-claim server "i1" world "bob" "ann" taken taken_world (ground arith) claim_invite

find_invite_by_token : Invites.find_by_token server "sha256:A1" world ≡ some invite
unfolding Invites.find_by_token
find_invite_by_token = refl

find_invite_by_id : Invites.find_by_id server "i1" world ≡ some invite
unfolding Invites.find_by_id
find_invite_by_id = refl

validate_token_mismatch_example :
    (succeeds (validate_token server "A1" (some "mallory@home") world) ≡ false)
    × ((j : Invite) × (Invites.find_by_id server "i1"
            (final (validate_token server "A1" (some "mallory@home") world))
          ≡ some j)
        × (j.failed_attempts ≡ 3)
        × (j.revoked_at ≡ some 1000))
validate_token_mismatch_example =
    validate_token_mismatch server "A1" (some "mallory@home") world invite find_invite_by_token refl
      refl (ground arith) refl find_invite_by_id

abbrev account_for : String → InviteAccountRequest
account_for service_name = record {
  service_name = service_name;
  username = none;
  email = none;
  account_id = none;
}

abbrev options : CreateInviteRequest
options = record {
  email = none;
  is_admin = none;
  expires_in_days = 7;
  accounts = account_for "jellyfin" ∷ [];
}

abbrev sent : Outcome (String × Invite)
sent = create_token server options "ann" world

abbrev sent_invite : Invite
sent_invite = record {
  id = "r";
  token = "sha256:A1B2C3D4";
  email = none;
  is_admin = false;
  expires_at = 604801000;
  created_at = 1000;
  used_at = none;
  revoked_at = none;
  revoked_reason = none;
  failed_attempts = 0;
  created_by_user_id = some "ann";
  used_by_user_id = none;
  revoked_by_user_id = none;
  accounts =
      record {
        id = "ir";
        invite_id = "r";
        service_id = 1;
        service_name = "jellyfin";
        username = none;
        email = none;
        account_id = none;
      }
      ∷ [];
}

create_token_sent : sent ≡ returned ("A1B2C3D4", sent_invite) (final sent)
unfolding create_token Services.find_by_slug Invites.create Invites.find_by_token
    Services.find_by_id
create_token_sent = refl

validate_token-create_token_example :
    validate_token server "A1B2C3D4" none (final sent) ≡ returned sent_invite (final sent)
validate_token-create_token_example =
    validate_token-create_token server options "ann" "A1B2C3D4" sent_invite world (final sent)
      (ground arith) create_token_sent
