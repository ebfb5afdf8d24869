-- ===== src/Repositories/Invites.antt =====
-- server/src/data/repositories/invite.repository.ts
pub mod Claim
pub mod Laws
use home_gate.Repositories.Errors.{map_prisma_error, p2002, p2025}
use home_gate.Environment.{Environment}
use home_gate.Effects.{M, returned, threw}
use home_gate.Model.{InviteRevokedReason, InviteAccount, Invite, World}
use home_gate.Common.{
  ℕ, ◌+◌, String, Bool, not, ◌&&◌, Option, none, some, List, [], ◌∷◌, ltb, ◌==◌, if◌then◌else◌,
  is_some, or_else, is_value, length, nat_eq, string_eq,
}
use home_gate.Repositories.Services

-- `{ usedAt: null, revokedAt: null, expiresAt: { gt: new Date() } }`
abbrev pub is_pending : ℕ → Invite → Bool
is_pending now i = not (is_some i.used_at) && not (is_some i.revoked_at) && ltb now i.expires_at

-- CreateInviteModel and CreateInviteAccountModel
pub record CreateInviteAccount : Type 0 where
  pub service_id : ℕ
  pub username : Option String
  pub email : Option String
  pub account_id : Option String

pub record CreateInvite : Type 0 where
  pub token : String
  pub email : Option String
  pub is_admin : Bool
  pub expires_at : ℕ
  pub created_by_user_id : String

-- UpdateInviteModel
pub record UpdateInvite : Type 0 where
  pub email : Option (Option String)
  pub expires_at : Option ℕ
  pub is_admin : Option Bool
  pub revoked_at : Option (Option ℕ)
  pub revoked_reason : Option (Option InviteRevokedReason)
  pub revoked_by_user_id : Option (Option String)

abbrev pub updated : UpdateInvite → Invite → Invite
updated request i = record i {
  email = or_else request.email i.email;
  is_admin = or_else request.is_admin i.is_admin;
  expires_at = or_else request.expires_at i.expires_at;
  revoked_at = or_else request.revoked_at i.revoked_at;
  revoked_reason = or_else request.revoked_reason i.revoked_reason;
  revoked_by_user_id = or_else request.revoked_by_user_id i.revoked_by_user_id;
}

-- `orderBy: { createdAt: 'desc' }`, of which the first is taken. Of invites of the same time it is
-- the one that the database lists first.
abbrev pub newest : List Invite → Option Invite
newest [] = none
newest (i ∷ rest) =
    let later = newest rest in
    elim later [ none ↦ some i | some j ↦ if ltb i.created_at j.created_at then some j else some i ]

module _ (env : Environment) where
  unfoldable pub find_by_id : String → World → Option Invite
  find_by_id id w = env.invites.find (λ i. i.id == id) w.invites

  unfoldable pub find_by_token : String → World → Option Invite
  find_by_token token w = env.invites.find (λ i. i.token == token) w.invites

  pub find_active_pending_by_email : String → World → Option Invite
  find_active_pending_by_email email w =
      newest (env.invites.find_many (λ i. is_value i.email email && is_pending w.now i) w.invites)

  -- A write of the rows that a filter accepts.
  abbrev write : (Invite → Bool) → (Invite → Invite) → World → World
  write filter f w = record w { invites = env.invites.update filter f w.invites }

  -- `this.db.invite.update({ where: { id }, data })`
  update_by_id : String → (Invite → Invite) → M Invite
  update_by_id id f w = elim (find_by_id id w) [
    | none ↦ threw (map_prisma_error p2025) w
    | some i ↦ returned (f i) (write (λ i. i.id == id) f w)
  ]

  -- The name that `service: { select: { name: true } }` joins.
  service_name : ℕ → World → String
  service_name service_id w = elim (Services.find_by_id env service_id w) [
    | none ↦ ""
    | some service ↦ service.name
  ]

  new_accounts : String → ℕ → List CreateInviteAccount → World → List InviteAccount
  unfolding service_name
  new_accounts invite_id count [] w = []
  new_accounts invite_id count (a ∷ accounts) w =
      record {
        id = env.uuid count;
        invite_id = invite_id;
        service_id = a.service_id;
        service_name = service_name a.service_id w;
        username = a.username;
        email = a.email;
        account_id = a.account_id;
      }
      ∷ new_accounts invite_id (count + 1) accounts w

  pub new_row : CreateInvite → List CreateInviteAccount → World → Invite
  unfolding new_accounts
  new_row request accounts w = record {
    id = env.uuid w.created;
    token = request.token;
    email = request.email;
    is_admin = request.is_admin;
    expires_at = request.expires_at;
    created_at = w.now;
    used_at = none;
    revoked_at = none;
    revoked_reason = none;
    failed_attempts = 0;
    created_by_user_id = some request.created_by_user_id;
    used_by_user_id = none;
    revoked_by_user_id = none;
    accounts = new_accounts (env.uuid w.created) (w.created + 1) accounts w;
  }

  unfoldable pub create : CreateInvite → List CreateInviteAccount → M Invite
  unfolding new_row
  create request accounts w =
      if is_some (find_by_token request.token w)
      then threw (map_prisma_error p2002) w
      else returned (new_row request accounts w) (record w {
        invites = env.invites.insert (new_row request accounts w) w.invites;
        created = w.created + 1 + length accounts;
      })

  pub update : String → UpdateInvite → M (Option Invite)
  unfolding update_by_id
  update id request w = elim (update_by_id id (updated request) w) [
    | returned i w' ↦ returned (some i) w'
    | threw e w' ↦ threw e w'
  ]

  pub delete : String → M (Unit {0})
  delete id w = elim (find_by_id id w) [
    | none ↦ threw (map_prisma_error p2025) w
    | some i ↦ returned tt (record w { invites = env.invites.remove (λ i. i.id == id) w.invites })
  ]

  -- `updateMany` over the pending row of this id, then a read: null if no row was pending. A user has
  -- used one invite at most (`@@unique([usedByUserId])`).
  unfoldable pub claim : String → String → M (Option Invite)
  claim id used_by_user_id w =
      elim (env.invites.find (λ i. i.id == id && is_pending w.now i) w.invites) [
        | none ↦ returned none w
        | some i ↦
            let w' =
              write (λ i. i.id == id && is_pending w.now i)
                (λ i. record i { used_by_user_id = some used_by_user_id; used_at = some w.now })
                w in
            if is_some
              (env.invites.find (λ i. is_value i.used_by_user_id used_by_user_id) w.invites)
            then threw (map_prisma_error p2002) w
            else returned (find_by_id id w') w'
      ]

  pub increment_failed_attempts : String → M ℕ
  unfolding update_by_id
  increment_failed_attempts id w =
      elim (update_by_id id (λ i. record i { failed_attempts = i.failed_attempts + 1 }) w) [
        | returned i w' ↦ returned i.failed_attempts w'
        | threw e w' ↦ threw e w'
      ]

  pub revoke : String → InviteRevokedReason → Option String → M (Option Invite)
  unfolding update_by_id
  revoke id reason revoked_by_user_id w =
      elim (update_by_id id
        (λ i. record i {
          revoked_at = some w.now;
          revoked_reason = some reason;
          revoked_by_user_id = revoked_by_user_id;
        })
        w) [ returned i w' ↦ returned (some i) w' | threw e w' ↦ threw e w' ]
