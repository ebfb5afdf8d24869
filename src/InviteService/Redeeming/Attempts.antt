-- ===== src/InviteService/Redeeming/Attempts.antt =====
-- Which invites `validateToken` accepts, and the attempts that it counts.
use home_gate.InviteService.Redeeming.{is_mismatch, reject_mismatch, validate_token}
use home_gate.Repositories.Invites.Laws.{increment_found, revoke_found}
use home_gate.Environment.{Environment}
use home_gate.Effects.{final, succeeds, returned}
use home_gate.Model.{auto_failed_attempts, Invite, World}
use home_gate.Common.{
  ℕ, ◌+◌, ◌≤◌, String, ◌≡◌, ◌↔◌, inl, inr, true, false, Option, none, some, arith, leb,
  if◌then◌else◌, Option-cases,
}
use home_gate.Repositories.Invites

-- The invite may be redeemed with this address.
pub record Redeemable (email : Option String) (now : ℕ) (i : Invite) : Type 0 where
  pub unrevoked : i.revoked_at ≡ none
  pub unused : i.used_at ≡ none
  pub unexpired : now ≤ i.expires_at
  pub own_address : is_mismatch email i.email ≡ false

module _ (env : Environment) (raw_token : String) (email : Option String) (w : World) where
  abbrev stored : Option Invite
  stored = Invites.find_by_token env (env.hash_sha256 raw_token) w

  reject_mismatch_throws : (i : Invite) → succeeds (reject_mismatch env i w) ≡ false
  unfolding reject_mismatch
  reject_mismatch_throws i = ground arith

  accepted_only :
      (i j : Invite)
      → stored ≡ some j
      → validate_token env raw_token email w ≡ returned i w
      → (stored ≡ some i) × Redeemable email w.now i
  unfolding validate_token reject_mismatch
  accepted_only i j f e = (
    ground (arith, reject_mismatch_throws j),
    record {
      unrevoked = ground (arith, reject_mismatch_throws j);
      unused = ground (arith, reject_mismatch_throws j);
      unexpired = ground (arith, reject_mismatch_throws j);
      own_address = ground (arith, reject_mismatch_throws j);
    },
  )

  -- A check that accepts writes nothing.
  pub validate_token_same :
      (i : Invite) (v : World) → validate_token env raw_token email w ≡ returned i v → v ≡ w
  unfolding validate_token
  validate_token_same i v e = elim (Option-cases stored) [
    | inl f ↦ absurd (ground arith)
    | inr (j, f) ↦ ground (arith, reject_mismatch_throws j)
  ]

  pub validate_token_iff :
      (i : Invite)
      → (validate_token env raw_token email w ≡ returned i w)
        ↔ ((stored ≡ some i) × Redeemable email w.now i)
  unfolding validate_token reject_mismatch
  validate_token_iff i = (
    λ e. elim (Option-cases stored) [
      | inl f ↦ absurd (ground arith)
      | inr (j, f) ↦ accepted_only i j f e
    ],
    λ h. ground arith,
  )

  -- Where the token's hash and the id lead to the same stored invite, which is neither revoked,
  -- used nor expired and is bound to another address than the given one, the attempt is refused
  -- and counted, and the third attempt or a later one revokes the invite.
  pub validate_token_mismatch :
      (i : Invite)
      → stored ≡ some i
      → i.revoked_at ≡ none
      → i.used_at ≡ none
      → w.now ≤ i.expires_at
      → is_mismatch email i.email ≡ true
      → Invites.find_by_id env i.id w ≡ some i
      → (succeeds (validate_token env raw_token email w) ≡ false)
        × ((j : Invite) × (Invites.find_by_id env i.id
                (final (validate_token env raw_token email w))
              ≡ some j)
            × (j.failed_attempts ≡ i.failed_attempts + 1)
            × (j.revoked_at ≡ (if leb 3 (i.failed_attempts + 1) then some w.now else none)))
  unfolding validate_token reject_mismatch
  validate_token_mismatch i e f g h k l =
      let (w', counted, same, read) = increment_found env i.id w i l in
      let (w'', j, revoked, read_again, row) =
        revoke_found env i.id w' (record i { failed_attempts = i.failed_attempts + 1 })
          auto_failed_attempts none read in
      (
        ground (arith, reject_mismatch_throws i),
        (
          if leb 3 (i.failed_attempts + 1)
              then j
              else record i { failed_attempts = i.failed_attempts + 1 },
          ground arith,
          ground arith,
          ground arith,
        ),
      )
