-- ===== src/Repositories/Invites/Claim.antt =====
-- An invite is claimed by one user at most.
use home_gate.Repositories.Invites.{is_pending, find_by_id, claim}
use home_gate.Environment.{Environment}
use home_gate.Database.Keys.{find_unique}
use home_gate.Effects.{returned}
use home_gate.Model.{Invite, World}
use home_gate.Common.{
  ℕ, ◌≤◌, String, ◌≡◌, refl, inl, inr, Bool, true, false, ◌&&◌, none, some, arith, ◌==◌,
  Option-cases, is_value, length, nat_eq, string_eq,
}

abbrev pub claimed : String → ℕ → Invite → Invite
claimed user_id now i = record i { used_by_user_id = some user_id; used_at = some now }

module _ (env : Environment) (id : String) (w : World) where
  abbrev has_id : Invite → Bool
  has_id i = i.id == id

  -- No two invites have this id (`@id`).
  abbrev pub IsUniqueId : Type 0
  IsUniqueId = length (env.invites.find_many has_id w.invites) ≤ 1

  abbrev has_pending_id : Invite → Bool
  has_pending_id i = i.id == id && is_pending w.now i

  abbrev pub after : String → World
  after user_id = record w {
    invites = env.invites.update has_pending_id (claimed user_id w.now) w.invites;
  }

  -- What `claim` has found and written, where it returns an invite.
  claimed_row :
      (user_id : String) (i : Invite) (w' : World)
      → claim env id user_id w ≡ returned (some i) w'
      → IsUniqueId
      → (before : Invite) × (find_by_id env id w ≡ some before)
        × (is_pending w.now before ≡ true)
        × (w' ≡ after user_id)
        × (find_by_id env id w' ≡ some i)
        × (find_by_id env id (after user_id) ≡ some (claimed user_id w.now before))
  unfolding claim find_by_id
  claimed_row user_id i w' e unique =
      elim (Option-cases (env.invites.find has_pending_id w.invites)) [
        | inl f ↦ absurd (ground arith)
        | inr (before, f) ↦
            let found =
              find_unique env.invites has_id (λ i. is_pending w.now i) w.invites before unique f in
            let sound = env.invites.find-sound has_pending_id w.invites before f in
            let written =
              env.invites.find-update has_id has_pending_id (claimed user_id w.now) w.invites
                (λ r. refl) in
            (
              before,
              found,
              ground (arith, sound),
              ground arith,
              ground arith,
              ground (arith, sound, found, written),
            )
      ]

  -- Where no two invites have the id, a claim that returns an invite has found it stored and
  -- pending, and has stored it as used by the user at this time.
  pub claim_pending :
      (user_id : String) (i : Invite) (w' : World)
      → IsUniqueId
      → claim env id user_id w ≡ returned (some i) w'
      → (before : Invite) × (find_by_id env id w ≡ some before)
        × (is_pending w.now before ≡ true)
        × (i ≡ claimed user_id w.now before)
        × (find_by_id env id w' ≡ some i)
  claim_pending user_id i w' unique e =
      let (before, found, unclaimed, same, read, written) = claimed_row user_id i w' e unique in
      (before, found, unclaimed, ground arith, read)

  -- Where no two invites have the id, once a claim has returned the invite, every further claim of
  -- it finds nothing and changes nothing.
  pub claim-claim :
      (first_user second_user : String) (i : Invite) (w' : World)
      → IsUniqueId
      → claim env id first_user w ≡ returned (some i) w'
      → claim env id second_user w' ≡ returned none w'
  unfolding claim find_by_id
  claim-claim first_user second_user i w' unique e =
      let (before, found, unclaimed, same, read, written) = claimed_row first_user i w' e unique in
      elim (Option-cases (env.invites.find has_pending_id w'.invites)) [
        | inl f ↦ ground arith
        | inr (k, f) ↦
            let kept =
              env.invites.count-update has_id has_pending_id (claimed first_user w.now) w.invites
                (λ r. refl) in
            let again =
              find_unique env.invites has_id (λ i. is_pending w.now i) w'.invites k (ground arith)
                f in
            absurd (ground (arith, again, env.invites.find-sound has_pending_id w'.invites k f))
      ]

  -- A stored, pending invite is claimed for a user who has used none.
  pub claim_open :
      (user_id : String) (i : Invite)
      → find_by_id env id w ≡ some i
      → is_pending w.now i ≡ true
      → env.invites.find (λ i. is_value i.used_by_user_id user_id) w.invites ≡ none
      → (claim env id user_id w ≡ returned (some (claimed user_id w.now i)) (after user_id))
        × (find_by_id env id (after user_id) ≡ some (claimed user_id w.now i))
  unfolding claim find_by_id
  claim_open user_id i e p f =
      let sound = env.invites.find-sound has_id w.invites i e in
      let written =
        env.invites.find-update has_id has_pending_id (claimed user_id w.now) w.invites
          (λ r. refl) in
      let pending_too = env.invites.find-refine has_id (λ i. is_pending w.now i) w.invites i e p in
      (ground (arith, sound), ground (arith, sound))

  -- Of an invite that is not pending, nothing is claimed.
  pub claim_closed :
      (user_id : String) (i : Invite)
      → IsUniqueId
      → find_by_id env id w ≡ some i
      → is_pending w.now i ≡ false
      → claim env id user_id w ≡ returned none w
  unfolding claim find_by_id
  claim_closed user_id i unique e p =
      elim (Option-cases (env.invites.find has_pending_id w.invites)) [
        | inl f ↦ ground arith
        | inr (k, f) ↦ absurd (
            ground (
              arith,
              find_unique env.invites has_id (λ i. is_pending w.now i) w.invites k unique f,
              env.invites.find-sound has_pending_id w.invites k f,
            ))
      ]
