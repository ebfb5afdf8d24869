-- ===== src/SubscriptionLifecycle/Syncing/Guards.antt =====
-- Which accounts of a vendor the sweep deletes, and when it deletes none.
use home_gate.SubscriptionLifecycle.Syncing.{
  LinkedAccount, linked, local_of, reconcile, sync_external_to_local,
}
use home_gate.Effects.{Outcome, for_each, final, returned, threw}
use home_gate.Environment.{Integration, Environment, ask, OnlyCalls}
use home_gate.Common.{
  ℕ, ◌+◌, String, ◌≡◌, refl, ◌⊎◌, inl, inr, Bool, true, false, not, ◌&&◌, ◌||◌, List, [], ◌∷◌,
  arith, ltb, ◌==◌, if◌then◌else◌, Bool-cases, Option-cases, is_some, is_value, length, keep, All,
  nat_eq, string_eq,
}
use home_gate.Model.{ApplicationUser, Call, World, delete_user}

-- The calls that delete an account of this vendor.
abbrev pub deletes : Call → Bool
deletes (delete_user provider filter) = true
deletes _ = false

-- The calls that delete the account with this id.
abbrev pub deletes_id : String → Call → Bool
deletes_id x (delete_user provider filter) = is_value filter.user_service_account_id x
deletes_id x _ = false

module _ (env : Environment) (provider : Integration) (accounts : List LinkedAccount) where
  -- One round of the sweep changes no row. It deletes the account of the vendor exactly if no local
  -- record has its id and it is not an administrator's.
  pub reconcile-deletes :
      (u : ApplicationUser) (w : World)
      → OnlyCalls w (final (reconcile env provider accounts u w))
        × ((length (keep deletes (final (reconcile env provider accounts u w)).calls)
            ≡ length (keep deletes w.calls)
              + (if not (is_some (local_of u.id accounts)) && not u.is_admin then 1 else 0)))
  unfolding reconcile ask
  reconcile-deletes u w = elim (Option-cases (local_of u.id accounts)) [
    | inl e ↦ (ground arith, ground arith)
    | inr (a, e) ↦ (ground arith, ground arith)
  ]

  -- Without a single linked local record, the sweep calls nobody and changes nothing, however many
  -- accounts the vendor lists.
  pub sync_external_to_local_refused :
      (users : List ApplicationUser) (w : World)
      → linked accounts ≡ []
      → sync_external_to_local env provider users accounts w ≡ returned tt w
  unfolding sync_external_to_local for_each
  sync_external_to_local_refused [] w e = ground arith
  sync_external_to_local_refused (u ∷ users) w e = ground arith

  -- The user at the vendor has another id, is an administrator, or has a linked local record.
  abbrev pub IsSpared : String → ApplicationUser → Type 0
  IsSpared x u = ((u.id == x) ≡ false) ⊎ ((u.is_admin || is_some (local_of u.id accounts)) ≡ true)

  abbrev deleted_times : String → World → ℕ
  deleted_times x w = length (keep (deletes_id x) w.calls)

  reconcile-spares :
      (x : String) (u : ApplicationUser) (w : World)
      → IsSpared x u
      → deleted_times x (final (reconcile env provider accounts u w)) ≡ deleted_times x w
  unfolding reconcile ask
  reconcile-spares x u w h = elim (Option-cases (local_of u.id accounts)) [
    | inl e ↦ ground arith
    | inr (a, e) ↦ ground arith
  ]

  sweep :
      (x : String) (users : List ApplicationUser) (w : World)
      → All (IsSpared x) users
      → deleted_times x (final (for_each (reconcile env provider accounts) users w))
        ≡ deleted_times x w
  unfolding for_each
  sweep x [] w h = refl
  sweep x (u ∷ users) w (h, k) =
      go (reconcile env provider accounts u w) refl (λ v. sweep x users v k)
    where
      go :
          (o : Outcome (Unit {0}))
          → reconcile env provider accounts u w ≡ o
          → ((v : World)
              → deleted_times x (final (for_each (reconcile env provider accounts) users v))
                ≡ deleted_times x v)
          → deleted_times x (final (for_each (reconcile env provider accounts) (u ∷ users) w))
            ≡ deleted_times x w
      go (returned r v) e rest = ground (arith, rest v, reconcile-spares x u w h)
      go (threw r v) e rest = ground (arith, reconcile-spares x u w h)

  -- A sweep over all users of a vendor makes no call that deletes an account of an id, where each
  -- listed user of this id is an administrator or has a linked local record, however the sweep
  -- ends.
  pub sync_external_to_local-spares :
      (x : String) (users : List ApplicationUser) (w : World)
      → All (IsSpared x) users
      → length
          (keep (deletes_id x) (final (sync_external_to_local env provider users accounts w)).calls)
        ≡ length (keep (deletes_id x) w.calls)
  unfolding sync_external_to_local
  sync_external_to_local-spares x users w h =
      elim (Bool-cases (length (linked accounts) == 0 && ltb 0 (length users))) [
        | inl e ↦ rw e refl
        | inr e ↦ rw e (sweep x users w h)
      ]
