-- ===== src/Cascade/Mirrored.antt =====
-- What activating a source leaves for the services that take their accounts from it.
use home_gate.Repositories.Subscriptions.{is_key, updated, new_row, after_create, after_update}
use home_gate.Repositories.Subscriptions.Laws.{
  find-after_update, find-after_update_self, update_found, find-after_create,
  find-after_create_self, create_new,
}
use home_gate.Cascade.{created_from, refreshed, mirror, on_activated}
use home_gate.Environment.{Environment}
use home_gate.Model.{SubscriptionStatus, is_referenced, Service, Subscription, World}
use home_gate.Effects.{M, pure, for_each, for_each_returned, returned}
use home_gate.Common.{
  ℕ, ◌≡◌, refl, ◌∙◌, inl, inr, true, none, some, List, [], ◌∷◌, arith, if◌then◌else◌, Bool-cases,
  Option-cases, All,
}
use home_gate.Repositories.Services
use home_gate.Repositories.Subscriptions

-- The subscription has what its active source has, and no failure or cancellation is noted.
pub record Mirrors (source s : Subscription) : Type 0 where
  pub status : s.status ≡ SubscriptionStatus.active
  pub expiry : s.expires_at ≡ source.expires_at
  pub renewal : s.auto_renew ≡ source.auto_renew
  pub origin : s.derived_from_subscription_id ≡ some source.id
  pub no_cancellation : s.cancelled_at ≡ none
  pub no_error : s.last_error ≡ none
  pub no_failure : s.failed_at ≡ none

module _ (env : Environment) (source : Subscription) where
  -- The user of the source has a subscription to the service that mirrors the source.
  abbrev pub IsMirrored : World → ℕ → Type 0
  IsMirrored w service_id =
      (s : Subscription) × (Subscriptions.find env source.user_id service_id w ≡ some s)
      × Mirrors source s

  abbrev Mirroring : ℕ → World → World → Type 0
  Mirroring service_id w v =
      IsMirrored v service_id × ((id : ℕ) → IsMirrored w id → IsMirrored v id)

  -- A round writes one row, and leaves what the rounds before have written.
  mirror_returned :
      (service_id : ℕ) (w : World)
      → (v : World) × (mirror env source service_id w ≡ returned tt v) × Mirroring service_id w v
  unfolding mirror
  mirror_returned service_id w =
      elim (Option-cases (Subscriptions.find env source.user_id service_id w)) [
        | inl free ↦
            let request = created_from source service_id w.now in
            (
              after_create env request w,
              ground (arith, create_new env source.user_id service_id w request refl refl free),
              (
                (
                  new_row (env.uuid w.created) w.now request,
                  find-after_create_self env source.user_id service_id w request refl refl free,
                  ground arith,
                ),
                λ id (s, h, m). (s, find-after_create env source.user_id id w request s h, m),
              ),
            )
        | inr (existing, found) ↦
            let request = refreshed source service_id in
            (
              after_update env request w,
              ground (
                arith,
                update_found env source.user_id service_id w request existing refl refl found,
              ),
              (
                (
                  updated w.now request existing,
                  find-after_update_self env source.user_id service_id w request existing refl refl
                      found,
                  ground arith,
                ),
                λ id (s, h, m). (
                  if is_key source.user_id service_id s then updated w.now request s else s,
                  ground (arith, find-after_update env source.user_id id w request, h),
                  ground (arith, m),
                ),
              ),
            )
      ]

  abbrev round : Service → M (Unit {0})
  round service =
      if is_referenced service.account_type then mirror env source service.id else pure tt

  abbrev pub Rounds : List Service → World → Type 0
  Rounds services v =
      All
        (λ (service : Service). is_referenced service.account_type ≡ true → IsMirrored v service.id)
        services

  round_returned :
      (service : Service) (w : World)
      → (v : World) × (round service w ≡ returned tt v)
        × (is_referenced service.account_type ≡ true → IsMirrored v service.id)
        × ((id : ℕ) → IsMirrored w id → IsMirrored v id)
  round_returned service w = elim (Bool-cases (is_referenced service.account_type)) [
    | inl e ↦ let (v, f, (m, k)) = mirror_returned service.id w in (v, rw e f, λ _. m, k)
    | inr e ↦ (w, rw e refl, λ f. absurd (ground arith), λ id m. m)
  ]

  each_returned :
      (services : List Service) (w : World)
      → (v : World) × (for_each round services w ≡ returned tt v)
        × Rounds services v
        × ((id : ℕ) → IsMirrored w id → IsMirrored v id)
  unfolding for_each
  each_returned [] w = (w, refl, tt, λ id m. m)
  each_returned (service ∷ services) w =
      let (v, e, m, k) = round_returned service w in
      let (u, f, ms, l) = each_returned services v in
      (
        u,
        for_each_returned round service services w v tt e ∙ f,
        (λ g. l service.id (m g), ms),
        λ id n. l id (k id n),
      )

  -- Activating a source returns, and every enabled REFERENCED service that takes its accounts from
  -- the source's service then has a stored subscription of the same user that mirrors the source: it
  -- is active, with the expiry and the renewal of the source, derived from it, and without a noted
  -- failure or cancellation, whether it was there before or not.
  pub on_activated-IsMirrored :
      (w : World)
      → (v : World) × (on_activated env source w ≡ returned tt v)
        × Rounds (Services.find_enabled_by_source env source.service_id w) v
  unfolding on_activated
  on_activated-IsMirrored w =
      let (v, e, m, k) =
        each_returned (Services.find_enabled_by_source env source.service_id w) w in
      (v, e, m)
