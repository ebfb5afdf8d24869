-- ===== src/Cascade/Clamp.antt =====
-- A derived subscription never outlives its source.
use home_gate.Common.{
  ℕ, ◌≤◌, String, ◌≡◌, refl, ◌↔◌, inl, inr, true, false, Option, none, some, arith, Bool-cases,
  Option-cases,
}
use home_gate.Model.{SubscriptionStatus, Subscription, of_subscription, World}
use home_gate.Effects.{final}
use home_gate.Environment.{Environment}
use home_gate.Repositories.Subscriptions
use home_gate.Repositories.Subscriptions.Laws.{find-after_update_self, update_found}
use home_gate.Repositories.Subscriptions.{updated}
use home_gate.Cascade.{earliest, is_unexpired, same_time, resolve_effective_entitlement, clamp}

-- A subscription is active and unexpired.
abbrev pub Stands : ℕ → Subscription → Type 0
Stands now s = (s.status ≡ SubscriptionStatus.active) × (is_unexpired now s.expires_at ≡ true)

-- The first time is not after the second; no time at all is after every time.
abbrev pub NotAfter : Option ℕ → Option ℕ → Type 0
NotAfter a none = Unit
NotAfter none (some t) = ⊥
NotAfter (some a) (some t) = a ≤ t

earliest-NotAfter : (a b : Option ℕ) → NotAfter (earliest a b) a × NotAfter (earliest a b) b
earliest-NotAfter none none = (tt, tt)
earliest-NotAfter none (some b) = ground arith
earliest-NotAfter (some a) none = ground arith
earliest-NotAfter (some a) (some b) = ground arith

earliest_kept : (a b : Option ℕ) → same_time (earliest a b) a ≡ true → a ≡ earliest a b
earliest_kept none none e = refl
earliest_kept none (some b) e = cc
earliest_kept (some a) none e = refl
earliest_kept (some a) (some b) e = ground arith

earliest_changed : (a b : Option ℕ) → same_time (earliest a b) a ≡ false → b ≡ earliest a b
earliest_changed none none e = refl
earliest_changed none (some b) e = refl
earliest_changed (some a) none e = ground arith
earliest_changed (some a) (some b) e = ground arith

module _ (env : Environment) (w : World) where
  -- What a derived subscription rests on besides itself.
  abbrev pub SourceStands : Option String → Type 0
  SourceStands none = Unit
  SourceStands (some id) =
      (source : Subscription) × (Subscriptions.find_by_id env id w ≡ some source)
      × Stands w.now source

  module _ (s : Subscription) where
    entitlement_sound :
        (from : Option String)
        → s.derived_from_subscription_id ≡ from
        → (resolve_effective_entitlement env s w).active ≡ true
        → Stands w.now s × SourceStands from
    unfolding resolve_effective_entitlement
    entitlement_sound none e h = ground arith
    entitlement_sound (some id) e h = elim (Option-cases (Subscriptions.find_by_id env id w)) [
      | inl f ↦ ground arith
      | inr (source, f) ↦ (ground arith, (source, f, ground arith))
    ]

    entitlement_complete :
        (from : Option String)
        → s.derived_from_subscription_id ≡ from
        → Stands w.now s
        → SourceStands from
        → (resolve_effective_entitlement env s w).active ≡ true
    unfolding resolve_effective_entitlement
    entitlement_complete none e h k = ground arith
    entitlement_complete (some id) e h (source, f, k) = ground arith

    -- The effective entitlement of a subscription is active exactly when the subscription is active
    -- and unexpired and, if it is derived, its source exists and is active and unexpired too.
    pub entitlement_iff :
        ((resolve_effective_entitlement env s w).active ≡ true)
        ↔ (Stands w.now s × SourceStands s.derived_from_subscription_id)
    entitlement_iff = (
      entitlement_sound s.derived_from_subscription_id refl,
      λ (h, k). entitlement_complete s.derived_from_subscription_id refl h k,
    )

    -- The effective expiry of a derived subscription whose source exists is neither after its own
    -- expiry nor after the expiry of the source.
    pub entitlement-NotAfter :
        (id : String) (source : Subscription)
        → s.derived_from_subscription_id ≡ some id
        → Subscriptions.find_by_id env id w ≡ some source
        → NotAfter (resolve_effective_entitlement env s w).expires_at s.expires_at
          × NotAfter (resolve_effective_entitlement env s w).expires_at source.expires_at
    unfolding resolve_effective_entitlement
    entitlement-NotAfter id source e f =
        let clamped : (resolve_effective_entitlement env s w).expires_at
            ≡ earliest s.expires_at source.expires_at =
          ground arith in
        rw clamped (earliest-NotAfter s.expires_at source.expires_at)

  -- After a round of `onExpiryChanged` over a stored derived subscription, its row expires at the
  -- earlier of its own expiry and its source's, and no other field of it but the time of the
  -- update is changed.
  pub find-clamp :
      (source s : Subscription)
      → Subscriptions.find env s.user_id s.service_id w ≡ some s
      → (r : Subscription) × (Subscriptions.find env s.user_id s.service_id
            (final (clamp env source s w))
          ≡ some r)
        × (r.expires_at ≡ earliest s.expires_at source.expires_at)
        × (record r { expires_at = s.expires_at; updated_at = s.updated_at } ≡ s)
  unfolding clamp
  find-clamp source s h =
      elim (Bool-cases (same_time (earliest s.expires_at source.expires_at) s.expires_at)) [
        | inl same ↦ (s, rw same h, earliest_kept _ _ same, refl)
        | inr changed ↦
            let request = record (of_subscription s.user_id s.service_id) {
              expires_at = some source.expires_at;
            } in
            (
              updated w.now request s,
              ground (
                arith,
                update_found env s.user_id s.service_id w request s refl refl h,
                find-after_update_self env s.user_id s.service_id w request s refl refl h,
              ),
              earliest_changed _ _ changed,
              refl,
            )
      ]
