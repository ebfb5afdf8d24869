-- ===== src/Cascade/Created.antt =====
-- What `onReferencedServiceCreated` leaves alone.
use home_gate.Cascade.{is_unexpired, mirror, mirror_sources, on_referenced_service_created}
use home_gate.Environment.{Environment}
use home_gate.Effects.{Outcome, final, returned, threw}
use home_gate.Model.{is_active, Service, Subscription, World}
use home_gate.Common.{
  ℕ, String, ◌≡◌, refl, inl, inr, true, ◌&&◌, List, [], ◌∷◌, ◌++◌, arith, ◌==◌, if◌then◌else◌,
  Bool-cases, Option-cases, any, nat_eq, string_eq,
}
use home_gate.Repositories.Subscriptions

-- Only the subscriptions have changed.
abbrev pub OnlySubscriptions : World → World → Type 0
OnlySubscriptions w w' = w' ≡ record w { subscriptions = w'.subscriptions; created = w'.created }

module _ (env : Environment) where
  pub mirror-OnlySubscriptions :
      (source : Subscription) (service_id : ℕ) (w : World)
      → OnlySubscriptions w (final (mirror env source service_id w))
  unfolding mirror Subscriptions.update Subscriptions.create
  mirror-OnlySubscriptions source service_id w = ground arith

  mirror_sources-OnlySubscriptions :
      (service_id : ℕ) (impacted : List String) (sources : List Subscription) (w : World)
      → OnlySubscriptions w (final (mirror_sources env service_id impacted sources w))
  unfolding mirror_sources
  mirror_sources-OnlySubscriptions service_id impacted [] w = refl
  mirror_sources-OnlySubscriptions service_id impacted (s ∷ sources) w =
      elim (Bool-cases (is_unexpired w.now s.expires_at)) [
        | inl e ↦
            go (mirror env s service_id w) refl e
              (λ l. mirror_sources-OnlySubscriptions service_id l sources)
        | inr e ↦ ground (arith, mirror_sources-OnlySubscriptions service_id impacted sources w)
      ]
    where
      go :
          (o : Outcome (Unit {0}))
          → mirror env s service_id w ≡ o
          → is_unexpired w.now s.expires_at ≡ true
          → ((l : List String) (v : World)
              → OnlySubscriptions v (final (mirror_sources env service_id l sources v)))
          → OnlySubscriptions w (final (mirror_sources env service_id impacted (s ∷ sources) w))
      go (threw x v) p e k = ground (arith, mirror-OnlySubscriptions s service_id w)
      go (returned a v) p e k =
          let users =
            if any (λ u. u == s.user_id) impacted then impacted else impacted ++ s.user_id ∷ [] in
          ground (arith, mirror-OnlySubscriptions s service_id w, k users v)

  pub on_referenced_service_created-OnlySubscriptions :
      (service : Service) (w : World)
      → OnlySubscriptions w (final (on_referenced_service_created env service w))
  unfolding on_referenced_service_created
  on_referenced_service_created-OnlySubscriptions service w =
      elim (Option-cases service.account_source_service_id) [
        | inl e ↦ ground arith
        | inr (source, e) ↦ ground (
          arith,
          mirror_sources-OnlySubscriptions service.id []
              (Subscriptions.find_many env (λ s. s.service_id == source && is_active s.status) w) w,
        )
      ]
