-- ===== src/IntegrationRegistry/Registration.antt =====
-- What a registration adds.
use home_gate.IntegrationRegistry.{get, has, register}
use home_gate.Environment.{Integration, Environment}
use home_gate.Effects.{succeeds, returned}
use home_gate.Model.{IntegrationProvider, provider_eq, Service, World}
use home_gate.Common.{
  ◌≡◌, refl, ap, inl, inr, Bool, true, false, ◌&&◌, none, some, List, [], ◌∷◌, ◌++◌, arith, ◌==◌,
  if◌then◌else◌, Bool-cases, Option-cases, is_some, nat_eq, string_eq,
}
use home_gate.Repositories.Services

get-append :
    (registry : List Integration) (p : Integration) (n : IntegrationProvider)
    → get (registry ++ p ∷ []) n
      ≡ (if has registry n then get registry n else if p.name == n then some p else none)
get-append [] p n = ground arith
get-append (q ∷ registry) p n = ground (arith, get-append registry p n)

module _ (env : Environment) where
  module _ (p : Integration) (registry : List Integration) (w : World) where
    abbrev is_stored : IntegrationProvider → Bool
    is_stored n = is_some (Services.find_by_integration_provider env n w)

    absent :
        (n : IntegrationProvider)
        → Services.find_by_integration_provider env p.name w ≡ none
        → get registry n ≡ (if p.name == n && is_stored n then some p else get registry n)
    absent n e = elim (Bool-cases (p.name == n)) [
      | inr f ↦ rw f refl
      | inl f ↦
          let same = provider_eq.beq_iff p.name n in
          ground (arith, ap (λ m. Services.find_by_integration_provider env m w) (same.0 f))
    ]

    present :
        (n : IntegrationProvider) (s : Service)
        → Services.find_by_integration_provider env p.name w ≡ some s
        → has registry p.name ≡ false
        → get (registry ++ p ∷ []) n
          ≡ (if p.name == n && is_stored n then some p else get registry n)
    present n s e h = elim (Bool-cases (p.name == n)) [
      | inr f ↦ ground (arith, get-append registry p n)
      | inl f ↦
          let same = (provider_eq.beq_iff p.name n).0 f in
          ground (
            arith,
            get-append registry p n,
            ap (λ m. Services.find_by_integration_provider env m w) same,
            ap (λ m. get registry m) same,
          )
    ]

  -- A registration that returns adds the integration under its own name, where a service is stored
  -- for it, and changes what no other name leads to; the rows stay as they are. It throws exactly
  -- if the name is taken.
  pub get-register :
      (p : Integration) (registry : List Integration) (w : World)
      → (has registry p.name ≡ true → succeeds (register env p registry w) ≡ false)
        × (has registry p.name ≡ false
            → (registry' : List Integration) × (register env p registry w ≡ returned registry' w)
              × ((n : IntegrationProvider)
                  → get registry' n ≡ (
                      if p.name == n && is_some (Services.find_by_integration_provider env n w)
                      then some p
                      else get registry n)))
  unfolding register
  get-register p registry w = (
    λ h. ground arith,
    λ h. elim (Option-cases (Services.find_by_integration_provider env p.name w)) [
      | inl e ↦ (registry, ground arith, λ n. absent p registry w n e)
      | inr (s, e) ↦ (registry ++ p ∷ [], ground arith, λ n. present p registry w n s e h)
    ],
  )
