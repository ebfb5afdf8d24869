-- ===== src/ServiceManagement/Sources.antt =====
-- Every REFERENCED service names a MANAGED one: what each write of a service does to that.

use home_gate.Database.Keys.{find-remove_apart, find-is_some}
use home_gate.Environment.{Environment}
use home_gate.Effects.{final, Keeps}
use home_gate.Model.{is_managed, is_referenced, Service, World}
use home_gate.Common.{
  ℕ, String, ◌≡◌, refl, sym, ap, ◌∙◌, inl, inr, true, false, not, ◌&&◌, Option, none, some, List,
  arith, ◌==◌, if◌then◌else◌, Bool-cases, Option-cases, is_some, is_value, nat_eq, string_eq,
}
use mathlib.Core.Path.{subst}
use mathlib.Core.Option
use home_gate.Repositories.Services

-- The service is there, and MANAGED.
abbrev pub HasSource : Environment → List Service → Option ℕ → Type 0
HasSource env rows none = ⊥
HasSource env rows (some k) =
    (source : Service) × (env.services.find (λ s. s.id == k) rows ≡ some source)
    × (is_managed source.account_type ≡ true)

-- Of each REFERENCED service the source is a MANAGED one, so that no two references form a chain.
abbrev pub AreSourced : Environment → List Service → Type 0
AreSourced env rows =
    (id : ℕ) (s : Service)
    → env.services.find (λ r. r.id == id) rows ≡ some s
    → is_referenced s.account_type ≡ true
    → HasSource env rows s.account_source_service_id

abbrev pub IsSourced : Environment → World → Type 0
IsSourced env w = AreSourced env w.services

-- The fields that an update by slug leaves alone.
pub record IsSpared (f : Service → Service) : Type 0 where
  pub id : (s : Service) → (f s).id ≡ s.id
  pub account_type : (s : Service) → (f s).account_type ≡ s.account_type
  pub source : (s : Service) → (f s).account_source_service_id ≡ s.account_source_service_id

module _ (env : Environment) where
  pub IsSourced-same :
      (w w' : World) → w'.services ≡ w.services → IsSourced env w → IsSourced env w'
  IsSourced-same w w' e h = subst (λ rows. AreSourced env rows) (sym e) h

  module _ (slug : String) (f : Service → Service) (spared : IsSpared f) (rows : List Service) where
    abbrev after : List Service
    after = env.services.update (λ s. s.slug == slug) f rows

    abbrev changed : Service → Service
    changed s = if s.slug == slug then f s else s

    found_after :
        (id : ℕ)
        → env.services.find (λ s. s.id == id) after
          ≡ Option.map changed (env.services.find (λ s. s.id == id) rows)
    found_after id =
        env.services.find-update (λ s. s.id == id) (λ s. s.slug == slug) f rows
          (λ r. ap (λ x. x == id) (spared.id r))

    changed-account_type : (s : Service) → (changed s).account_type ≡ s.account_type
    changed-account_type s = elim (Bool-cases (s.slug == slug)) [
      | inl e ↦ rw e (spared.account_type s)
      | inr e ↦ rw e refl
    ]

    changed-source :
        (s : Service) → (changed s).account_source_service_id ≡ s.account_source_service_id
    changed-source s = elim (Bool-cases (s.slug == slug)) [
      | inl e ↦ rw e (spared.source s)
      | inr e ↦ rw e refl
    ]

    kept_source : (k : Option ℕ) → HasSource env rows k → HasSource env after k
    kept_source none h = h
    kept_source (some k) (source, e, m) = (
      changed source,
      found_after k ∙ ap (λ o. Option.map changed o) e,
      ap (λ t. is_managed t) (changed-account_type source) ∙ m,
    )

    update-AreSourced : AreSourced env rows → AreSourced env after
    update-AreSourced h id s e r = elim (Option-cases (env.services.find (λ s. s.id == id) rows)) [
      | inl g ↦ absurd (ground (arith, found_after id))
      | inr (old, g) ↦
          let same : s ≡ changed old = ground (arith, found_after id) in
          subst (λ k. HasSource env after k)
            (sym (ap (λ (x : Service). x.account_source_service_id) same ∙ changed-source old))
            (kept_source old.account_source_service_id (
              h id old g (
                sym (
                  ap (λ (x : Service). is_referenced x.account_type) same
                  ∙ ap (λ t. is_referenced t) (changed-account_type old))
                ∙ r)))
    ]

  pub update_by_slug-IsSourced :
      (slug : String) (f : Service → Service)
      → IsSpared f
      → Keeps (IsSourced env) (Services.update_by_slug env slug f)
  unfolding Services.update_by_slug
  update_by_slug-IsSourced slug f spared w h =
      elim (Option-cases (Services.find_by_slug env slug w)) [
        | inl e ↦ IsSourced-same w (final (Services.update_by_slug env slug f w)) (ground arith) h
        | inr (s, e) ↦
            IsSourced-same (record w { services = after slug f spared w.services })
              (final (Services.update_by_slug env slug f w)) (ground arith)
              (update-AreSourced slug f spared w.services h)
      ]

  -- A new row that is no REFERENCED service, or whose source is there.
  pub insert-AreSourced :
      (new : Service) (rows : List Service)
      → AreSourced env rows
      → (is_referenced new.account_type ≡ true → HasSource env rows new.account_source_service_id)
      → AreSourced env (env.services.insert new rows)
  insert-AreSourced new rows h k id s e r =
      elim (Option-cases (env.services.find (λ x. x.id == id) rows)) [
        | inr (old, g) ↦
            let kept = env.services.find-insert_kept (λ x. x.id == id) new old rows g in
            let same : s ≡ old = ground arith in
            still s.account_source_service_id (
              subst (λ x. HasSource env rows x.account_source_service_id) (sym same)
                (h id old g (ground arith)))
        | inl g ↦ elim (Bool-cases (new.id == id)) [
          | inl f ↦
              let found = env.services.find-insert_new (λ x. x.id == id) new rows g f in
              let same : s ≡ new = ground arith in
              still s.account_source_service_id (
                subst (λ x. HasSource env rows x.account_source_service_id) (sym same)
                  (k (ground arith)))
          | inr f ↦
              absurd (ground (arith, env.services.find-insert_other (λ x. x.id == id) new rows f))
        ]
      ]
    where
      still :
          (source : Option ℕ)
          → HasSource env rows source
          → HasSource env (env.services.insert new rows) source
      still none h = h
      still (some k) (source, e, m) =
          (source, env.services.find-insert_kept (λ x. x.id == k) new source rows e, m)

  -- A removed service that nobody names.
  pub remove-AreSourced :
      (id : ℕ) (rows : List Service)
      → AreSourced env rows
      → is_some (env.services.find (λ s. is_value s.account_source_service_id id) rows) ≡ false
      → AreSourced env (env.services.remove (λ s. s.id == id) rows)
  remove-AreSourced id rows h unused j s e r =
      let found : env.services.find (λ x. x.id == j) rows ≡ some s = elim (Bool-cases (j == id)) [
        | inl f ↦ absurd (
            ground (
              arith,
              env.services.find-remove (λ x. x.id == j) (λ x. x.id == id) rows,
              env.services.find-sound (λ x. x.id == j && not (x.id == id)) rows s,
            ))
        | inr f ↦
            sym (find-remove_apart env.services (λ x. x.id == j) (λ x. x.id == id) rows (apart j f))
            ∙ e
      ] in
      still s.account_source_service_id refl (h j s found r) found
    where
      apart :
          (k : ℕ) → (k == id) ≡ false → (x : Service) → (x.id == k) ≡ true → (x.id == id) ≡ false
      apart k f x g = ground arith

      still :
          (source : Option ℕ)
          → s.account_source_service_id ≡ source
          → HasSource env rows source
          → env.services.find (λ x. x.id == j) rows ≡ some s
          → HasSource env (env.services.remove (λ x. x.id == id) rows) source
      still none f h found = h
      still (some k) f (source, g, m) found = elim (Bool-cases (k == id)) [
        | inl same ↦ absurd (
            ground (
              arith,
              find-is_some env.services (λ x. x.id == j)
                  (λ x. is_value x.account_source_service_id id) rows s found,
            ))
        | inr unlike ↦ (
          source,
          find-remove_apart env.services (λ x. x.id == k) (λ x. x.id == id) rows (apart k unlike)
              ∙ g,
          m,
        )
      ]
