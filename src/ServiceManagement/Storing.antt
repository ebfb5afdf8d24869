-- ===== src/ServiceManagement/Storing.antt =====
-- What the creation of a service keeps.
use home_gate.Common.{
  ℕ, String, ◌≡◌, refl, sym, ap, inl, inr, true, Option, none, some, List, [], ◌∷◌, arith,
  Bool-cases, Option-cases,
}
use home_gate.Model.{is_referenced, Service, World, subscription_changed}
use home_gate.Effects.{
  Outcome, ◌>>=◌, pure, expect, for_each, final, bind_returned, Keeps, bind-final, bind-Keeps,
  then-Keeps, expect-Keeps, if-Keeps, returned, threw,
}
use home_gate.Environment.{Environment, emit}
use home_gate.Cascade.Created.{on_referenced_service_created-OnlySubscriptions}
use home_gate.ServiceManagement.Creating.{
  ServicePutRequest, check_source, resolve_account_source, to_row, check_request, announce,
  mirror_to, store, create,
}
use home_gate.ServiceManagement.Sources.{HasSource, IsSourced, IsSourced-same, insert-AreSourced}
use home_gate.Cascade.{on_referenced_service_created}
use mathlib.Core.Path.{subst}
use home_gate.Repositories.Services

module _ (env : Environment) where
  check_source_sound :
      (source : Option ℕ) (answer : Option ℕ) (w v : World)
      → check_source env source w ≡ returned answer v
      → (v ≡ w) × HasSource env w.services answer
  unfolding check_source Services.find_by_id
  check_source_sound none answer w v e = absurd (ground arith)
  check_source_sound (some id) answer w v e = elim (Option-cases (Services.find_by_id env id w)) [
    | inl f ↦ absurd (ground arith)
    | inr (s, f) ↦ go answer e s f
  ]
    where
      go :
          (answer : Option ℕ)
          → check_source env (some id) w ≡ returned answer v
          → (s : Service) → Services.find_by_id env id w ≡ some s
          → (v ≡ w) × HasSource env w.services answer
      go none e s f = absurd (ground arith)
      go (some k) e s f =
          let same : k ≡ id = ground (arith, Services.find_by_id-id env id w s f) in
          (ground arith, (s, rw same f, ground arith))

  check_request_sound :
      (request : ServicePutRequest) (source : Option ℕ) (w v : World)
      → check_request env request w ≡ returned source v
      → (v ≡ w) × (is_referenced request.account_type ≡ true → HasSource env w.services source)
  unfolding check_request resolve_account_source
  check_request_sound request source w v e =
      elim (Bool-cases (is_referenced request.account_type)) [
        | inl f ↦ go (check_source env request.account_source_service_id w) refl f
        | inr f ↦ (ground arith, λ g. absurd (ground arith))
      ]
    where
      go :
          (o : Outcome (Option ℕ))
          → check_source env request.account_source_service_id w ≡ o
          → is_referenced request.account_type ≡ true
          → (v ≡ w) × (is_referenced request.account_type ≡ true → HasSource env w.services source)
      go (threw x u) p f = absurd (ground arith)
      go (returned answer u) p f =
          let (same, found) = check_source_sound request.account_source_service_id answer w u p in
          let taken : source ≡ answer = ground arith in (ground arith, λ g. rw taken found)

  check_request-final :
      (request : ServicePutRequest) (w : World) → final (check_request env request w) ≡ w
  unfolding check_request resolve_account_source check_source
  check_request-final request w = ground arith

  pub announce-services :
      (ids : List String) (w : World) → (final (announce env ids w)).services ≡ w.services
  unfolding announce for_each emit
  announce-services [] w = refl
  announce-services (id ∷ ids) w =
      announce-services ids (record w { events = subscription_changed id ∷ w.events })

  mirror_to-Keeps : (s : Service) → Keeps (IsSourced env) (mirror_to env s)
  unfolding mirror_to
  mirror_to-Keeps s =
      if-Keeps (IsSourced env) (is_referenced s.account_type)
        (on_referenced_service_created env s >>= announce env) (pure tt)
        (bind-Keeps (IsSourced env) (on_referenced_service_created env s) (announce env)
          (λ w h.
            IsSourced-same env w (final (on_referenced_service_created env s w))
              (ap (λ (v : World). v.services)
                (on_referenced_service_created-OnlySubscriptions env s w))
              h)
          (λ ids w h.
            IsSourced-same env w (final (announce env ids w)) (announce-services ids w) h))
        (λ w h. h)

  -- The row that is stored, where its source is there.
  create-IsSourced :
      (row : Services.CreateService) (w : World)
      → IsSourced env w
      → (is_referenced row.account_type ≡ true
          → HasSource env w.services row.account_source_service_id)
      → IsSourced env (final (Services.create env row w))
  unfolding Services.create
  create-IsSourced row w h k =
      elim (Option-cases (env.services.find (Services.clashes row) w.services)) [
        | inr (s, e) ↦ IsSourced-same env w (final (Services.create env row w)) (ground arith) h
        | inl e ↦
            let new = Services.new_row (env.serial w.created) row in
            IsSourced-same env (record w { services = env.services.insert new w.services })
              (final (Services.create env row w)) (ground arith)
              (insert-AreSourced env new w.services h k)
      ]

  store-IsSourced :
      (request : ServicePutRequest) (source : Option ℕ) (v : World)
      → IsSourced env v
      → (is_referenced request.account_type ≡ true → HasSource env v.services source)
      → IsSourced env (final (store env request source v))
  unfolding store
  store-IsSourced request source v h k =
      bind-final (IsSourced env) (Services.create env (to_row env request source)) _ v
        (create-IsSourced (to_row env request source) v h k)
        (λ made.
          bind-Keeps (IsSourced env) (expect made _) _ (expect-Keeps (IsSourced env) made _)
            (λ s. then-Keeps (IsSourced env) (mirror_to env s) _ (mirror_to-Keeps s) (λ w h. h)))

  pub create-Keeps : (request : ServicePutRequest) → Keeps (IsSourced env) (create env request)
  unfolding create
  create-Keeps request w h = go (check_request env request w) refl
    where
      go :
          (o : Outcome (Option ℕ))
          → check_request env request w ≡ o
          → IsSourced env (final (create env request w))
      go (threw x v) p =
          IsSourced-same env w (final (create env request w))
            (ground (arith, check_request-final request w)) h
      go (returned source v) p =
          let (same, sourced) = check_request_sound request source w v p in
          subst (λ o. IsSourced env (final o))
            (sym (bind_returned (check_request env request) (store env request) w v source p))
            (store-IsSourced request source v
              (IsSourced-same env w v (ap (λ (u : World). u.services) same) h)
              (subst
                (λ (u : World).
                  is_referenced request.account_type ≡ true → HasSource env u.services source)
                (sym same) sourced))
