-- ===== src/ServiceManagement/Requests.antt =====
-- Requests to the service management, one after the other.
use home_gate.ServiceManagement.Updating.{update-Keeps}
use home_gate.ServiceManagement.Switching.{find_service-Keeps, set_enabled-Keeps}
use home_gate.ServiceManagement.Storing.{announce-services, create-Keeps}
use home_gate.ServiceManagement.Sources.{IsSourced, IsSourced-same, remove-AreSourced}
use home_gate.ServiceManagement.Deleting.{drop_subscriptions, clear, delete}
use home_gate.ServiceManagement.Creating.{ServicePutRequest, create}
use home_gate.ServiceManagement.{ServicePatchRequest, find_service, set_enabled, update}
use home_gate.Environment.{Environment}
use home_gate.Effects.{
  pure, throw_if, final, Keeps, bind-Keeps, then-Keeps, throw_if-Keeps, if-Keeps,
}
use home_gate.Model.{is_managed, is_referenced, Service, World}
use home_gate.Common.{
  ℕ, String, ◌≡◌, inl, inr, Bool, arith, ◌==◌, Bool-cases, Option-cases, nat_eq, string_eq,
}
use home_gate.Repositories.Services
use home_gate.Repositories.Subscriptions

module _ (env : Environment) where
  delete_row-Keeps : (id : ℕ) → Keeps (IsSourced env) (Services.delete env id)
  unfolding Services.delete Services.is_referred_to
  delete_row-Keeps id w h = elim (Option-cases (Services.find_by_id env id w)) [
    | inl e ↦ IsSourced-same env w (final (Services.delete env id w)) (ground arith) h
    | inr (s, e) ↦ elim (Bool-cases (Services.is_referred_to env id w)) [
      | inl f ↦ IsSourced-same env w (final (Services.delete env id w)) (ground arith) h
      | inr f ↦
          IsSourced-same env
            (record w { services = env.services.remove (λ s. s.id == id) w.services })
            (final (Services.delete env id w)) (ground arith)
            (remove-AreSourced env id w.services h (ground arith))
    ]
  ]

  drop_subscriptions-services :
      (s : Service) (w : World) → (final (drop_subscriptions env s w)).services ≡ w.services
  unfolding drop_subscriptions Subscriptions.delete_by_service_id
  drop_subscriptions-services s w = announce-services env _ _

  clear-Keeps : (s : Service) → Keeps (IsSourced env) (clear env s)
  unfolding clear
  clear-Keeps s =
      if-Keeps (IsSourced env) (is_referenced s.account_type) (drop_subscriptions env s) (pure tt)
        (λ w h.
          IsSourced-same env w (final (drop_subscriptions env s w))
            (drop_subscriptions-services s w) h)
        (λ w h. h)

  pub delete-Keeps : (slug : String) → Keeps (IsSourced env) (delete env slug)
  unfolding delete
  delete-Keeps slug =
      bind-Keeps (IsSourced env) (find_service env slug) _ (find_service-Keeps env slug) (λ s.
        then-Keeps (IsSourced env) (throw_if (is_managed s.account_type) _) _
          (throw_if-Keeps (IsSourced env) (is_managed s.account_type) _)
          (then-Keeps (IsSourced env) (clear env s) _ (clear-Keeps s) (
            then-Keeps (IsSourced env) (Services.delete env s.id) _ (delete_row-Keeps s.id)
              (λ w h. h))))

  -- The states that requests lead to, whether they are answered or refused.
  pub data Reaches : World → World → Type 0 where
    start : (w : World) → Reaches w w
    created :
        {u v : World} → Reaches u v → (r : ServicePutRequest) → Reaches u (final (create env r v))
    switched :
        {u v : World}
        → Reaches u v
        → (slug : String) (enabled : Bool) → Reaches u (final (set_enabled env slug enabled v))
    updated :
        {u v : World}
        → Reaches u v
        → (slug : String) (r : ServicePatchRequest) → Reaches u (final (update env slug r v))
    deleted : {u v : World} → Reaches u v → (slug : String) → Reaches u (final (delete env slug v))

  -- If every REFERENCED service names a stored MANAGED service as its source, this stays so through
  -- any sequence of creations, switches, updates and deletions of services, refused ones included.
  pub Reaches-IsSourced : (w w' : World) → Reaches w w' → IsSourced env w → IsSourced env w'
  Reaches-IsSourced w _ (start _) h = h
  Reaches-IsSourced w _ (created {v = v} s r) h = create-Keeps env r v (Reaches-IsSourced w v s h)
  Reaches-IsSourced w _ (switched {v = v} s slug enabled) h =
      set_enabled-Keeps env slug enabled v (Reaches-IsSourced w v s h)
  Reaches-IsSourced w _ (updated {v = v} s slug r) h =
      update-Keeps env slug r v (Reaches-IsSourced w v s h)
  Reaches-IsSourced w _ (deleted {v = v} s slug) h = delete-Keeps slug v (Reaches-IsSourced w v s h)
