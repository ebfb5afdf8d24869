-- ===== src/ServiceManagement/Updating.antt =====
-- What an update of a service keeps.

use home_gate.ServiceManagement.Switching.{find_service-Keeps, respond-Keeps, set_enabled-Keeps}
use home_gate.Common.{
  String, ◌≡◌, refl, sym, inl, inr, false, not, ◌&&◌, Option, none, some, arith, ◌==◌, Bool-cases,
  is_some, nat_eq, string_eq,
}
use home_gate.Model.{World}
use home_gate.Effects.{◌>>=◌, pure, final, Keeps, bind-Keeps, then-Keeps, if-Keeps}
use home_gate.Environment.{Environment}
use home_gate.ServiceManagement.{
  ServicePatchRequest, find_service, respond, set_enabled, update_slug, update_image_url,
  update_url, rename, finish_update, update,
}
use home_gate.ServiceManagement.Sources.{IsSourced, IsSourced-same, update_by_slug-IsSourced}
use mathlib.Core.Path.{subst}
use home_gate.Repositories.Services

module _ (env : Environment) where
  update_url-Keeps :
      (slug : String) (url : Option String) → Keeps (IsSourced env) (update_url env slug url)
  unfolding update_url Services.set_url
  update_url-Keeps slug url =
      bind-Keeps (IsSourced env) (Services.set_url env slug url) (respond env slug)
        (update_by_slug-IsSourced env slug (λ s. record s { url = url })
          (record { id = λ s. refl; account_type = λ s. refl; source = λ s. refl }))
        (respond-Keeps env slug)

  update_image_url-Keeps :
      (slug : String) (url : Option String) → Keeps (IsSourced env) (update_image_url env slug url)
  unfolding update_image_url Services.set_image_url
  update_image_url-Keeps slug url =
      bind-Keeps (IsSourced env) (Services.set_image_url env slug url) (respond env slug)
        (update_by_slug-IsSourced env slug (λ s. record s { image_url = url })
          (record { id = λ s. refl; account_type = λ s. refl; source = λ s. refl }))
        (respond-Keeps env slug)

  the_write :
      (slug new_slug : String) (w : World)
      → (is_some (Services.find_by_slug env slug w)
          && is_some (Services.find_by_slug env new_slug w)
          && not (new_slug == slug))
        ≡ false
      → Services.set_slug env slug new_slug w
        ≡ Services.update_by_slug env slug (λ s. record s { slug = new_slug }) w
  unfolding Services.set_slug
  the_write slug new_slug w e = rw e refl

  set_slug-Keeps :
      (slug new_slug : String) → Keeps (IsSourced env) (Services.set_slug env slug new_slug)
  unfolding Services.set_slug
  set_slug-Keeps slug new_slug w h =
      let clash =
        is_some (Services.find_by_slug env slug w)
        && is_some (Services.find_by_slug env new_slug w)
        && not (new_slug == slug) in
      elim (Bool-cases clash) [
        | inl e ↦
            IsSourced-same env w (final (Services.set_slug env slug new_slug w)) (ground arith) h
        | inr e ↦
            subst (λ o. IsSourced env (final o)) (sym (the_write slug new_slug w e))
              (update_by_slug-IsSourced env slug (λ s. record s { slug = new_slug })
                (record { id = λ s. refl; account_type = λ s. refl; source = λ s. refl }) w h)
      ]

  update_slug-Keeps :
      (slug new_slug : String) → Keeps (IsSourced env) (update_slug env slug new_slug)
  unfolding update_slug
  update_slug-Keeps slug new_slug w h = elim (Bool-cases (new_slug == slug)) [
    | inl e ↦ rw e (
        bind-Keeps (IsSourced env) (find_service env slug) _ (find_service-Keeps env slug)
          (λ s v k. k) w h)
    | inr e ↦ elim (Bool-cases (is_some (Services.find_by_slug env new_slug w))) [
      | inl f ↦ rw e (rw f h)
      | inr f ↦ rw e (
          rw f (
            bind-Keeps (IsSourced env) (Services.set_slug env slug new_slug) (respond env slug)
              (set_slug-Keeps slug new_slug) (respond-Keeps env slug) w h))
    ]
  ]

  rename-Keeps : (slug new_slug : String) → Keeps (IsSourced env) (rename env slug new_slug)
  unfolding rename
  rename-Keeps slug new_slug =
      if-Keeps (IsSourced env) (new_slug == slug) (pure slug)
        (update_slug env slug new_slug >>= (λ r. pure r.service.slug)) (λ w h. h)
        (bind-Keeps (IsSourced env) (update_slug env slug new_slug) _
          (update_slug-Keeps slug new_slug) (λ r w h. h))

  finish_update-Keeps :
      (slug : String) (image_url : Option (Option String))
      → Keeps (IsSourced env) (finish_update env slug image_url)
  unfolding finish_update
  finish_update-Keeps slug none w h = respond-Keeps env slug (Services.find_by_slug env slug w) w h
  finish_update-Keeps slug (some image_url) w h = update_image_url-Keeps slug image_url w h

  pub update-Keeps :
      (slug : String) (request : ServicePatchRequest)
      → Keeps (IsSourced env) (update env slug request)
  unfolding update
  update-Keeps slug request =
      bind-Keeps (IsSourced env) (rename env slug request.slug) _ (rename-Keeps slug request.slug)
        (λ current.
          then-Keeps (IsSourced env) (set_enabled env current request.enabled) _
            (set_enabled-Keeps env current request.enabled)
            (then-Keeps (IsSourced env) (update_url env current request.url) _
              (update_url-Keeps current request.url)
              (finish_update-Keeps current request.image_url)))
