-- ===== src/Tests/Services.antt =====
-- Requests to the service management on the server of Fixtures.

use home_gate.ServiceManagement.Requests.{Reaches-IsSourced, start, created, deleted}
use home_gate.ServiceManagement.Sources.{HasSource, IsSourced}
use home_gate.ServiceManagement.Deleting.Outcomes.{IsGone, delete-IsGone}
use home_gate.ServiceManagement.Deleting.{clear, delete}
use home_gate.ServiceManagement.Creating.{ServicePutRequest, create}
use home_gate.ServiceManagement.Slugs.{is_slug, allowed, singly, ends_well, is_slug-words}
use home_gate.ServiceManagement.{service_model_to_response, find_service}
use home_gate.Tests.Fixtures.{server, films, requests, links, world}
use home_gate.Effects.{final, returned}
use home_gate.Model.{is_managed, referenced, Service, World}
use home_gate.Common.{
  ◌≡◌, refl, sym, inl, inr, true, false, ◌&&◌, none, some, [], ◌∷◌, arith, ◌==◌, Bool-cases, nat_eq,
  string_eq,
}
use mathlib.Core.Path.{subst}
use home_gate.Repositories.Services

two_words : is_slug "films-2" ≡ true
unfolding is_slug
two_words = refl

no_words : is_slug "films--2" ≡ false
unfolding is_slug
no_words = refl

is_slug-words_example :
    is_slug "films-2" ≡ (allowed "films-2" && singly true "films-2" && ends_well false "films-2")
is_slug-words_example = is_slug-words "films-2"

-- The requests are derived from the films, which are MANAGED.
world-IsSourced : IsSourced server world
world-IsSourced id s e r = elim (Bool-cases (1 == id)) [
  | inl f ↦ let same : s ≡ films = ground arith in absurd (ground arith)
  | inr f ↦ elim (Bool-cases (2 == id)) [
    | inl g ↦
        let same : s ≡ requests = ground arith in
        subst (λ (x : Service). HasSource server world.services x.account_source_service_id)
          (sym same) (films, refl, refl)
    | inr g ↦ absurd (ground arith)
  ]
]

abbrev series : ServicePutRequest
series = record {
  slug = "series";
  name = "series";
  account_type = referenced;
  account_source_service_id = some 1;
  enabled = none;
  default_allowed = none;
  url = some "http://series";
  image_url = none;
}

abbrev managed_world : World
managed_world = final (delete server "links" (final (create server series world)))

Reaches-IsSourced_example : IsSourced server managed_world
Reaches-IsSourced_example =
    Reaches-IsSourced server world managed_world (deleted (created (start world) series) "links")
      world-IsSourced

links_deleted :
    delete server "links" world
    ≡ returned
        (service_model_to_response server links)
        (record world { services = films ∷ requests ∷ [] })
unfolding delete find_service Services.find_by_slug clear Services.delete Services.find_by_id
    Services.is_referred_to
links_deleted = refl

delete-IsGone_example :
    (s : Service) × (Services.find_by_slug server "links" world ≡ some s)
    × (is_managed s.account_type ≡ false)
    × (links ≡ s)
    × IsGone server "links" s (record world { services = films ∷ requests ∷ [] })
delete-IsGone_example =
    delete-IsGone server "links" (service_model_to_response server links) world
      (record world { services = films ∷ requests ∷ [] }) links_deleted
