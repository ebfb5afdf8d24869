-- ===== src/Tests/Derived.antt =====
-- The theorems on derived subscriptions at concrete inputs.
use home_gate.Cascade.Mirrored.{Rounds, on_activated-IsMirrored}
use home_gate.Tests.Fixtures.{server, to_films, to_requests, world}
use home_gate.Cascade.Clamp.{Stands, SourceStands, entitlement_iff, find-clamp}
use home_gate.Cascade.{resolve_effective_entitlement, on_activated, clamp}
use home_gate.Effects.{final, returned}
use home_gate.Model.{Subscription, World}
use home_gate.Common.{◌≡◌, refl, ◌↔◌, true, some}
use home_gate.Repositories.Services
use home_gate.Repositories.Subscriptions

find_source : Subscriptions.find_by_id server "s1" world ≡ some to_films
unfolding Subscriptions.find_by_id
find_source = refl

find_derived_row : Subscriptions.find server "bob" 2 world ≡ some to_requests
unfolding Subscriptions.find
find_derived_row = refl

find_source_row : Subscriptions.find server "bob" 1 world ≡ some to_films
unfolding Subscriptions.find
find_source_row = refl

entitlement_iff_example :
    ((resolve_effective_entitlement server to_requests world).active ≡ true)
    ↔ (Stands 1000 to_requests × SourceStands server world (some "s1"))
entitlement_iff_example = entitlement_iff server world to_requests

find-clamp_example :
    (r : Subscription) × (Subscriptions.find server "bob" 2
        (final (clamp server to_films to_requests world))
      ≡ some r)
    × (r.expires_at ≡ some 2000)
    × (record r { expires_at = some 3000; updated_at = 0 } ≡ to_requests)
find-clamp_example = find-clamp server world to_films to_requests find_derived_row

on_activated-IsMirrored_example :
    (v : World) × (on_activated server to_films world ≡ returned tt v)
    × Rounds server to_films (Services.find_enabled_by_source server 1 world) v
on_activated-IsMirrored_example = on_activated-IsMirrored server to_films world
