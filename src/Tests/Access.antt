-- ===== src/Tests/Access.antt =====
-- The theorems on access at concrete inputs.

use home_gate.Common.{◌≡◌, true, false, none, some, List, [], ◌∷◌, arith}
use home_gate.Access.{can_subscribe, resolve_access}
use home_gate.Access.Agreement.{resolve_access-can_subscribe}
use home_gate.ForwardAuth.{
  CacheEntry, cache_get, handle_invalidation, evaluate_access, is_authorized,
}
use home_gate.ForwardAuth.Freshness.{is_authorized-handle_invalidation}
use home_gate.Provisioners.Managed.{ProvisionContext, LifecycleContext}
use home_gate.Tests.Fixtures.{server, films, links, to_links, links_world, generous_world}

resolve_access-can_subscribe_example :
    resolve_access server "bob" (films ∷ links ∷ []) generous_world
    ≡ (1, can_subscribe server "bob" films generous_world)
      ∷ (3, can_subscribe server "bob" links generous_world)
      ∷ []
resolve_access-can_subscribe_example =
    resolve_access-can_subscribe server "bob" generous_world (λ service_id. ground arith)
      (films ∷ links ∷ [])

-- A stale refusal for Bob, and an answer for Ann.
abbrev cache : List CacheEntry
cache =
    record { key = "bob:iiir"; allowed = false; cached_at = 900 }
    ∷ record { key = "ann:iiir"; allowed = true; cached_at = 900 }
    ∷ []

is_authorized-handle_invalidation_example :
    ((is_authorized server "bob" links (handle_invalidation "bob" cache) links_world).0
      ≡ evaluate_access server "bob" links links_world)
    × (cache_get "bob:iiir"
          (is_authorized server "bob" links (handle_invalidation "bob" cache) links_world).1
        ≡ some (record {
          key = "bob:iiir";
          allowed = evaluate_access server "bob" links links_world;
          cached_at = 1000;
        }))
is_authorized-handle_invalidation_example =
    is_authorized-handle_invalidation server "bob" links links_world cache

abbrev request_context : ProvisionContext
request_context = record {
  user_id = "bob";
  user_email = "bob@home";
  service = links;
  username = none;
  password = none;
  email = none;
  existing_subscription = none;
  existing_account = none;
  reusable_account = none;
}

abbrev links_context : LifecycleContext
links_context = record {
  user_id = "bob";
  email = "bob@home";
  service = links;
  subscription = to_links;
  accounts = [];
}
