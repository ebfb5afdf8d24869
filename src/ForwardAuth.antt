-- ===== src/ForwardAuth.antt =====
-- server/src/api/services/forwardAuth.service.ts: whether a reverse proxy may let a user through to
-- a service, with a cache of the answers.
pub mod Freshness
use home_gate.Common.{
  ℕ, ◌-◌, String, Bool, true, false, not, ◌&&◌, Option, none, some, List, [], ◌∷◌, ltb, ◌==◌,
  if◌then◌else◌, holds, keep, nat_eq, string_eq,
}
use home_gate.Model.{Service, World}
use home_gate.Environment.{Environment}
use home_gate.Access.{can_subscribe}
use home_gate.Cascade.{resolve_effective_entitlement}
use home_gate.Repositories.Services
use home_gate.Repositories.Subscriptions
use home_gate.Provisioners.Managed.{is_truthy}
use Prim.Native.String
use text.Mathlib.Text.{starts_with}

-- CacheEntry, with the key under which the map holds it.
pub record CacheEntry : Type 0 where
  pub key : String
  pub allowed : Bool
  pub cached_at : ℕ

abbrev pub cache_ttl_ms : ℕ
cache_ttl_ms = 300000

-- `cache.get(key)` and `cache.set(key, entry)`: a map holds one entry of each key.
abbrev pub cache_get : String → List CacheEntry → Option CacheEntry
cache_get key [] = none
cache_get key (e ∷ cache) = if e.key == key then some e else cache_get key cache

abbrev pub cache_set : CacheEntry → List CacheEntry → List CacheEntry
cache_set entry [] = entry ∷ []
cache_set entry (e ∷ cache) =
    if e.key == entry.key then entry ∷ cache else e ∷ cache_set entry cache

abbrev pub prefix : String → String
prefix user_id = String.◌++◌ user_id ":"

-- `handleInvalidation`
pub handle_invalidation : String → List CacheEntry → List CacheEntry
handle_invalidation user_id = keep (λ e. not (starts_with e.key (prefix user_id)))

module _ (env : Environment) where
  -- The loop of `resolveService`: a missing, empty or malformed address is skipped.
  find_host : String → List Service → Option Service
  find_host hostname [] = none
  find_host hostname (service ∷ services) =
      let rest = find_host hostname services in
      let matches =
        is_truthy service.url
        && holds
            (λ url.
              holds (λ h. env.to_lower_case h == env.to_lower_case hostname) (env.hostname url))
            service.url in
      if matches then some service else rest

  pub resolve_service : String → World → Option Service
  unfolding find_host
  resolve_service hostname w = find_host hostname (Services.find_enabled env w)

  pub evaluate_access : String → Service → World → Bool
  evaluate_access user_id service w =
      if not (can_subscribe env user_id service w)
      then false
      else elim (Subscriptions.find env user_id service.id w) [
        | none ↦ false
        | some s ↦ if not (resolve_effective_entitlement env s w).active then false else true
      ]

  abbrev pub cache_key : String → Service → String
  cache_key user_id service = String.◌++◌ (prefix user_id) (env.number_to_string service.id)

  -- The answer, and the cache after it.
  pub is_authorized : String → Service → List CacheEntry → World → Bool × List CacheEntry
  unfolding evaluate_access
  is_authorized user_id service cache w =
      let allowed = evaluate_access user_id service w in
      let entry : CacheEntry = record {
        key = cache_key user_id service;
        allowed = allowed;
        cached_at = w.now;
      } in
      elim (cache_get (cache_key user_id service) cache) [
        | none ↦ (allowed, cache_set entry cache)
        | some cached ↦
            if ltb (w.now - cached.cached_at) cache_ttl_ms
            then (cached.allowed, cache)
            else (allowed, cache_set entry cache)
      ]
