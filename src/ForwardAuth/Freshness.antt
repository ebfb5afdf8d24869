-- ===== src/ForwardAuth/Freshness.antt =====
-- How stale an answer of the cache can be.

use home_gate.ForwardAuth.{
  CacheEntry, cache_ttl_ms, cache_get, cache_set, prefix, handle_invalidation, evaluate_access,
  cache_key, is_authorized,
}
use home_gate.Common.{
  ◌-◌, ◌<◌, String, ◌≡◌, refl, ◌⊎◌, inl, inr, none, some, List, [], ◌∷◌, arith, eq_iff, ltb, ◌==◌,
  ==_refl, if◌then◌else◌, Bool-cases, Option-cases, nat_eq, string_eq,
}
use home_gate.Model.{Service, World}
use home_gate.Environment.{Environment}
use text.Mathlib.Text.{starts_with}
use text.Mathlib.TextPositions.{starts_with-append}

cache_get-key :
    (k : String) (cache : List CacheEntry) (e : CacheEntry) → cache_get k cache ≡ some e → e.key ≡ k
cache_get-key k [] e h = absurd (ground arith)
cache_get-key k (c ∷ cache) e h = ground (arith, cache_get-key k cache e, eq_iff c.key k)

-- What `set` has stored is what `get` finds for its key, and every other key keeps its entry.
pub cache_get-cache_set :
    (entry : CacheEntry) (k : String) (cache : List CacheEntry)
    → cache_get k (cache_set entry cache)
      ≡ (if entry.key == k then some entry else cache_get k cache)
cache_get-cache_set entry k [] = refl
cache_get-cache_set entry k (c ∷ cache) = ground (
  arith,
  cache_get-cache_set entry k cache,
  eq_iff c.key entry.key,
  eq_iff c.key k,
  eq_iff entry.key k,
)

-- An invalidation drops the entries of the keys that start with the user's prefix, and no others.
pub cache_get-handle_invalidation :
    (user_id k : String) (cache : List CacheEntry)
    → cache_get k (handle_invalidation user_id cache)
      ≡ (if starts_with k (prefix user_id) then none else cache_get k cache)
unfolding handle_invalidation
cache_get-handle_invalidation user_id k [] = ground arith
cache_get-handle_invalidation user_id k (c ∷ cache) =
    ground (arith, cache_get-handle_invalidation user_id k cache, eq_iff c.key k)

module _ (env : Environment) (user_id : String) (service : Service) (w : World) where
  -- An answer is the current one, or one that was stored for this user and service less than five
  -- minutes ago.
  pub is_authorized_fresh :
      (cache : List CacheEntry)
      → ((is_authorized env user_id service cache w).0 ≡ evaluate_access env user_id service w)
        ⊎ ((e : CacheEntry) × (cache_get (cache_key env user_id service) cache ≡ some e)
            × (w.now - e.cached_at < cache_ttl_ms)
            × ((is_authorized env user_id service cache w).0 ≡ e.allowed))
  unfolding is_authorized
  is_authorized_fresh cache =
      elim (Option-cases (cache_get (cache_key env user_id service) cache)) [
        | inl h ↦ inl (ground arith)
        | inr (e, h) ↦ elim (Bool-cases (ltb (w.now - e.cached_at) cache_ttl_ms)) [
          | inl k ↦ inr (e, h, ground arith, ground arith)
          | inr k ↦ inl (ground arith)
        ]
      ]

  read :
      (cache : List CacheEntry)
      → cache_get (cache_key env user_id service) (handle_invalidation user_id cache) ≡ none
  read cache = ground (
    arith,
    cache_get-handle_invalidation user_id (cache_key env user_id service) cache,
    starts_with-append (prefix user_id) (env.number_to_string service.id),
  )

  abbrev entry : CacheEntry
  entry = record {
    key = cache_key env user_id service;
    allowed = evaluate_access env user_id service w;
    cached_at = w.now;
  }

  stored :
      (cache : List CacheEntry)
      → cache_get
          (cache_key env user_id service)
          (cache_set entry (handle_invalidation user_id cache))
        ≡ some entry
  stored cache = ground (
    arith,
    cache_get-cache_set entry (cache_key env user_id service) (handle_invalidation user_id cache),
    ==_refl (cache_key env user_id service),
  )

  -- After an invalidation for the user, the answer is the current one, whatever was cached, and it is
  -- the answer that is cached.
  pub is_authorized-handle_invalidation :
      (cache : List CacheEntry)
      → ((is_authorized env user_id service (handle_invalidation user_id cache) w).0
          ≡ evaluate_access env user_id service w)
        × (cache_get
              (cache_key env user_id service)
              (is_authorized env user_id service (handle_invalidation user_id cache) w).1
            ≡ some (record {
              key = cache_key env user_id service;
              allowed = evaluate_access env user_id service w;
              cached_at = w.now;
            }))
  unfolding is_authorized
  is_authorized-handle_invalidation cache =
      (ground (arith, read cache), ground (arith, read cache, stored cache))
