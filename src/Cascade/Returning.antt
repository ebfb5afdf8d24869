-- ===== src/Cascade/Returning.antt =====
-- The changes of the derived subscriptions return: each row that is listed is there to be updated.
use home_gate.Repositories.Subscriptions.{is_key, after_update}
use home_gate.Repositories.Subscriptions.Laws.{find-after_update, update_found}
use home_gate.Cascade.{
  earliest, same_time, find_derived, on_deactivated, on_reactivated, clamp, on_expiry_changed,
}
use home_gate.Database.Keys.{find-is_some}
use home_gate.Database.{Table}
use home_gate.Environment.{Environment}
use home_gate.Model.{SubscriptionStatus, Subscription, UpdateSubscription, of_subscription, World}
use home_gate.Effects.{M, ◌>>◌, pure, for_each, for_each_returned, returned}
use home_gate.Common.{
  ◌≤◌, ◌≡◌, refl, ◌∙◌, inl, inr, Bool, true, ◌&&◌, some, List, [], ◌∷◌, arith, ==_refl, Bool-cases,
  Option-cases, is_some, is_value, length, keep, All, nat_eq, string_eq,
}
use home_gate.Repositories.Subscriptions

-- A part of a list has no more rows that pass a test than the whole.
abbrev Within : {Row : Type 0} → List Row → List Row → Type 0
Within {Row} l whole = (q : Row → Bool) → length (keep q l) ≤ length (keep q whole)

module _ {Row : Type 0} (table : Table Row) (p : Row → Bool) (rows : List Row)
    (key : Row → Row → Bool) (own : (r : Row) → key r r ≡ true) where
  listed_here :
      (r : Row)
      → 1 ≤ length (keep (key r) (table.find_many p rows))
      → is_some (table.find (key r) rows) ≡ true
  listed_here r h = elim (Option-cases (table.find (λ s. p s && key r s) rows)) [
    | inl e ↦ absurd (
        ground
          (arith, table.count-refine p (key r) rows, table.find-count (λ s. p s && key r s) rows))
    | inr (s, e) ↦
        find-is_some table (λ s. p s && key r s) (key r) rows s e
          (ground (arith, table.find-sound (λ s. p s && key r s) rows s e))
  ]

  -- Every row that is listed is found by its key.
  listed_found :
      (l : List Row)
      → Within l (table.find_many p rows)
      → All (λ r. is_some (table.find (key r) rows) ≡ true) l
  listed_found [] h = tt
  listed_found (r ∷ l) h =
      (listed_here r (ground (arith, h (key r), own r)), listed_found l (λ q. ground (arith, h q)))

module _ (env : Environment) where
  abbrev pub IsThere : World → Subscription → Type 0
  IsThere w s = is_some (Subscriptions.find env s.user_id s.service_id w) ≡ true

  find_many-IsThere :
      (p : Subscription → Bool) (w : World) → All (IsThere w) (Subscriptions.find_many env p w)
  unfolding Subscriptions.find_many Subscriptions.find
  find_many-IsThere p w =
      listed_found env.subscriptions p w.subscriptions (λ r s. is_key r.user_id r.service_id s)
        (λ r. ground (arith, ==_refl r.user_id, ==_refl r.service_id))
        (env.subscriptions.find_many p w.subscriptions) (λ q. omega arith)

  -- A round that returns where its row is there, and takes no row away.
  abbrev Steps : (Subscription → M (Unit {0})) → Type 0
  Steps body =
      (s : Subscription) (w : World)
      → IsThere w s
      → (v : World) × (body s w ≡ returned tt v) × ((r : Subscription) → IsThere w r → IsThere v r)

  All-IsThere :
      (w v : World)
      → ((r : Subscription) → IsThere w r → IsThere v r)
      → (l : List Subscription) → All (IsThere w) l
      → All (IsThere v) l
  All-IsThere w v h [] t = tt
  All-IsThere w v h (s ∷ l) (k, t) = (h s k, All-IsThere w v h l t)

  for_each-Steps :
      (body : Subscription → M (Unit {0}))
      → Steps body
      → (l : List Subscription) (w : World) → All (IsThere w) l
      → (v : World) × (for_each body l w ≡ returned tt v)
  unfolding for_each
  for_each-Steps body h [] w t = (w, refl)
  for_each-Steps body h (s ∷ l) w (k, t) =
      let (v, e, kept) = h s w k in
      let (u, f) = for_each-Steps body h l v (All-IsThere w v kept l t) in
      (u, for_each_returned body s l w v tt e ∙ f)

  after_update-IsThere :
      (request : UpdateSubscription) (w : World) (r : Subscription)
      → IsThere w r
      → IsThere (after_update env request w) r
  after_update-IsThere request w r h =
      elim (Option-cases (Subscriptions.find env r.user_id r.service_id w)) [
        | inl e ↦ absurd (ground arith)
        | inr (s, e) ↦ ground (arith, find-after_update env r.user_id r.service_id w request)
      ]

  update_steps :
      (request : UpdateSubscription) (s : Subscription) (w : World)
      → request.user_id ≡ s.user_id
      → request.service_id ≡ s.service_id
      → IsThere w s
      → (v : World) × ((Subscriptions.update env request >> pure tt) w ≡ returned tt v)
        × ((r : Subscription) → IsThere w r → IsThere v r)
  update_steps request s w p q h =
      elim (Option-cases (Subscriptions.find env s.user_id s.service_id w)) [
        | inl e ↦ absurd (ground arith)
        | inr (row, e) ↦ (
          after_update env request w,
          ground (arith, update_found env s.user_id s.service_id w request row p q e),
          after_update-IsThere request w,
        )
      ]

  -- Where a source is deactivated, the change of the subscriptions derived from it returns.
  pub on_deactivated_returned :
      (source : Subscription) (status : SubscriptionStatus) (w : World)
      → (v : World) × (on_deactivated env source status w ≡ returned tt v)
  unfolding on_deactivated
  on_deactivated_returned source status w =
      for_each-Steps _ (λ s v h. update_steps _ s v refl refl h) (find_derived env source.id w) w
        (find_many-IsThere (λ s. is_value s.derived_from_subscription_id source.id) w)

  -- So it is where a source is reactivated.
  pub on_reactivated_returned :
      (source : Subscription) (w : World)
      → (v : World) × (on_reactivated env source w ≡ returned tt v)
  unfolding on_reactivated
  on_reactivated_returned source w =
      for_each-Steps _ (λ s v h. update_steps _ s v refl refl h) (find_derived env source.id w) w
        (find_many-IsThere (λ s. is_value s.derived_from_subscription_id source.id) w)

  clamp-Steps : (source : Subscription) → Steps (clamp env source)
  unfolding clamp
  clamp-Steps source s w h =
      elim (Bool-cases (same_time (earliest s.expires_at source.expires_at) s.expires_at)) [
        | inl e ↦ (w, ground arith, λ r k. k)
        | inr e ↦
            let request = record (of_subscription s.user_id s.service_id) {
              expires_at = some source.expires_at;
            } in
            let (v, f, k) = update_steps request s w refl refl h in (v, rw e f, k)
      ]

  -- So it is where the expiry of a source changes.
  pub on_expiry_changed_returned :
      (source : Subscription) (w : World)
      → (v : World) × (on_expiry_changed env source w ≡ returned tt v)
  unfolding on_expiry_changed
  on_expiry_changed_returned source w =
      for_each-Steps (clamp env source) (clamp-Steps source) (find_derived env source.id w) w
        (find_many-IsThere (λ s. is_value s.derived_from_subscription_id source.id) w)
