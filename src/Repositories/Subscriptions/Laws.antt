-- ===== src/Repositories/Subscriptions/Laws.antt =====
-- What is read from the table of subscriptions after a write.
use home_gate.Effects.{returned, threw}
use home_gate.Common.{
  ℕ, ◌≤◌, String, ◌≡◌, refl, true, ◌&&◌, none, some, List, [], ◌∷◌, arith, eq_iff, ◌==◌, ==_refl,
  if◌then◌else◌, length, any, nat_eq, string_eq,
}
use home_gate.Model.{Subscription, CreateSubscription, UpdateSubscription, World}
use home_gate.Environment.{Environment}
use home_gate.Repositories.Subscriptions.{
  is_key, updated, new_row, find, after_create, create, after_update, update, reached,
  cascade_delete, delete,
}
use home_gate.Repositories.Errors.{map_prisma_error, p2025}
use mathlib.Core.Option

-- The table of subscriptions and the time are the same.
abbrev pub SameSubscriptions : World → World → Type 0
SameSubscriptions w w' = (w'.subscriptions ≡ w.subscriptions) × (w'.now ≡ w.now)

module _ (env : Environment) (user_id : String) (service_id : ℕ) (w : World) where
  -- The row that a read finds has the key that was asked for.
  pub find-is_key :
      (s : Subscription)
      → find env user_id service_id w ≡ some s
      → is_key user_id service_id s ≡ true
  unfolding find
  find-is_key s e = env.subscriptions.find-sound _ _ s e

  pub find-same :
      (w' : World)
      → SameSubscriptions w w'
      → find env user_id service_id w' ≡ find env user_id service_id w
  unfolding find
  find-same w' h = ground arith

  -- An update changes the row of its key, and no other.
  pub find-after_update :
      (request : UpdateSubscription)
      → find env user_id service_id (after_update env request w)
        ≡ Option.map
            (λ s.
              if is_key request.user_id request.service_id s then updated w.now request s else s)
            (find env user_id service_id w)
  unfolding find
  find-after_update request =
      env.subscriptions.find-update (is_key user_id service_id) _ _ _ (λ r. refl)

  pub find-after_update_self :
      (request : UpdateSubscription) (s : Subscription)
      → request.user_id ≡ user_id
      → request.service_id ≡ service_id
      → find env user_id service_id w ≡ some s
      → find env user_id service_id (after_update env request w) ≡ some (updated w.now request s)
  find-after_update_self request s e f h =
      ground (arith, find-after_update request, find-is_key s h)

  -- An update of a row that is there returns the row as it is afterwards.
  pub update_found :
      (request : UpdateSubscription) (s : Subscription)
      → request.user_id ≡ user_id
      → request.service_id ≡ service_id
      → find env user_id service_id w ≡ some s
      → update env request w
        ≡ returned (some (updated w.now request s)) (after_update env request w)
  unfolding update
  update_found request s e f h = ground arith

  -- An update of a row that is not there changes nothing.
  pub update_absent :
      (request : UpdateSubscription)
      → request.user_id ≡ user_id
      → request.service_id ≡ service_id
      → find env user_id service_id w ≡ none
      → update env request w ≡ threw (map_prisma_error p2025) w
  unfolding update
  update_absent request e f h = ground arith

  pub find-after_create :
      (request : CreateSubscription) (s : Subscription)
      → find env user_id service_id w ≡ some s
      → find env user_id service_id (after_create env request w) ≡ some s
  unfolding find
  find-after_create request s h = env.subscriptions.find-insert_kept _ _ s _ h

  pub find-after_create_self :
      (request : CreateSubscription)
      → request.user_id ≡ user_id
      → request.service_id ≡ service_id
      → find env user_id service_id w ≡ none
      → find env user_id service_id (after_create env request w)
        ≡ some (new_row (env.uuid w.created) w.now request)
  unfolding find
  find-after_create_self request e f h =
      env.subscriptions.find-insert_new _ _ _ h
        (ground (arith, ==_refl user_id, ==_refl service_id, eq_iff request.user_id user_id))

  -- A create of a key that is free returns the new row.
  pub create_new :
      (request : CreateSubscription)
      → request.user_id ≡ user_id
      → request.service_id ≡ service_id
      → find env user_id service_id w ≡ none
      → create env request w
        ≡ returned (some (new_row (env.uuid w.created) w.now request)) (after_create env request w)
  unfolding create
  create_new request e f h = ground arith

  -- No two rows have this key (`@@unique([userId, serviceId])`).
  abbrev pub IsUniqueKey : Type 0
  IsUniqueKey = length (env.subscriptions.find_many (is_key user_id service_id) w.subscriptions) ≤ 1

  any_first : (id : String) (ids : List String) → any (λ i. id == i) (id ∷ ids) ≡ true
  any_first id ids = rw (==_refl id)

  -- After a delete nothing has the key.
  pub find-cascade_delete :
      (s : Subscription)
      → find env user_id service_id w ≡ some s
      → IsUniqueKey
      → find env user_id service_id (cascade_delete env s w) ≡ none
  unfolding find cascade_delete
  find-cascade_delete s h unique =
      let q = is_key user_id service_id in
      let ids = s.id ∷ reached env (length w.subscriptions) (s.id ∷ []) w.subscriptions in
      let gone = λ (r : Subscription). any (λ i. r.id == i) ids in
      let refined = env.subscriptions.find-refine q gone w.subscriptions s h (any_first s.id _) in
      let counted = env.subscriptions.count-remove q gone w.subscriptions in
      let here = env.subscriptions.find-count (λ r. q r && gone r) w.subscriptions in
      let left = env.subscriptions.find-count q (env.subscriptions.remove gone w.subscriptions) in
      ground (arith, refined, counted, here.1, left.1)

  pub delete_found :
      (s : Subscription)
      → find env user_id service_id w ≡ some s
      → delete env user_id service_id w ≡ returned tt (cascade_delete env s w)
  unfolding delete
  delete_found s h = ground arith

pub IsUniqueKey-same :
    (env : Environment) (user_id : String) (service_id : ℕ) (w w' : World)
    → w'.subscriptions ≡ w.subscriptions
    → IsUniqueKey env user_id service_id w
    → IsUniqueKey env user_id service_id w'
IsUniqueKey-same env user_id service_id w w' e h = ground arith

pub IsUniqueKey-after_update :
    (env : Environment) (user_id : String) (service_id : ℕ) (w : World)
    (request : UpdateSubscription)
    → IsUniqueKey env user_id service_id w
    → IsUniqueKey env user_id service_id (after_update env request w)
IsUniqueKey-after_update env user_id service_id w request h = ground (
  arith,
  env.subscriptions.count-update (is_key user_id service_id)
      (is_key request.user_id request.service_id) (updated w.now request) w.subscriptions
      (λ r. refl),
)
