-- ===== src/SessionService.antt =====
-- server/src/api/services/session.service.ts, with the queries of
-- server/src/data/repositories/session.repository.ts that it makes. The rows of the table are the
-- state; the limit is the setting `maxPerUser`.
pub mod Selection
pub mod Evicted
pub mod Limit
use home_gate.Common.{
  ℕ, ◌+◌, ◌-◌, String, Bool, none, some, List, [], ◌∷◌, ltb, leb, ◌==◌, if◌then◌else◌, is_value,
  length, keep, take, nat_eq, string_eq,
}
use home_gate.Model.{Session}
use home_gate.Database.{Table}

-- The place of a session in a list that is sorted by creation, before those of the same time.
pub insert_by_creation : Session → List Session → List Session
insert_by_creation s [] = s ∷ []
insert_by_creation s (t ∷ l) =
    let rest = insert_by_creation s l in
    if leb s.created_at t.created_at then s ∷ t ∷ l else t ∷ rest

-- `.sort((a, b) => a.createdAt.getTime() - b.createdAt.getTime())`, which is stable.
pub sort_by_creation : List Session → List Session
unfolding insert_by_creation
sort_by_creation [] = []
sort_by_creation (s ∷ l) = insert_by_creation s (sort_by_creation l)

-- `active.length - (maxPerUser - 1)`, where a number below 0 is 0: nothing is evicted then.
pub evict_count : ℕ → ℕ → ℕ
evict_count max_per_user active = (active + 1) - max_per_user

abbrev pub is_unexpired : ℕ → Session → Bool
is_unexpired now s = ltb now s.expires_at

module _ (table : Table Session) where
  pub find_by_user_id : String → List Session → List Session
  find_by_user_id user_id rows = table.find_many (λ s. is_value s.user_id user_id) rows

  pub delete : String → List Session → List Session
  delete sid rows = table.remove (λ s. s.sid == sid) rows

  pub delete_expired : ℕ → List Session → List Session
  delete_expired now rows = table.remove (λ s. ltb s.expires_at now) rows

  -- The loop of `enforceLimitForUser`.
  pub evict : List Session → List Session → List Session
  unfolding delete
  evict [] rows = rows
  evict (s ∷ l) rows = evict l (delete s.sid rows)

  -- `const active = …`
  pub active_sessions : ℕ → String → List Session → List Session
  unfolding find_by_user_id sort_by_creation
  active_sessions now user_id rows =
      sort_by_creation (keep (is_unexpired now) (find_by_user_id user_id rows))

  unfoldable pub enforce_limit_for_user : ℕ → ℕ → String → List Session → List Session
  unfolding evict active_sessions evict_count
  enforce_limit_for_user max_per_user now user_id rows =
      let active = active_sessions now user_id rows in
      evict (take (evict_count max_per_user (length active)) active) rows

  pub revoke : String → List Session → List Session
  unfolding delete
  revoke id rows = elim (table.find (λ s. s.id == id) rows) [
    | none ↦ rows
    | some s ↦ delete s.sid rows
  ]

  pub purge_expired : ℕ → List Session → List Session
  unfolding delete_expired
  purge_expired now rows = delete_expired now rows
