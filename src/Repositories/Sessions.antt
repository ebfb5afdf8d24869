-- ===== src/Repositories/Sessions.antt =====
-- server/src/data/repositories/session.repository.ts: the reads and writes by the hash of the
-- session id, which is unique, and by user.
use home_gate.Repositories.Errors.{map_prisma_error, p2002, p2025}
use home_gate.Environment.{Environment}
use home_gate.Effects.{M, returned, threw}
use home_gate.Model.{Session, World}
use home_gate.Common.{
  ℕ, ◌+◌, String, Option, none, some, ltb, ◌==◌, is_value, length, nat_eq, string_eq,
}

-- CreateSessionModel and UpdateSessionModel, of which an update leaves the user alone.
pub record WriteSession : Type 0 where
  pub sid : String
  pub payload : String
  pub expires_at : ℕ
  pub ip_address : Option String
  pub user_agent : Option String
  pub device : Option String
  pub browser : Option String

abbrev pub new_row : String → ℕ → Option String → WriteSession → Session
new_row id now user_id request = record {
  id = id;
  user_id = user_id;
  sid = request.sid;
  payload = request.payload;
  ip_address = request.ip_address;
  user_agent = request.user_agent;
  device = request.device;
  browser = request.browser;
  expires_at = request.expires_at;
  created_at = now;
}

abbrev pub updated : WriteSession → Session → Session
updated request s = record s {
  payload = request.payload;
  ip_address = request.ip_address;
  user_agent = request.user_agent;
  device = request.device;
  browser = request.browser;
  expires_at = request.expires_at;
}

module _ (env : Environment) where
  unfoldable pub find_by_id : String → World → Option Session
  find_by_id sid w = env.sessions.find (λ s. s.sid == sid) w.sessions

  unfoldable pub create : Option String → WriteSession → M (Option Session)
  create user_id request w = elim (find_by_id request.sid w) [
    | some taken ↦ threw (map_prisma_error p2002) w
    | none ↦
        let row = new_row (env.uuid w.created) w.now user_id request in
        returned (some row)
          (record w { sessions = env.sessions.insert row w.sessions; created = w.created + 1 })
  ]

  unfoldable pub update : WriteSession → M (Option Session)
  update request w = elim (find_by_id request.sid w) [
    | none ↦ threw (map_prisma_error p2025) w
    | some s ↦ returned (some (updated request s)) (record w {
      sessions = env.sessions.update (λ s. s.sid == request.sid) (updated request) w.sessions;
    })
  ]

  -- `updateMany`, which does not throw where the session is gone, and a read.
  unfoldable pub touch : String → ℕ → M (Option Session)
  touch sid expires_at w =
      let w' : World = record w {
        sessions =
            env.sessions.update (λ s. s.sid == sid) (λ s. record s { expires_at = expires_at })
              w.sessions;
      } in
      returned (find_by_id sid w') w'

  -- A line of the log that names the session would forbid a delete, here and below (onDelete:
  -- NoAction); the server writes none that does.
  unfoldable pub delete : String → M (Unit {0})
  delete sid w =
      returned tt (record w { sessions = env.sessions.remove (λ s. s.sid == sid) w.sessions })

  unfoldable pub delete_expired : ℕ → M ℕ
  delete_expired cutoff w =
      returned (length (env.sessions.find_many (λ s. ltb s.expires_at cutoff) w.sessions))
        (record w { sessions = env.sessions.remove (λ s. ltb s.expires_at cutoff) w.sessions })

  unfoldable pub delete_by_user_id : String → M (Unit {0})
  delete_by_user_id user_id w =
      returned tt
        (record w { sessions = env.sessions.remove (λ s. is_value s.user_id user_id) w.sessions })
