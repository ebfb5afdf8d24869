-- ===== src/SessionService/Limit.antt =====
-- How many sessions a user has after `enforceLimitForUser`.

use home_gate.Model.{Session}
use home_gate.SessionService.{is_unexpired}
use home_gate.Database.{Table}
use home_gate.Common.{ℕ, String, Bool, ◌&&◌, List, ◌==◌, is_value, any, nat_eq, string_eq}

-- One of the sessions of the list has the session's `sid`.
abbrev gone : List Session → Session → Bool
gone l s = any (λ x. s.sid == x.sid) l

module _ (table : Table Session) where
  abbrev is_active_of : ℕ → String → Session → Bool
  is_active_of now user_id s = is_value s.user_id user_id && is_unexpired now s
