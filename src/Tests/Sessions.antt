-- ===== src/Tests/Sessions.antt =====
-- The theorem on the limit of sessions at a concrete input.

use home_gate.Model.{Session}
use home_gate.SessionService.{enforce_limit_for_user}
use home_gate.Database.Memory.{in_memory}
use home_gate.Common.{ℕ, String, ◌≡◌, refl, none, some, List, [], ◌∷◌}

abbrev session_of : String → ℕ → Session
session_of sid created_at = record {
  id = sid;
  user_id = some "bob";
  sid = sid;
  payload = "{}";
  ip_address = none;
  user_agent = none;
  device = none;
  browser = none;
  expires_at = 9000;
  created_at = created_at;
}

abbrev sessions : List Session
sessions = session_of "new" 30 ∷ session_of "old" 10 ∷ session_of "middle" 20 ∷ []

-- The oldest two of three sessions are evicted under a limit of two.
limit_of_two : enforce_limit_for_user in_memory 2 1000 "bob" sessions ≡ session_of "new" 30 ∷ []
unfolding enforce_limit_for_user
limit_of_two = refl
