-- ===== src/Repositories/Logs.antt =====
-- `deleteOlderThan` of server/src/data/repositories/logging.repository.ts.
use home_gate.Environment.{Environment}
use home_gate.Effects.{M, returned}
use home_gate.Common.{ℕ, ltb, length}

module _ (env : Environment) where
  unfoldable pub delete_older_than : ℕ → M ℕ
  delete_older_than cutoff w =
      returned (length (env.logs.find_many (λ l. ltb l.created_at cutoff) w.logs))
        (record w { logs = env.logs.remove (λ l. ltb l.created_at cutoff) w.logs })
