-- ===== src/Repositories/TaskRuns.antt =====
-- server/src/data/repositories/taskRun.repository.ts, the writes and the latest runs.
use home_gate.Environment.{Environment}
use home_gate.Effects.{M, returned}
use home_gate.Model.{ScheduledTask, TaskRun, World, task_eq}
use home_gate.Common.{
  ℕ, ◌+◌, String, Bool, ◌&&◌, Option, none, some, List, [], ◌∷◌, ltb, ◌==◌, if◌then◌else◌, length,
  nat_eq, string_eq,
}

-- `orderBy: { startedAt: 'desc' }`, of which the first is taken. Of runs that start at the same time
-- it is the one that the database lists first.
abbrev pub latest : List TaskRun → Option TaskRun
latest [] = none
latest (r ∷ rest) =
    let later = latest rest in
    elim later [ none ↦ some r | some s ↦ if ltb r.started_at s.started_at then some s else some r ]

module _ (env : Environment) where
  unfoldable pub create : ScheduledTask → ℕ → ℕ → Bool → Option String → M TaskRun
  create task_name started_at finished_at success error_message w =
      let row : TaskRun = record {
        id = env.uuid w.created;
        task_name = task_name;
        started_at = started_at;
        finished_at = finished_at;
        success = success;
        error_message = error_message;
      } in
      returned row
        (record w { task_runs = env.task_runs.insert row w.task_runs; created = w.created + 1 })

  unfoldable pub delete_older_than : ℕ → M ℕ
  delete_older_than cutoff w =
      returned (length (env.task_runs.find_many (λ r. ltb r.started_at cutoff) w.task_runs))
        (record w { task_runs = env.task_runs.remove (λ r. ltb r.started_at cutoff) w.task_runs })

  unfoldable pub find_latest : ScheduledTask → World → Option TaskRun
  find_latest task_name w =
      latest (env.task_runs.find_many (λ r. r.task_name == task_name) w.task_runs)

  unfoldable pub find_latest_successful : ScheduledTask → World → Option TaskRun
  find_latest_successful task_name w =
      latest (env.task_runs.find_many (λ r. r.task_name == task_name && r.success) w.task_runs)
