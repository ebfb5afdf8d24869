-- ===== src/TaskService/Runs.antt =====
-- What a run of a task leaves behind.

use home_gate.TaskService.{record_run, run_task}
use home_gate.Environment.{Environment}
use home_gate.Model.{ScheduledTask, task_beq_iff, TaskRun, World, task_eq}
use home_gate.Effects.{Outcome, M, final, returned, threw}
use home_gate.Common.{ℕ, ◌+◌, ◌≡◌, refl, Bool, false, List, arith, ◌==◌, length, nat_eq, string_eq}
use home_gate.Repositories.TaskRuns

-- What the work answers, false where it throws.
abbrev pub answer : Outcome Bool → Bool
answer (returned b w) = b
answer (threw e w) = false

module _ (env : Environment) where
  abbrev pub runs_of : ScheduledTask → World → ℕ
  runs_of task w = length (env.task_runs.find_many (λ r. r.task_name == task) w.task_runs)

  -- A run of a task returns whatever its work does, and exactly one run more of this task is stored
  -- than the work has left. Its answer is the work's, false where the work throws.
  pub run_task-returns :
      (task : ScheduledTask) (work : M Bool) (w : World)
      → (run_task env task work w ≡ returned (answer (work w)) (final (run_task env task work w)))
        × (runs_of task (final (run_task env task work w)) ≡ runs_of task (final (work w)) + 1)
  unfolding run_task record_run TaskRuns.create
  run_task-returns task work w = go (work w) refl
    where
      one_more :
          (r : TaskRun) (rows : List TaskRun)
          → r.task_name ≡ task
          → length
              (env.task_runs.find_many (λ r. r.task_name == task) (env.task_runs.insert r rows))
            ≡ length (env.task_runs.find_many (λ r. r.task_name == task) rows) + 1
      one_more r rows e = ground (
        arith,
        env.task_runs.count-insert (λ r. r.task_name == task) r rows,
        (task_beq_iff r.task_name task).1 e,
      )

      go :
          (o : Outcome Bool)
          → work w ≡ o
          → (run_task env task work w ≡ returned (answer o) (final (run_task env task work w)))
            × (runs_of task (final (run_task env task work w)) ≡ runs_of task (final o) + 1)
      go (returned b v) e = rw (e, run_task, record_run) (refl, one_more _ v.task_runs refl)
      go (threw x v) e = rw (e, run_task, record_run) (refl, one_more _ v.task_runs refl)
