-- ===== src/SchedulerService.antt =====
-- server/src/api/services/scheduler.service.ts. The library's registry of cron jobs is the list `jobs` of the
-- state, in which a name is registered once.
pub mod Jobs
pub mod Updating
pub mod Applying
use home_gate.TaskService.{handler}
use home_gate.Repositories.SystemMetadata.{all_tasks}
use home_gate.Environment.{Environment}
use home_gate.Effects.{
  Error, M, ◌>>◌, pure, gets, try_catch, for_each, bad_request, http, plain, returned, threw, ◌>>=◌,
}
use home_gate.Model.{ScheduledTask, TaskConfig, TaskRun, CronJob, World, task_eq}
use home_gate.Common.{
  ℕ, ◌-◌, String, Bool, true, false, not, ◌&&◌, Option, none, some, List, [], ◌∷◌, ◌++◌, map, ◌==◌,
  if◌then◌else◌, or_else, holds, any, first, nat_eq, string_eq,
}
use home_gate.Repositories.TaskRuns
use mathlib.Core.Option
use home_gate.Repositories.SystemMetadata

-- UpdateTaskConfigDto
pub record UpdateTaskConfig : Type 0 where
  pub enabled : Option Bool
  pub run_on_startup : Option Bool
  pub cron_expression : Option String

-- TaskConfigResponseDto
pub record TaskConfigResponse : Type 0 where
  pub name : ScheduledTask
  pub enabled : Bool
  pub run_on_startup : Bool
  pub cron_expression : String
  pub is_active : Bool
  pub last_attempted_run_at : Option ℕ
  pub last_successful_run_at : Option ℕ
  pub last_run_duration_ms : Option ℕ

-- `schedulerRegistry.getCronJob(taskName)`, where it exists.
abbrev pub get_job : ScheduledTask → World → Option CronJob
get_job task w = first (λ j. j.name == task) w.jobs

abbrev pub change_job : ScheduledTask → (CronJob → CronJob) → World → World
change_job task f w = record w {
  jobs = map (λ (j : CronJob). if j.name == task then f j else j) w.jobs;
}

abbrev pub is_discovered : ScheduledTask → World → Bool
is_discovered task w = any (λ t. t == task) w.discovered

abbrev pub updated : UpdateTaskConfig → TaskConfig → TaskConfig
updated dto current = record {
  enabled = or_else dto.enabled current.enabled;
  run_on_startup = or_else dto.run_on_startup current.run_on_startup;
  cron_expression = or_else dto.cron_expression current.cron_expression;
}

-- `taskConfig[taskName] = updated`
abbrev pub with_entry :
    ScheduledTask → TaskConfig → (ScheduledTask → TaskConfig) → ScheduledTask → TaskConfig
with_entry task config configs t = if t == task then config else configs t

module _ (env : Environment) where
  -- The error of the library's constructors.
  abbrev pub invalid_cron : Error
  invalid_cron = plain "invalid cron expression"

  -- A job is started as it is made; the answer is whether one was made.
  unfoldable pub create : ScheduledTask → String → M Bool
  create task cron_expression w = elim (get_job task w) [
    | some job ↦ returned false w
    | none ↦
        if env.is_valid_cron cron_expression
        then returned true (record w {
          jobs =
              w.jobs
              ++ record { name = task; cron_expression = cron_expression; is_active = true } ∷ [];
        })
        else threw invalid_cron w
  ]

  unfoldable pub start : ScheduledTask → M (Unit {0})
  start task w = elim (get_job task w) [
    | none ↦ returned tt w
    | some job ↦ returned tt (change_job task (λ j. record j { is_active = true }) w)
  ]

  unfoldable pub stop : ScheduledTask → M (Unit {0})
  stop task w = elim (get_job task w) [
    | none ↦ returned tt w
    | some job ↦ returned tt (change_job task (λ j. record j { is_active = false }) w)
  ]

  unfoldable pub stop_all : M (Unit {0})
  stop_all w =
      returned tt (record w { jobs = map (λ (j : CronJob). record j { is_active = false }) w.jobs })

  -- The late registration of a task that has no job.
  unfoldable pub register_late : ScheduledTask → TaskConfig → M (Unit {0})
  register_late task config w =
      if is_discovered task w
      then (create task config.cron_expression >> (λ v. returned tt (
            if config.enabled then v else change_job task (λ j. record j { is_active = false }) v)))
          w
      else returned tt w

  unfoldable pub apply_task_config : ScheduledTask → TaskConfig → M (Unit {0})
  apply_task_config task config w = elim (get_job task w) [
    | none ↦ register_late task config w
    | some job ↦
        if not config.enabled
        then returned tt (change_job task (λ j. record j { is_active = false }) w)
        else if env.is_valid_cron config.cron_expression
        then returned tt (
            change_job task
              (λ j. record j { cron_expression = config.cron_expression; is_active = true }) w)
        else threw invalid_cron w
  ]

  -- `validateCronExpression`, where an expression is given.
  unfoldable pub check_cron : Option String → M (Unit {0})
  check_cron none w = returned tt w
  check_cron (some text) w =
      if env.is_valid_cron text
      then returned tt w
      else threw (http bad_request "Invalid cron expression") w

  unfoldable pub store_and_apply : ScheduledTask → UpdateTaskConfig → M (Unit {0})
  store_and_apply task dto w =
      let configs = SystemMetadata.get env w in
      let config = updated dto (configs task) in
      (SystemMetadata.set env (with_entry task config configs) >> apply_task_config task config) w

  -- A run ends no earlier than it starts.
  unfoldable pub get_task_config : ScheduledTask → World → TaskConfigResponse
  get_task_config task w =
      let config = SystemMetadata.get env w task in
      let attempted = TaskRuns.find_latest env task w in
      record {
        name = task;
        enabled = config.enabled;
        run_on_startup = config.run_on_startup;
        cron_expression = config.cron_expression;
        is_active = holds (λ (j : CronJob). j.is_active) (get_job task w);
        last_attempted_run_at = Option.map (λ (r : TaskRun). r.started_at) attempted;
        last_successful_run_at =
            Option.map (λ (r : TaskRun). r.started_at) (TaskRuns.find_latest_successful env task w);
        last_run_duration_ms = Option.map (λ (r : TaskRun). r.finished_at - r.started_at) attempted;
      }

  abbrev pub get_task_configs : World → List TaskConfigResponse
  get_task_configs w = map (λ task. get_task_config task w) all_tasks

  unfoldable pub update_task : ScheduledTask → UpdateTaskConfig → M TaskConfigResponse
  update_task task dto =
      check_cron dto.cron_expression >> (store_and_apply task dto >> gets (get_task_config task))

  unfoldable pub run_now : ScheduledTask → M (Unit {0})
  run_now task w =
      if is_discovered task w
      then (handler env task >> pure tt) w
      else threw (http bad_request "Task has no discovered handler") w

  -- `job.fireOnTick()` at startup, whose failure is logged.
  abbrev fire_on_startup : ScheduledTask → M (Unit {0})
  fire_on_startup task = try_catch (handler env task >> pure tt) (λ e. pure tt)

  abbrev start_enabled : ScheduledTask → TaskConfig → M (Unit {0})
  start_enabled task config = do
    made ← create task config.cron_expression
    if made && config.run_on_startup then fire_on_startup task else pure tt

  -- One round of the loop of `startAll`: a task that is disabled is skipped.
  unfoldable pub start_one : (ScheduledTask → TaskConfig) → ScheduledTask → M (Unit {0})
  start_one configs task =
      if (configs task).enabled then start_enabled task (configs task) else pure tt

  -- Each method of TaskService that is decorated is discovered; all tasks have a default, so that none
  -- lacks a configuration.
  unfoldable pub start_all : M (Unit {0})
  start_all w =
      (SystemMetadata.sync_defaults env
          >> (λ v. for_each (start_one (SystemMetadata.get env v)) all_tasks v))
        (record w { discovered = all_tasks })
