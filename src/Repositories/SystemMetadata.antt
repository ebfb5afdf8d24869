-- ===== src/Repositories/SystemMetadata.antt =====
-- server/src/data/repositories/systemMetadata.repository.ts for the key TASKS, whose defaults are those
-- of config.defaults.ts.
use home_gate.Environment.{Environment}
use home_gate.Effects.{M, returned}
use home_gate.Model.{
  ScheduledTask, CronExpression, process_subscriptions, cleanup_stale_local_accounts,
  sync_integration_accounts, cleanup_deleted_users, purge_old_logs, purge_old_task_runs,
  purge_expired_sessions, every_hour, every_12_hours, every_day_at_midnight, every_day_at_1am,
  every_day_at_2am, every_day_at_3am, TaskConfig, StoredTaskConfig, World,
}
use home_gate.Common.{
  Bool, true, false, not, Option, none, some, List, [], ◌∷◌, is_some, or_else, keep,
}

-- `Object.values(ScheduledTasks)`
abbrev pub all_tasks : List ScheduledTask
all_tasks =
    process_subscriptions ∷ cleanup_stale_local_accounts ∷ sync_integration_accounts
    ∷ cleanup_deleted_users ∷ purge_old_logs ∷ purge_old_task_runs ∷ purge_expired_sessions ∷ []

abbrev default_of : Environment → Bool → CronExpression → TaskConfig
default_of env run_on_startup expression = record {
  enabled = true;
  run_on_startup = run_on_startup;
  cron_expression = env.cron_text expression;
}

pub task_defaults : Environment → ScheduledTask → TaskConfig
task_defaults env process_subscriptions = default_of env true every_hour
task_defaults env sync_integration_accounts = default_of env true every_12_hours
task_defaults env cleanup_stale_local_accounts = default_of env true every_12_hours
task_defaults env cleanup_deleted_users = default_of env false every_day_at_midnight
task_defaults env purge_old_logs = default_of env false every_day_at_1am
task_defaults env purge_old_task_runs = default_of env false every_day_at_2am
task_defaults env purge_expired_sessions = default_of env false every_day_at_3am

-- `deepMerge` of a task's defaults and what is stored of it.
abbrev pub deep_merge : TaskConfig → Option StoredTaskConfig → TaskConfig
deep_merge defaults none = defaults
deep_merge defaults (some stored) = record {
  enabled = or_else stored.enabled defaults.enabled;
  run_on_startup = or_else stored.run_on_startup defaults.run_on_startup;
  cron_expression = or_else stored.cron_expression defaults.cron_expression;
}

abbrev pub to_stored : TaskConfig → StoredTaskConfig
to_stored c = record {
  enabled = some c.enabled;
  run_on_startup = some c.run_on_startup;
  cron_expression = some c.cron_expression;
}

module _ (env : Environment) where
  unfoldable pub get : World → ScheduledTask → TaskConfig
  get w task = elim w.task_config [
    | none ↦ task_defaults env task
    | some stored ↦ deep_merge (task_defaults env task) (stored task)
  ]

  unfoldable pub set : (ScheduledTask → TaskConfig) → M (Unit {0})
  set config w =
      returned tt (record w { task_config = some (λ task. some (to_stored (config task))) })

  -- The tasks that the stored row does not name.
  abbrev new_keys : (ScheduledTask → Option StoredTaskConfig) → List ScheduledTask
  new_keys stored = keep (λ task. not (is_some (stored task))) all_tasks

  -- The row is completed from the defaults, where it is there and lacks a task.
  unfoldable pub sync_defaults : M (List ScheduledTask)
  sync_defaults w = elim w.task_config [
    | none ↦ returned [] w
    | some stored ↦ elim (new_keys stored) [
      | [] ↦ returned [] w
      | task ∷ tasks ↦ returned (task ∷ tasks) (record w {
        task_config = some (λ t. some (to_stored (deep_merge (task_defaults env t) (stored t))));
      })
    ]
  ]
