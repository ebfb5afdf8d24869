-- ===== src/TaskService.antt =====
-- server/src/api/services/tasks.service.ts, with `purgeOldLogs` of log.service.ts. The retention times are
-- those of server/src/types/task.constants.ts.
pub mod Runs
use home_gate.UserService.Changing.{purge_deleted_users}
use home_gate.Environment.{Environment}
use home_gate.Effects.{Error, M, ◌>>◌, pure, gets, try_catch, http, plain, returned, threw, ◌>>=◌}
use home_gate.Model.{
  ScheduledTask, process_subscriptions, cleanup_stale_local_accounts, sync_integration_accounts,
  cleanup_deleted_users, purge_old_logs, purge_old_task_runs, purge_expired_sessions,
}
use home_gate.Common.{ℕ, ◌-◌, ◌*◌, String, Bool, true, false, Option, none, some}
use home_gate.Repositories.TaskRuns
use home_gate.Repositories.Logs
use home_gate.Repositories.Sessions
use home_gate.SubscriptionLifecycle.Expiring
use home_gate.SubscriptionLifecycle.Syncing

abbrev pub deleted_user_retention_days : ℕ
deleted_user_retention_days = 60

abbrev pub log_retention_days : ℕ
log_retention_days = 30

abbrev pub task_run_retention_days : ℕ
task_run_retention_days = 60

module _ (env : Environment) where
  -- `error instanceof Error ? error.message : String(error)`
  abbrev pub message_of : Error → String
  message_of (http status text) = text
  message_of (plain text) = text
  message_of _ = env.other_text

  -- The last `try` of `runTask`: a run that cannot be stored is only logged.
  unfoldable pub record_run : ScheduledTask → ℕ → Bool → Option String → M Bool
  record_run task_name started_at success error_message w =
      try_catch
        (TaskRuns.create env task_name started_at w.now success error_message >> pure success)
        (λ e. pure success) w

  -- The run is stored whether the work returns or throws. The time stands still in the model.
  unfoldable pub run_task : ScheduledTask → M Bool → M Bool
  unfolding record_run
  run_task task_name work w = elim (work w) [
    | returned success v ↦ record_run task_name w.now success none v
    | threw e v ↦ record_run task_name w.now false (some (message_of e)) v
  ]

  purge_old_logs_work : M Bool
  purge_old_logs_work = do
    now ← gets (λ w. w.now)
    Logs.delete_older_than env (now - log_retention_days * 86400000)
    pure true

  purge_old_task_runs_work : M Bool
  purge_old_task_runs_work = do
    now ← gets (λ w. w.now)
    TaskRuns.delete_older_than env (now - task_run_retention_days * 86400000)
    pure true

  purge_expired_sessions_work : M Bool
  purge_expired_sessions_work = do
    now ← gets (λ w. w.now)
    Sessions.delete_expired env now
    pure true

  -- What each handler has done.
  pub work_of : ScheduledTask → M Bool
  unfolding purge_old_logs_work purge_old_task_runs_work purge_expired_sessions_work
  work_of process_subscriptions = Expiring.process_subscriptions env
  work_of sync_integration_accounts = Syncing.sync_integration_accounts env
  work_of cleanup_stale_local_accounts = Syncing.cleanup_stale_local_accounts env
  work_of cleanup_deleted_users = purge_deleted_users env deleted_user_retention_days
  work_of purge_old_logs = purge_old_logs_work
  work_of purge_old_task_runs = purge_old_task_runs_work
  work_of purge_expired_sessions = purge_expired_sessions_work

  -- The method that is decorated with this task.
  unfoldable pub handler : ScheduledTask → M Bool
  unfolding work_of
  handler task = run_task task (work_of task)
