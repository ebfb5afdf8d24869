-- ===== src/SchedulerService/Updating.antt =====
-- What `updateTask` leaves in the stored configuration and in the registry of jobs.
use home_gate.Repositories.SystemMetadata.{to_stored}
use home_gate.SchedulerService.Applying.{Follows, apply_task_config-Applied}
use home_gate.SchedulerService.{
  UpdateTaskConfig, TaskConfigResponse, get_job, is_discovered, updated, with_entry,
  apply_task_config, check_cron, store_and_apply, get_task_config, update_task,
}
use home_gate.Environment.{Environment}
use home_gate.Model.{ScheduledTask, task_beq_iff, TaskConfig, CronJob, World, task_eq}
use home_gate.Common.{
  ◌≡◌, refl, ap, ◌∙◌, inl, inr, true, false, some, arith, ◌==◌, Option-cases, holds, nat_eq,
  string_eq,
}
use home_gate.Effects.{◌>>◌, gets, then_returned, returned}
use home_gate.Repositories.SystemMetadata

with_entry_same :
    (task : ScheduledTask) (config : TaskConfig) (configs : ScheduledTask → TaskConfig)
    → with_entry task config configs task ≡ config
with_entry_same task config configs = ground (arith, (task_beq_iff task task).1 refl)

with_entry_other :
    (task t : ScheduledTask) (config : TaskConfig) (configs : ScheduledTask → TaskConfig)
    → (task == t) ≡ false
    → with_entry task config configs t ≡ configs t
with_entry_other task t config configs d = ground arith

module _ (env : Environment) (task : ScheduledTask) (dto : UpdateTaskConfig) (w : World) where
  -- The configuration that the request asks for.
  abbrev pub asked : TaskConfig
  asked = updated dto (SystemMetadata.get env w task)

  abbrev configs : ScheduledTask → TaskConfig
  configs = with_entry task asked (SystemMetadata.get env w)

  abbrev stored : World
  stored = record w { task_config = some (λ t. some (to_stored (configs t))) }

  -- The other tasks keep their jobs and their configurations.
  abbrev pub OthersKept : World → Type 0
  OthersKept v =
      (t : ScheduledTask)
      → (task == t) ≡ false
      → (get_job t v ≡ get_job t w) × (SystemMetadata.get env v t ≡ SystemMetadata.get env w t)

  check_cron_returned :
      env.is_valid_cron asked.cron_expression ≡ true
      → check_cron env dto.cron_expression w ≡ returned tt w
  unfolding check_cron
  check_cron_returned valid = elim (Option-cases dto.cron_expression) [
    | inl e ↦ rw e refl
    | inr (text, e) ↦ ground arith
  ]

  get_stored :
      (v : World)
      → v.task_config ≡ stored.task_config
      → (t : ScheduledTask) → SystemMetadata.get env v t ≡ configs t
  unfolding SystemMetadata.get
  get_stored v e t = rw e refl

  store_and_apply_returned :
      (v : World)
      → apply_task_config env task asked stored ≡ returned tt v
      → store_and_apply env task dto w ≡ returned tt v
  unfolding store_and_apply SystemMetadata.set
  store_and_apply_returned v e = e

  -- What the answer says of the task is so in this state.
  abbrev pub Reports : TaskConfigResponse → Type 0
  Reports r =
      (r.enabled ≡ asked.enabled)
      × (r.run_on_startup ≡ asked.run_on_startup)
      × (r.cron_expression ≡ asked.cron_expression)
      × (r.is_active ≡ asked.enabled)

  reported :
      (v : World)
      → SystemMetadata.get env v task ≡ asked
      → Follows env task asked v
      → Reports (get_task_config env task v)
  unfolding get_task_config
  reported v e (j, f, g, h) = (
    ap (λ (c : TaskConfig). c.enabled) e,
    ap (λ (c : TaskConfig). c.run_on_startup) e,
    ap (λ (c : TaskConfig). c.cron_expression) e,
    ap (λ o. holds (λ (i : CronJob). i.is_active) o) f ∙ g,
  )

  -- Where the task is discovered and the asked expression is valid, an update returns. What the
  -- request leaves out keeps its value; the stored configuration is then the asked one, and the
  -- task has a job that is active exactly if the task is enabled and, if so, runs at the asked
  -- times. The answer has the asked configuration and says whether the job is active. The other
  -- tasks keep their jobs and their configurations.
  pub update_task-Follows :
      is_discovered task w ≡ true
      → env.is_valid_cron asked.cron_expression ≡ true
      → (v : World) × (r : TaskConfigResponse) × (update_task env task dto w ≡ returned r v)
        × Reports r
        × (SystemMetadata.get env v task ≡ asked)
        × Follows env task asked v
        × OthersKept v
  unfolding update_task
  update_task-Follows known valid =
      let (v, e, f, (others, same)) = apply_task_config-Applied env task asked stored known valid in
      let kept = get_stored v same task ∙ with_entry_same task asked (SystemMetadata.get env w) in
      (
        v,
        get_task_config env task v,
        then_returned (check_cron env dto.cron_expression)
              (store_and_apply env task dto >> gets (get_task_config env task)) w w tt
              (check_cron_returned valid)
            ∙ then_returned (store_and_apply env task dto) (gets (get_task_config env task)) w v tt
                (store_and_apply_returned v e),
        reported v kept f,
        kept,
        f,
        λ t d. (
          others t d,
          get_stored v same t ∙ with_entry_other task t asked (SystemMetadata.get env w) d,
        ),
      )
