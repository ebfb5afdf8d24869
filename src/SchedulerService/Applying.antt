-- ===== src/SchedulerService/Applying.antt =====
-- What `updateTask` leaves in the configuration and in the registry of jobs.

use home_gate.SchedulerService.Jobs.{
  get_job-change_job, get_job-change_job_other, first-append, first-append_other,
}
use home_gate.SchedulerService.{
  get_job, change_job, is_discovered, create, register_late, apply_task_config,
}
use home_gate.Environment.{Environment}
use home_gate.Model.{ScheduledTask, task_beq_iff, TaskConfig, CronJob, World, task_eq}
use home_gate.Common.{
  ◌≡◌, refl, ap, ◌∙◌, inl, inr, Bool, true, false, none, some, [], ◌∷◌, ◌++◌, arith, ◌==◌,
  if◌then◌else◌, Option-cases, nat_eq, string_eq,
}
use home_gate.Effects.{Outcome, returned}
use mathlib.Core.Option

module _ (env : Environment) (task : ScheduledTask) (config : TaskConfig) where
  -- The job runs as the configuration says.
  abbrev pub Follows : World → Type 0
  Follows w =
      (j : CronJob) × (get_job task w ≡ some j)
      × (j.is_active ≡ config.enabled)
      × (config.enabled ≡ true → j.cron_expression ≡ config.cron_expression)

  abbrev new_job : CronJob
  new_job = record { name = task; cron_expression = config.cron_expression; is_active = true }

  abbrev created : World → World
  created w = record w { jobs = w.jobs ++ new_job ∷ [] }

  create_returned :
      (w : World)
      → get_job task w ≡ none
      → env.is_valid_cron config.cron_expression ≡ true
      → create env task config.cron_expression w ≡ returned true (created w)
  unfolding create
  create_returned w absent valid = ground arith

  get_job-created : (w : World) → get_job task w ≡ none → get_job task (created w) ≡ some new_job
  get_job-created w absent = ground (
    arith,
    first-append (λ j. j.name == task) w.jobs new_job absent,
    (task_beq_iff task task).1 refl,
  )

  get_job-created_other :
      (w : World) (t : ScheduledTask) → (task == t) ≡ false → get_job t (created w) ≡ get_job t w
  get_job-created_other w t e = first-append_other (λ j. j.name == t) w.jobs new_job e

  abbrev stopped : CronJob → CronJob
  stopped j = record j { is_active = false }

  abbrev retimed : CronJob → CronJob
  retimed j = record j { cron_expression = config.cron_expression; is_active = true }

  -- The others' jobs and the stored configuration are left alone.
  abbrev Apart : World → World → Type 0
  Apart w v =
      ((t : ScheduledTask) → (task == t) ≡ false → get_job t v ≡ get_job t w)
      × (v.task_config ≡ w.task_config)

  abbrev Applied : World → Outcome (Unit {0}) → Type 0
  Applied w o = (v : World) × (o ≡ returned tt v) × Follows v × Apart w v

  -- What `registerLate` and the change of a job end in.
  abbrev late : World → World
  late w = if config.enabled then created w else change_job task stopped (created w)

  register_late_returned :
      (w : World)
      → get_job task w ≡ none
      → is_discovered task w ≡ true
      → env.is_valid_cron config.cron_expression ≡ true
      → register_late env task config w ≡ returned tt (late w)
  unfolding register_late
  register_late_returned w absent known valid = ground (arith, create_returned w absent valid)

  late-Follows : (w : World) → get_job task w ≡ none → Follows (late w) × Apart w (late w)
  late-Follows w absent = go config.enabled refl
    where
      go : (b : Bool) → config.enabled ≡ b → Follows (late w) × Apart w (late w)
      go true e =
          rw e
            ((new_job, get_job-created w absent, refl, λ _. refl), (get_job-created_other w, refl))
      go false e = rw e (
        (
          stopped new_job,
          get_job-change_job task stopped (created w) (λ i. refl)
              ∙ ap (Option.map stopped) (get_job-created w absent),
          refl,
          λ f. absurd (ground arith),
        ),
        (
          (λ t d.
              get_job-change_job_other task stopped t (created w) (λ i. refl) d
              ∙ get_job-created_other w t d),
          refl,
        ),
      )

  abbrev changed : World → World
  changed w = if config.enabled then change_job task retimed w else change_job task stopped w

  apply_task_config_returned :
      (w : World) (j : CronJob)
      → get_job task w ≡ some j
      → env.is_valid_cron config.cron_expression ≡ true
      → apply_task_config env task config w ≡ returned tt (changed w)
  unfolding apply_task_config
  apply_task_config_returned w j present valid = ground arith

  changed-Follows :
      (w : World) (j : CronJob)
      → get_job task w ≡ some j
      → Follows (changed w) × Apart w (changed w)
  changed-Follows w j present = go config.enabled refl
    where
      go : (b : Bool) → config.enabled ≡ b → Follows (changed w) × Apart w (changed w)
      go true e = rw e (
        (
          retimed j,
          get_job-change_job task retimed w (λ i. refl) ∙ ap (Option.map retimed) present,
          refl,
          λ _. refl,
        ),
        ((λ t d. get_job-change_job_other task retimed t w (λ i. refl) d), refl),
      )
      go false e = rw e (
        (
          stopped j,
          get_job-change_job task stopped w (λ i. refl) ∙ ap (Option.map stopped) present,
          refl,
          λ f. absurd (ground arith),
        ),
        ((λ t d. get_job-change_job_other task stopped t w (λ i. refl) d), refl),
      )

  -- Where the task is discovered and the expression is valid, a new configuration is applied: the
  -- task then has a job, which is active exactly if the task is enabled and, if so, runs at the
  -- times of the configuration. The jobs of the other tasks and what is stored stay as they were.
  pub apply_task_config-Applied :
      (w : World)
      → is_discovered task w ≡ true
      → env.is_valid_cron config.cron_expression ≡ true
      → Applied w (apply_task_config env task config w)
  unfolding apply_task_config
  apply_task_config-Applied w known valid = elim (Option-cases (get_job task w)) [
    | inl e ↦ (
      late w,
      ground (arith, register_late_returned w e known valid),
      (late-Follows w e).0,
      (late-Follows w e).1,
    )
    | inr (j, e) ↦ (
      changed w,
      apply_task_config_returned w j e valid,
      (changed-Follows w j e).0,
      (changed-Follows w j e).1,
    )
  ]
