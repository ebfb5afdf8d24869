-- ===== src/SchedulerService/Jobs.antt =====
-- The scheduler's registry of jobs.
use home_gate.SchedulerService.{get_job, change_job}
use home_gate.Model.{ScheduledTask, task_beq_iff, CronJob, World, task_eq}
use home_gate.Common.{
  ◌≡◌, refl, Bool, true, false, none, some, List, [], ◌∷◌, ◌++◌, map, arith, ◌==◌, if◌then◌else◌,
  first, nat_eq, string_eq,
}
use mathlib.Core.Option

same_task : (a b c : ScheduledTask) → (a == b) ≡ true → (a == c) ≡ (b == c)
same_task a b c e = rw ((task_beq_iff a b).0 e) refl

module _ (task : ScheduledTask) (f : CronJob → CronJob) where
  -- A change that keeps the names changes the job of that name.
  pub get_job-change_job :
      (w : World)
      → ((j : CronJob) → (f j).name ≡ j.name)
      → get_job task (change_job task f w) ≡ Option.map f (get_job task w)
  get_job-change_job w h = go w.jobs
    where
      go :
          (l : List CronJob)
          → first (λ j. j.name == task) (map (λ (j : CronJob). if j.name == task then f j else j) l)
            ≡ Option.map f (first (λ j. j.name == task) l)
      go [] = refl
      go (j ∷ l) = ground (arith, go l, h j)

  -- The jobs of the other names are left alone.
  pub get_job-change_job_other :
      (other_task : ScheduledTask) (w : World)
      → ((j : CronJob) → (f j).name ≡ j.name)
      → (task == other_task) ≡ false
      → get_job other_task (change_job task f w) ≡ get_job other_task w
  get_job-change_job_other other_task w h e = go w.jobs
    where
      go :
          (l : List CronJob)
          → first
              (λ j. j.name == other_task)
              (map (λ (j : CronJob). if j.name == task then f j else j) l)
            ≡ first (λ j. j.name == other_task) l
      go [] = refl
      go (j ∷ l) = ground (arith, go l, h j, same_task j.name task other_task)

pub first-append :
    {A : Type 0} (p : A → Bool) (l : List A) (a : A)
    → first p l ≡ none
    → first p (l ++ a ∷ []) ≡ (if p a then some a else none)
first-append p [] a e = refl
first-append p (x ∷ l) a e = ground (arith, first-append p l a)

pub first-append_other :
    {A : Type 0} (p : A → Bool) (l : List A) (a : A)
    → p a ≡ false
    → first p (l ++ a ∷ []) ≡ first p l
first-append_other p [] a e = ground arith
first-append_other p (x ∷ l) a e = ground (arith, first-append_other p l a e)
