-- ===== src/Model/Enums.antt =====
-- server/src/types/enums.ts, with the enumerations of models/user.ts and models/invite.ts.
use home_gate.Common.{◌≡◌, ◌↔◌, Bool, true, false, arith, Eq, ℕ, ◌==◌, nat_eq}

pub data IntegrationProvider : Type 0 where
  jellyfin immich : IntegrationProvider

pub data AccountType : Type 0 where
  managed referenced no_account : AccountType

pub data SubscriptionStatus : Type 0 where
  provisioning active failed cancelling cancelled expired : SubscriptionStatus
  disabling disabled enabling : SubscriptionStatus

pub data FailedOperation : Type 0 where
  provisioning cancellation expiration sync : FailedOperation

pub data PolicyEffect : Type 0 where
  allow deny : PolicyEffect

pub data UserStatus : Type 0 where
  active pending disabled deleted : UserStatus

pub data InviteRevokedReason : Type 0 where
  admin auto_failed_attempts auto_superseded : InviteRevokedReason

-- `status === …` for the values that the server tests.
abbrev pub is_active : SubscriptionStatus → Bool
is_active SubscriptionStatus.active = true
is_active _ = false

abbrev pub is_failed : SubscriptionStatus → Bool
is_failed SubscriptionStatus.failed = true
is_failed _ = false

abbrev pub is_disabled : SubscriptionStatus → Bool
is_disabled SubscriptionStatus.disabled = true
is_disabled _ = false

abbrev pub is_cancelled : SubscriptionStatus → Bool
is_cancelled SubscriptionStatus.cancelled = true
is_cancelled _ = false

abbrev pub is_managed : AccountType → Bool
is_managed managed = true
is_managed _ = false

abbrev pub is_referenced : AccountType → Bool
is_referenced referenced = true
is_referenced _ = false

abbrev pub is_allow : PolicyEffect → Bool
is_allow allow = true
is_allow deny = false

abbrev pub is_active_user : UserStatus → Bool
is_active_user UserStatus.active = true
is_active_user _ = false

abbrev pub is_pending_user : UserStatus → Bool
is_pending_user UserStatus.pending = true
is_pending_user _ = false

abbrev pub is_deleted_user : UserStatus → Bool
is_deleted_user UserStatus.deleted = true
is_deleted_user _ = false

abbrev pub provider_beq : IntegrationProvider → IntegrationProvider → Bool
provider_beq jellyfin jellyfin = true
provider_beq immich immich = true
provider_beq _ _ = false

pub provider_beq_iff : (a b : IntegrationProvider) → (provider_beq a b ≡ true) ↔ (a ≡ b)
provider_beq_iff a b = ground arith

instance abbrev pub provider_eq : Eq IntegrationProvider
provider_eq = record { beq = provider_beq; beq_iff = provider_beq_iff }

-- ScheduledTasks
pub data ScheduledTask : Type 0 where
  process_subscriptions cleanup_stale_local_accounts sync_integration_accounts : ScheduledTask
  cleanup_deleted_users purge_old_logs purge_old_task_runs purge_expired_sessions : ScheduledTask

abbrev pub task_number : ScheduledTask → ℕ
task_number process_subscriptions = 0
task_number cleanup_stale_local_accounts = 1
task_number sync_integration_accounts = 2
task_number cleanup_deleted_users = 3
task_number purge_old_logs = 4
task_number purge_old_task_runs = 5
task_number purge_expired_sessions = 6

abbrev pub task_beq : ScheduledTask → ScheduledTask → Bool
task_beq a b = task_number a == task_number b

pub task_beq_iff : (a b : ScheduledTask) → (task_beq a b ≡ true) ↔ (a ≡ b)
task_beq_iff a b = ground arith

instance abbrev pub task_eq : Eq ScheduledTask
task_eq = record { beq = task_beq; beq_iff = task_beq_iff }

-- The constants of CronExpression (@nestjs/schedule) that the server uses.
pub data CronExpression : Type 0 where
  every_hour every_12_hours every_day_at_midnight : CronExpression
  every_day_at_1am every_day_at_2am every_day_at_3am : CronExpression
