-- ===== src/Model/State.antt =====
-- What a request can read and change: the rows of the tables, the calls that were made to the
-- integrations, the events that were emitted, and the time at which the request is handled.
use home_gate.Common.{ℕ, String, Option, List}
use home_gate.Model.Enums.{IntegrationProvider, ScheduledTask}
use home_gate.Model.Records.{
  User, Service, Subscription, ExternalUserAccount, UserServicePolicy, Invite, InviteAccount,
  UserOAuthIdentity, OAuthProvider, Session, StoredTaskConfig, TaskRun, CronJob, Log,
}
use home_gate.Model.Requests.{FilterApplicationUser, CreateApplicationUser}

-- A call of an integration, with its arguments.
pub data Call : Type 0 where
  get_user : IntegrationProvider → FilterApplicationUser → Call
  get_all_users : IntegrationProvider → Call
  create_user : IntegrationProvider → CreateApplicationUser → Call
  delete_user : IntegrationProvider → FilterApplicationUser → Call
  disable_user : IntegrationProvider → FilterApplicationUser → Call
  enable_user : IntegrationProvider → FilterApplicationUser → Call
  reset_password : IntegrationProvider → FilterApplicationUser → String → Call

pub data Event : Type 0 where
  invite_claimed : String → List InviteAccount → Event
  subscription_changed service_policy_changed : String → Event

pub record World : Type 0 where
  pub users : List User
  pub services : List Service
  pub subscriptions : List Subscription
  pub accounts : List ExternalUserAccount
  pub policies : List UserServicePolicy
  pub invites : List Invite
  pub identities : List UserOAuthIdentity
  pub oauth_providers : List OAuthProvider
  pub sessions : List Session
  pub task_runs : List TaskRun
  pub logs : List Log
  -- The row TASKS of the system's metadata, if it is there.
  pub task_config : Option (ScheduledTask → Option StoredTaskConfig)
  -- The state of the scheduler: its registry of jobs and the tasks that it has discovered.
  pub jobs : List CronJob
  pub discovered : List ScheduledTask
  -- Newest first.
  pub calls : List Call
  pub events : List Event
  pub now : ℕ
  -- How many rows were created: the source of fresh ids.
  pub created : ℕ
  -- How many random numbers were drawn.
  pub drawn : ℕ
