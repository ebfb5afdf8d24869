-- ===== src/Repositories.antt =====
-- server/src/data/repositories: the queries and writes of each table, over the Prisma client.
pub mod Errors
pub mod Users
pub mod UserOAuthIdentities
pub mod OAuthProviders
pub mod Sessions
pub mod SystemMetadata
pub mod TaskRuns
pub mod Logs
pub mod Services
pub mod Policies
pub mod Subscriptions
pub mod Accounts
pub mod Invites
