-- ===== src/SubscriptionLifecycle.antt =====
-- server/src/api/services/subscriptionLifecycle.service.ts, in child modules.
pub mod Expiring
pub mod Syncing
pub mod Retrying
