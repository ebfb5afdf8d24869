-- ===== src/Tests.antt =====
-- The theorems at concrete inputs, on a small server.
mod Fixtures
mod SignUp
mod Subscribing
mod Subscriptions
mod Lifecycle
mod Derived
mod Invites
mod Access
mod Sessions
mod Users
mod Services
mod Images
mod Background
