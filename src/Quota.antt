-- ===== src/Quota.antt =====
-- resource-cal/main.go: the reconciler of a ProjectQuota, which adds up what the namespaces of a
-- project use, and the watches that trigger it.
pub mod Types
pub mod Kinds
pub mod Usage
pub mod Status
pub mod Watcher
pub mod Requests
