-- ===== src/Tests.antt =====
-- The theorems at concrete data, and runs of the definitions.
mod Texts
pub mod Machine
pub mod Sync
pub mod Counts
mod Quotas
mod Values
pub mod Rancher
mod Watches
mod Scrapes
mod Virtual
pub mod Bindings
pub mod Access
mod Mains
mod Pods
mod Usages
mod Layers
mod Kinds
mod Patches
mod Operators
mod Clones
