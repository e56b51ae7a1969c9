-- ===== src/Api.antt =====
-- api/management/v1alpha1: the types of the API and their deep copies.
pub mod Memory
pub mod Types
pub mod DeepCopy
pub mod Separate
pub mod Readings
pub mod Copies
pub mod Objects
