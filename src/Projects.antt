-- ===== src/Projects.antt =====
-- main.go: the projects of a Rancher cluster, put together from the labels of its namespaces.
pub mod Types
pub mod Texts
pub mod Grouping
pub mod Presets
pub mod Monitoring
pub mod Listing
pub mod Selection
