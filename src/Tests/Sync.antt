-- ===== src/Tests/Sync.antt =====
-- A cluster with a default Prometheus, a project Prometheus and one federated ServiceMonitor.
pub mod World
mod Copies
mod Runs
