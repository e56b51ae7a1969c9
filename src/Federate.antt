-- ===== src/Federate.antt =====
-- federate/main.go: a federated ServiceMonitor is copied, with the services, endpoints and secrets
-- that it needs, into the namespace of each project Prometheus.
pub mod Client
pub mod Ports
pub mod Copy
pub mod Write
pub mod Reconcile
pub mod Requests
