-- ===== src/Commands.antt =====
-- The `main` functions of the programs, after the set-up of their clients: what they call, what
-- they print and how they end.
pub mod Console
pub mod Projects
pub mod Listings
pub mod Reconcilers
pub mod Operator
