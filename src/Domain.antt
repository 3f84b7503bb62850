-- ===== src/Domain.antt =====
-- The gateway's state, domain/: see the child modules.
pub mod Kinds
pub mod Names
pub mod Records
pub mod Gateway
pub mod Reports
pub mod Diagnostics
pub mod Locks
pub mod Sensors
