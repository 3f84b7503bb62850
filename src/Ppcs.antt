-- ===== src/Ppcs.antt =====
-- Parts of the PPCS sessions: startup repair and access units.
pub mod AccessUnits
pub mod Commands
pub mod MediaStart
pub mod Reorder
