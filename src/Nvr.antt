-- ===== src/Nvr.antt =====
-- The NVR wire boundary: PTCS packets, their sender and their reassembly.
pub mod Ptcs
