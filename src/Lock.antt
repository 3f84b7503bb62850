-- ===== src/Lock.antt =====
-- Parts of the smart lock protocol.
pub mod E30
