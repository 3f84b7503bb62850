-- ===== src/Live.antt =====
-- Parts of live streaming to one viewer.
pub mod Adts
pub mod Pacer
