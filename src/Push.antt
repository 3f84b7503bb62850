-- ===== src/Push.antt =====
-- Push notifications: repeated deliveries and the MCS wire stream.
pub mod Deduplicator
pub mod Mcs
