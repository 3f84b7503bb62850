-- ===== src/Recording.antt =====
-- The recording cache and the byte ranges of storage/recording-cache.ts.
pub mod Cache
pub mod Range
