-- ===== src/Fetcher.antt =====
-- The data fetcher, server/src/fetcher.
pub mod State
