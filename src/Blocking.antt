-- ===== src/Blocking.antt =====
-- The blocking engine of nimbus-core/src/blocking.
pub mod Wildcard
pub mod Lists
pub mod Loading
pub mod Fetcher
mod Tests
