-- ===== src/Api/Agreement.antt =====
-- The lists in memory against the gravity database, over the handlers of nimbus-api/src/lib.rs that
-- change them: what is in memory is what `BlockingLists::load` would read.
pub mod Loaded
pub mod Domains
pub mod Rows
pub mod Requests
pub mod Blocks
pub mod Runs
