-- ===== src/Dhcp.antt =====
-- The DHCP server, nimbus-core/src/dhcp/mod.rs.
pub mod Pool
pub mod Types
pub mod Lease
pub mod Reclaim
pub mod Reply
pub mod Process
pub mod Startup
pub mod Claims
mod Tests
