-- ===== src/Dns.antt =====
-- The DNS side of nimbus-core: the response cache and the query router.
pub mod Cache
pub mod RateLimit
pub mod QueryLimit
pub mod Answers
pub mod Router
pub mod Forwarder
pub mod Dot
mod Tests
