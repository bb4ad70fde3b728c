-- ===== src/Lib.antt =====
-- NimbusDNS: a DNS forwarder that caches and blocks, with a DHCP server and an HTTP API.
--
-- The parts, and the files that model them (paths from the repository's root):
--   * Dhcp: the DHCP server of nimbus-core/src/dhcp/mod.rs. Dhcp/Pool is `IpPool`; Dhcp/Types the
--     data; Dhcp/Lease the operations of `impl DhcpServer`; Dhcp/Reclaim
--     `reclaim_expired_locked`; Dhcp/Reply the replies; Dhcp/Process `process_dhcp_message`, one
--     packet as one step on the state, since the program holds the lock `mutation` for it;
--     Dhcp/Startup what is read at the start. Dhcp/Claims states how leases and offers agree with
--     the pool.
--   * Dns/Cache: `DnsCache` of nimbus-core/src/dns/cache.rs. Dns/RateLimit, Dns/Answers and
--     Dns/Router: `RateLimiter`, the answers and `QueryRouter` of nimbus-core/src/dns/router.rs.
--     Dns/QueryLimit: `QueryLimiter` of nimbus-core/src/dns/listener.rs, with its tasks as
--     interleaved steps. Dns/Forwarder: `DnsForwarder` of nimbus-core/src/dns/forwarder.rs;
--     Dns/Dot: the queries that wait on one TLS connection of nimbus-core/src/dns/dot.rs.
--   * Blocking: `WildcardMatcher` and `BlockingLists` of nimbus-core/src/blocking/mod.rs;
--     Blocking/Loading is `BlockingLists::load` and `BlockingEngine`; Blocking/Fetcher
--     nimbus-core/src/blocking/fetcher.rs.
--   * Config: nimbus-core/src/config/mod.rs, with the defaults, the web ports, the upstreams, and
--     the variables of the environment each in a file.
--   * Gravity: the tables of nimbus-core/src/database/schema.rs and the statements on them of
--     nimbus-core/src/database/gravity.rs; Gravity/Pattern is `check_blocked` with its patterns.
--   * Queries: the tables and statements of nimbus-core/src/database/queries.rs; Queries/Writer
--     the task of nimbus-core/src/database/writer.rs, as steps on its queue, batch and running
--     writes.
--   * Api: the handlers of nimbus-api/src/lib.rs that change the lists, with the changes they
--     make to the lists in memory; Api/Config those that read and change the configuration.
--   * OverTime: `OverTime` of nimbus-core/src/over_time/mod.rs.
--   * Auth: `verify_password`, `SessionCache` and `AuthRateLimiter` of nimbus-api/src/auth.rs.
--   * Common: tests, lists, sets, maps as association lists, and text.
--
-- How they interact: the router asks the rate limiter, then the blocking lists (its argument
-- `is_blocked`), then the cache, then the upstreams (its argument `forward`), and stores what it
-- got in the cache. The listener asks `QueryLimiter` before it starts a task for the router. The
-- lists in memory are loaded from the tables of Gravity; a handler of Api changes both. The
-- fetcher replaces the gravity table. The writer of Queries takes what the listener logs, and
-- DHCP keeps its leases in a table there.
--
-- Conventions. Numbers are natural numbers; counters that may wrap keep `% 2 ^ w`. An address is
-- its number, a string the list of its characters (or the native string, where it is only passed
-- on), a `HashMap` or `DashMap` an association list. Its walk order, where the code depends on it,
-- is an argument, a record `Iteration` of Common/Iteration. The clock is read through arguments,
-- one for each call in the code, but `DnsCache::purge_expired`, which reads it for each entry,
-- takes one. A subtraction that stops at 0 stands for a saturating one, or for one that cannot go
-- below 0 in the code; sizes of collections do not wrap. A table is the list of its rows; of the
-- failures of SQLite, a statement has that of a key that is not unique. Times and counts that the
-- database keeps as signed integers are natural numbers. A write of the configuration file that
-- fails leaves whatever text an argument says, since `std::fs::write` truncates the file first.
--
-- Fuel: the eviction loop of `DnsCache::insert` runs on fuel, one more than the number of entries;
-- each turn drops an entry, so that is enough when the bound is not 0. The loop of
-- `unique_conn_id` runs for 65536 rounds, in which it tries each identifier of 16 bits; with fewer
-- queries waiting one is free. Its counter `NEXT_ID` is one for all connections; here it is a
-- field of the connection, which the others may move between two queries, but not while the loop
-- runs.
--
-- Arguments that stand for code from elsewhere: the encoding of DNS messages, regular
-- expressions, the parsers of addresses, serde and TOML, Argon2 and SHA-256, case mapping, and
-- `str::trim` where lists are loaded, what the network answers, and the walk order of maps. The
-- database of DHCP leases that the DHCP server calls is a log of the calls made to it; the
-- database of sessions that the API calls is an argument.
--
-- Not modelled: sockets, TLS handshakes and tasks (the loops of nimbus-core/src/dns/listener.rs,
-- the connections of dot.rs, `start` of dhcp/mod.rs), HTTP routing, most of the handlers that only
-- report, the log-in handlers, the suggestions and migrations of queries.rs, the vendors of
-- hardware addresses, logging, signals, the daemon and the web interface.
pub mod Common
pub mod Config
pub mod Dhcp
pub mod Dns
pub mod Blocking
pub mod Gravity
pub mod Queries
pub mod OverTime
pub mod Auth
pub mod Api
