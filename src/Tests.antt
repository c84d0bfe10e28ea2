-- ===== src/Tests.antt =====
-- The laws at concrete inputs, and runs of the code that have known results.
pub mod Data
pub mod Ids
pub mod Prefixes
pub mod Buckets
pub mod Tables
pub mod Calls
pub mod Packets
pub mod Connections
pub mod Proxies
pub mod Lookups
pub mod Tasks
