-- ===== src/Store.antt =====
-- Package store: the store in memory and the one in Redis.
pub mod Spec
pub mod Memory
pub mod Redis
