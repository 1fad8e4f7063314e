-- ===== src/Recovery.antt =====
-- internal/recovery: the cache is rebuilt from the durable tables.
pub mod Rehydrate
pub mod Rebuilt
pub mod Reconcile
pub mod All
