-- ===== src/Postgres.antt =====
-- internal/store/postgres.go and db/init.sql: the durable store.
pub mod Tables
pub mod Batch
pub mod Claims
pub mod Reads
pub mod Ledger
pub mod Connect
