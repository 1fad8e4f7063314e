-- ===== src/Redis.antt =====
-- internal/store/redis.go: the cache.
pub mod Keyspace
pub mod Order
pub mod Server
pub mod Keys
pub mod Scripts
pub mod Snapshot
pub mod Views
pub mod Client
pub mod Pipeline
pub mod Hits
pub mod Frame
pub mod Expiry
pub mod Calls
pub mod Laws
pub mod Refund
pub mod Balance
pub mod View
pub mod Ready
