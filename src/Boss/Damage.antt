-- ===== src/Boss/Damage.antt =====
-- What Damage answers, and what it leaves behind when the durable write fails.
pub mod Durable
pub mod Seen
pub mod Answer
pub mod Failure
pub mod Hot
