-- ===== src/Boss.antt =====
-- internal/boss: the domain service.
pub mod Reward
pub mod Service
pub mod Damage
pub mod Claim
pub mod View
