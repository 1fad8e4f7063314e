-- ===== src/Tests.antt =====
-- Concrete runs of the models, at which the theorems are applied.
pub mod Data
mod Cache
mod Tables
mod Claims
mod Requests
mod Bodies
mod Queues
mod Stops
mod Crews
mod Defeats
mod Ledgers
mod Scores
mod Expiries
mod Starts
mod FirstHits
mod Probe
mod Crowd
mod Whole
