-- ===== src/Examples.antt =====
-- The theorems at concrete traces, caches and policies.
pub mod Data
pub mod Setup
mod Evaluation
pub mod Caches
mod Handling
mod Outcomes
mod Sharding
mod Deciding
mod Configuring
mod LifeCycle
mod Growing
