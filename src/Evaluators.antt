-- ===== src/Evaluators.antt =====
-- internal/evaluators: the policy evaluators.
pub mod Decision
pub mod Verdict
pub mod Probabilistic
pub mod Threshold
pub mod Simple
pub mod Combine
pub mod Evaluator
pub mod Outcomes
pub mod Sampling
pub mod Conditions
pub mod Statuses
pub mod Latency
