-- ===== src/Outcomes.antt =====
-- packages/core/src/outcomes: the wait predicates and the outcome lifecycle.
pub mod Predicates
pub mod Criteria
pub mod Waits
