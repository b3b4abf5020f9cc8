-- ===== src/Evaluator.antt =====
-- agent-observability/evaluator: the judge, the rules, and the settling of traces.
pub mod Judge
pub mod Schema
pub mod Rules
pub mod Run
pub mod Settling
