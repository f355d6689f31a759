-- ===== src/Rules.antt =====
-- crates/lss-core/src/rules.rs: the alert rule engine.
pub mod Sustained
pub mod Windows
pub mod Types
pub mod State
pub mod Eval
pub mod Baseline
pub mod Evaluate
pub mod States
