-- ===== src/Rules/Eval.antt =====
-- rules.rs: the steps of `Engine::evaluate`, one function for each `eval_*` method.
pub mod Service
pub mod Events
pub mod Gpus
pub mod Decode
pub mod Counters
