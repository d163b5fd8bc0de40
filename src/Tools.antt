-- ===== src/Tools.antt =====
-- The tools of the agent: argument schemas, the registry, and the execution of prepared calls.
pub mod Schema
pub mod Calls
pub mod Executor
pub mod Execute
mod Examples
