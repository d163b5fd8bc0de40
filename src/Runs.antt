-- ===== src/Runs.antt =====
-- The files of the skill runs, src/hey_robot/persistence/run_store.py.
pub mod Artifacts
pub mod Files
pub mod Recovery
mod Examples
