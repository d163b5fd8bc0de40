-- ===== src/Tasks.antt =====
-- The durable task store, src/hey_robot/cognition/runtime/agent_task_store.py, and in Coordinator
-- the layer above it, src/hey_robot/cognition/runtime/task_coordinator.py.
pub mod Rows
pub mod Queries
pub mod Updates
pub mod Steps
pub mod Projection
pub mod Trace
pub mod Status
pub mod Events
pub mod Finality
pub mod Wf
pub mod Submission
pub mod Coordinator
pub mod Sample
mod Examples
