-- ===== src/Agent.antt =====
-- The agent of a session, src/hey_robot/cognition/runtime.
pub mod Messages
pub mod Runner
pub mod Context
pub mod Drive
pub mod Sessions
pub mod Service
pub mod Sample
mod Examples
