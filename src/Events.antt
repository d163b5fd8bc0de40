-- ===== src/Events.antt =====
-- Runtime events, src/hey_robot/events.
pub mod Store
mod Examples
