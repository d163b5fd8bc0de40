-- ===== src/Robot.antt =====
-- The deterministic gates before the robot driver, src/hey_robot/robot_runtime.
pub mod Types
pub mod Gate
pub mod Safety
pub mod Control
mod Examples
