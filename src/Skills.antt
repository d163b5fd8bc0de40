-- ===== src/Skills.antt =====
-- The skill layer, src/hey_robot/skills.
pub mod Models
pub mod Termination
pub mod Runner
pub mod Worker
pub mod Resources
mod Examples
