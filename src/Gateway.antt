-- ===== src/Gateway.antt =====
-- The gateway, src/hey_robot/gateway: identities of users across channels.
pub mod Identity
pub mod Receipts
pub mod Turns
mod Examples
