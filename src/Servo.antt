-- ===== src/Servo.antt =====
-- The servo protocol adapter, src/hey_robot/robot_hardware/sms_sts.py: its words and bytes, the
-- packet of a position, and the reader of synchronous replies. The packets themselves are sent by
-- the SDK of the vendor, which is not modelled.
pub mod Words
pub mod Reply
pub mod RoundTrip
pub mod Fuel
mod Examples
