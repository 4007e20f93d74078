-- ===== src/Delivery.antt =====
-- communications/services.py: the messages that wait in the database and the workers that send them.
pub mod Queue
pub mod Send
pub mod Messages
pub mod Claims
pub mod Workers
pub mod Limits
pub mod Once
pub mod Queued
pub mod Examples
