-- ===== src/Events.antt =====
-- The events app.
pub mod Access
pub mod Spots
pub mod Registration
pub mod PublicResponse
mod Examples
