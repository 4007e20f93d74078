-- ===== src/Reviews.antt =====
-- reviews/services.py: attendees' reviews, their reports and their moderation.
pub mod Model
pub mod Writing
pub mod Moderation
mod Ledger
mod Edits
mod Reporting
mod Calls
mod Saved
mod Presence
mod Examples
