-- ===== src/Campaigns.antt =====
-- The communications app: campaigns to a site's contacts, and the SMS segments that they use.
pub mod Model
pub mod Segments
pub mod Audience
pub mod Sms
pub mod Launch
pub mod Counting
pub mod Ledger
pub mod Steps
pub mod Reserve
pub mod Cancel
pub mod Calls
mod Examples
