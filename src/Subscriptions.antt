-- ===== src/Subscriptions.antt =====
-- The subscriptions app: a site's own subscription to the platform.
pub mod Model
pub mod Access
pub mod Webhook
pub mod Inbox
pub mod Status
pub mod Delivery
pub mod Deadlines
mod Examples
