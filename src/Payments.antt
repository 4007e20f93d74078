-- ===== src/Payments.antt =====
-- The payments app: fees, inventory, orders, refunds and disputes.
pub mod Fees
pub mod Errors
pub mod Inventory
pub mod Orders
pub mod Checkout
pub mod Refunds
pub mod Objects
pub mod Accounts
pub mod Disputes
pub mod Members
pub mod Dues
pub mod Webhook
pub mod Reconcile
mod Examples
mod ConnectExamples
