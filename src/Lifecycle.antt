-- ===== src/Lifecycle.antt =====
-- sites/services.py and ops/services.py: suspending, resuming and deleting a site.
pub mod Model
pub mod Access
pub mod Deletion
mod Guarded
mod Kept
mod Calls
mod Live
mod Examples
