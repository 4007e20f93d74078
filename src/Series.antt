-- ===== src/Series.antt =====
-- events/services.py: the dates of a recurring event, and its occurrences.
pub mod Dates
pub mod Starts
pub mod Update
pub mod Page
pub mod Months
pub mod Order
pub mod Spec
pub mod Shift
mod Examples
