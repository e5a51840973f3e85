-- ===== src/Runs.antt =====
-- Test runs, backend/src/runs.
pub mod Counters
pub mod Consistent
pub mod Transition
pub mod Shift
pub mod Record
pub mod Status
pub mod Setup
pub mod Listing
